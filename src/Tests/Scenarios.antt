-- ===== src/Tests/Scenarios.antt =====
-- Runs of a scenario and of an agent's commands (tools/test_orchestrator and tools/test_agent).
use p2ptogether.Prelude.{
  ◌≡◌, refl, arith, true, Option, none, some, List, [], ◌∷◌, nat_eq, list_eq, leb,
}
use p2ptogether.Prelude.Maps.{Map, lookup}
use p2ptogether.Names.{Text, text}
use p2ptogether.Orchestrator.{Orchestrator, Attempts, substitute_variables, send_command}
use p2ptogether.Orchestrator.Variables.{plain, variable, substitute_variables_lem}
use p2ptogether.Orchestrator.Streams.{returned, send_command_lem}
use p2ptogether.Agent.{Agent, System, Command, Payload, default_gui_test_port}
use p2ptogether.Agent.Processes.{IsValid, commanded, commanded-IsValid}
use p2ptogether.Tests.Samples.{one_letter}

abbrev variables : Map Text Text
variables = (text "code", text "x${code}") ∷ []

substitute_variables_example :
    substitute_variables variables ((text "join", text "id=${code}") ∷ [])
    ≡ (text "join", text "id=x${code}") ∷ []
unfolding substitute_variables lookup
substitute_variables_example =
    substitute_variables_lem variables
      ((text "join", plain (text "id=") ∷ variable (text "code") ∷ []) ∷ []) (ground arith)

-- The first write fails, and a new stream is opened.
abbrev stale : Attempts
stale = record {
  connects = λ n. true;
  opens = λ n. some 8;
  writes = λ n. leb 1 n;
  writes_newline = λ n. true;
  reads = λ n. some (text "{}");
}

abbrev orchestrator : Orchestrator
orchestrator = record {
  agents = (text "agent", record { id = text "agent"; addrs = [] }) ∷ [];
  agent_streams = (text "agent", 7) ∷ [];
  variables = [];
  sent = [];
}

send_command_example :
    returned (send_command (λ line. none) stale (text "agent") (text "ping") [] [] orchestrator).0
    ≡ true
unfolding lookup
send_command_example =
    (send_command_lem (λ line. none) stale (text "agent") (text "ping") [] [] orchestrator).0

abbrev idle : Agent
idle = record {
  gui_process = none;
  gui_port = default_gui_test_port;
  default_bin_path = text "./P2PTogether";
  starts = 0;
  waited = [];
  run_paths = [];
}

abbrev healthy : System
healthy = record {
  exists = λ path. true;
  absolute = λ path. some path;
  pipes = true;
  starts = true;
  port = none;
  dials = λ port n. true;
  written = λ payload. true;
  line = λ ms. none;
}

abbrev command_of : Text → Option Command
command_of line = some (record { action = line; args = [] })

abbrev no_data : Text → Option Text
no_data line = none

abbrev no_payload : Text → Option Payload
no_payload line = none

abbrev commands : List (System × Text)
commands = (healthy, text "stop_gui") ∷ (healthy, text "start_gui") ∷ []

commanded-IsValid_example : IsValid (commanded command_of no_data no_payload commands idle)
commanded-IsValid_example =
    commanded-IsValid command_of no_data no_payload commands idle (record { accounted = refl })
