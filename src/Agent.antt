-- ===== src/Agent.antt =====
-- peer_service/tools/test_agent/main.go: the tool that starts and stops the client of one machine and
-- passes the commands of the orchestrator on to it.
--
-- A process is known by the number of its start. What the system answers in one command is a record:
-- the files that exist, whether the pipes and the process can be made, and the port that is found
-- in its output before the wait is over; for a command of the client, which of the ten dials to a
-- port succeeds, whether the payload can be written, and the line that is read within a time in
-- milliseconds. `parse`, `data_of` and `payload_of` read
-- JSON, and a response is the record that is written as JSON.
pub mod Processes
use p2ptogether.Prelude.{
  ℕ, zero, suc, ◌+◌, Bool, false, not, ◌&&◌, ◌||◌, Option, none, some, List, [], ◌∷◌, ◌==◌, nat_eq,
  list_eq, if◌then◌else◌, is_some, Result, ok, err,
}
use p2ptogether.Prelude.Maps.{Map, lookup}
use p2ptogether.Names.{Text, text, is_empty, trim_space}

abbrev pub default_gui_test_port : ℕ
default_gui_test_port = 19999

-- `waited` are the processes that were signalled and waited for.
pub record Agent : Type 0 where
  pub gui_process : Option ℕ
  pub gui_port : ℕ
  pub default_bin_path : Text
  pub starts : ℕ
  pub waited : List ℕ
  pub run_paths : List Text

pub record System : Type 0 where
  pub exists : Text → Bool
  pub absolute : Text → Option Text
  pub pipes : Bool
  pub starts : Bool
  pub port : Option ℕ
  pub dials : ℕ → ℕ → Bool
  pub written : Text → Bool
  pub line : ℕ → Option Text

pub record Command : Type 0 where
  pub action : Text
  pub args : Map Text Text

pub data Error : Type 0 where
  already_running no_pipe start_failed dial_failed write_failed : Error

pub data Response : Type 0 where
  success : Text → Response
  failed : Error → Response
  invalid_json : Response
  unknown_action : Text → Response

pub first_existing : (Text → Bool) → Text → List Text → Text
first_existing exists path [] = path
first_existing exists path (c ∷ candidates) =
    if exists c then c else first_existing exists path candidates

-- The path that is run.
unfoldable pub resolve : System → Text → Text → Text
unfolding first_existing
resolve sys default path =
    let asked = if is_empty path then default else path in
    let found =
      if not (sys.exists asked) && (asked == text "./P2PTogether")
      then first_existing sys.exists asked
          (text "build/bin/P2PTogether" ∷ text "build/P2PTogether" ∷ text "bin/P2PTogether" ∷ [])
      else asked in
    elim (sys.absolute found) [ none ↦ found | some abs ↦ abs ]

port_of : Option ℕ → ℕ
port_of none = default_gui_test_port
port_of (some port) = port

unfoldable pub start_gui : System → Text → Agent → Result Error (Unit {0}) × Agent
unfolding resolve port_of
start_gui sys path a =
    if is_some a.gui_process
    then (err already_running, a)
    else if not sys.pipes
    then (err no_pipe, a)
    else if not sys.starts
    then (err start_failed, a)
    else (
      ok tt,
      record a {
        gui_process = some a.starts;
        gui_port = port_of sys.port;
        starts = a.starts + 1;
        run_paths = resolve sys a.default_bin_path path ∷ a.run_paths;
      },
    )

-- SIGTERM, or a kill where that fails, and the wait for the process.
unfoldable pub stop_gui : Agent → Agent
stop_gui a = elim a.gui_process [
  | none ↦ a
  | some p ↦ record a { gui_process = none; waited = p ∷ a.waited }
]

-- A command of the client: its action, and the number `timeout_ms` of its arguments, rounded down, if
-- it is above zero.
pub record Payload : Type 0 where
  pub action : Option Text
  pub timeout_ms : Option ℕ

abbrev pub default_timeout : ℕ
default_timeout = 2000

abbrev pub event_timeout : ℕ
event_timeout = 125000

-- How long the answer is waited for, in milliseconds.
unfoldable pub read_timeout : Option Payload → ℕ
read_timeout none = default_timeout
read_timeout (some payload) = elim payload.action [
  | none ↦ default_timeout
  | some action ↦
      if action == text "wait_for_event"
      then elim payload.timeout_ms [ none ↦ event_timeout | some ms ↦ ms + 5000 ]
      else default_timeout
]

-- The attempts that are left; half a second is waited behind each that fails.
unfoldable pub dial : System → ℕ → ℕ → ℕ → Bool
dial sys port zero attempt = false
dial sys port (suc left) attempt =
    let rest = dial sys port left (attempt + 1) in sys.dials port attempt || rest

-- The line that was read, without its spaces; no answer is no error.
unfoldable pub send_gui_command :
    (Text → Option Payload) → System → Text → Agent → Result Error Text
unfolding dial read_timeout
send_gui_command payload_of sys payload a =
    if not (dial sys a.gui_port 10 0)
    then err dial_failed
    else if not (sys.written payload)
    then err write_failed
    else elim (sys.line (read_timeout (payload_of payload))) [
      | none ↦ ok []
      | some line ↦ ok (trim_space line)
    ]

arg : Text → Command → Text
arg key cmd = elim (lookup key cmd.args) [ none ↦ [] | some value ↦ value ]

reported : Result Error (Unit {0}) → Response
reported (ok done) = success (text "OK")
reported (err e) = failed e

module _ (parse : Text → Option Command) (data_of : Text → Option Text)
    (payload_of : Text → Option Payload) where
  forwarded : Result Error Text → Response
  forwarded (err e) = failed e
  forwarded (ok line) = elim (data_of line) [ none ↦ success (text "OK") | some d ↦ success d ]

  run_command : System → Command → Agent → Response × Agent
  unfolding arg reported forwarded start_gui stop_gui send_gui_command
  run_command sys cmd a =
      if cmd.action == text "start_gui"
      then (let (result, a') = start_gui sys (arg (text "bin_path") cmd) a in (reported result, a'))
      else if cmd.action == text "stop_gui"
      then (success (text "OK"), stop_gui a)
      else if cmd.action == text "gui_command"
      then (forwarded (send_gui_command payload_of sys (arg (text "payload") cmd) a), a)
      else if cmd.action == text "ping"
      then (success (text "pong"), a)
      else (unknown_action cmd.action, a)

  unfoldable pub process_command : System → Text → Agent → Response × Agent
  unfolding run_command
  process_command sys line a = elim (parse line) [
    | none ↦ (invalid_json, a)
    | some cmd ↦ run_command sys cmd a
  ]
