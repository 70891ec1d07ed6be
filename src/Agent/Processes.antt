-- ===== src/Agent/Processes.antt =====
-- The processes that an agent starts (tools/test_agent/main.go).
use p2ptogether.Prelude.{
  ℕ, zero, suc, ◌+◌, ◌≡◌, ap, arith, Bool, true, false, Option, none, some, List, [], ◌∷◌, ◌++◌,
  ◌==◌, nat_eq, list_eq, if◌then◌else◌, Option-cases, inl, inr,
}
use p2ptogether.Names.{Text, text}
use p2ptogether.Agent.{
  Agent, System, Command, Payload, Response, process_command, run_command, arg, start_gui, stop_gui,
}

abbrev pub running : Option ℕ → List ℕ
running none = []
running (some p) = p ∷ []

-- The numbers below `n`, the highest first.
abbrev pub countdown : ℕ → List ℕ
countdown zero = []
countdown (suc n) = n ∷ countdown n

-- Every process that was started is the running one, or was waited for.
pub record IsValid (a : Agent) : Type 0 where
  pub accounted : running a.gui_process ++ a.waited ≡ countdown a.starts

countdown_next : (n : ℕ) → countdown (n + 1) ≡ n ∷ countdown n
countdown_next n = ap countdown one
  where
    one : n + 1 ≡ suc n
    one = omega arith

start_gui-IsValid :
    (sys : System) (path : Text) (a : Agent) → IsValid a → IsValid (start_gui sys path a).1
unfolding start_gui
start_gui-IsValid sys path a v =
    ground (arith, v.accounted, countdown_next a.starts, Option-cases a.gui_process)

stop_gui-IsValid : (a : Agent) → IsValid a → IsValid (stop_gui a)
unfolding stop_gui
stop_gui-IsValid a v = ground (arith, v.accounted, Option-cases a.gui_process)

by_action {ℓ κ} :
    {A : Type ℓ} (P : A → Type κ) (starts stops asks pings : Bool) (a b c d e : A)
    → P a
    → P b
    → P c
    → P d
    → P e
    → P (if starts then a else if stops then b else if asks then c else if pings then d else e)
by_action P true stops asks pings a b c d e h i j k l = h
by_action P false true asks pings a b c d e h i j k l = i
by_action P false false true pings a b c d e h i j k l = j
by_action P false false false true a b c d e h i j k l = k
by_action P false false false false a b c d e h i j k l = l

module _ (parse : Text → Option Command) (data_of : Text → Option Text)
    (payload_of : Text → Option Payload) where
  -- The commands of the orchestrator, each with what the system answers, the last one first.
  abbrev pub commanded : List (System × Text) → Agent → Agent
  commanded [] a = a
  commanded ((sys, line) ∷ commands) a =
      (process_command parse data_of payload_of sys line (commanded commands a)).1

  run_command-IsValid :
      (sys : System) (cmd : Command) (a : Agent)
      → IsValid a
      → IsValid (run_command parse data_of payload_of sys cmd a).1
  unfolding run_command
  run_command-IsValid sys cmd a v =
      by_action (λ (r : Response × Agent). IsValid r.1) (cmd.action == text "start_gui")
        (cmd.action == text "stop_gui") (cmd.action == text "gui_command")
        (cmd.action == text "ping") _ _ _ _ _
        (start_gui-IsValid sys (arg (text "bin_path") cmd) a v) (stop_gui-IsValid a v) v v v

  process_command-IsValid :
      (sys : System) (line : Text) (a : Agent)
      → IsValid a
      → IsValid (process_command parse data_of payload_of sys line a).1
  unfolding process_command
  process_command-IsValid sys line a v = elim (Option-cases (parse line)) [
    | inl e ↦ rw (e, process_command) v
    | inr (cmd, e) ↦ rw (e, process_command) (run_command-IsValid sys cmd a v)
  ]

  -- After any commands to an agent that has started no process before, every process that it has
  -- started is the one that runs, or was signalled and waited for, so that at most one runs.
  pub commanded-IsValid :
      (commands : List (System × Text)) (a : Agent) → IsValid a → IsValid (commanded commands a)
  commanded-IsValid [] a v = v
  commanded-IsValid ((sys, line) ∷ commands) a v =
      process_command-IsValid sys line (commanded commands a) (commanded-IsValid commands a v)
