-- ===== src/Orchestrator.antt =====
-- peer_service/tools/test_orchestrator/main.go: the tool that runs a scenario of commands on the
-- agents that it has discovered.
--
-- A stream is known by a number. What the network and an agent do in one call of `SendCommand` is a
-- record of answers, one for each attempt; `data_of` is the reading of the response line as JSON. An
-- agent ID has at least the sixteen characters that the logs cut off. `RunScenario`, whose
-- goroutines share these maps without a lock, is left out, as are the set-up of the host and the
-- discovery by mDNS and DHT, which are calls of libraries.
pub mod Variables
pub mod Streams
use p2ptogether.Prelude.{
  ℕ, zero, suc, ◌+◌, Bool, true, false, not, ◌&&◌, Option, none, some, List, [], ◌∷◌, ◌++◌, map,
  ◌==◌, nat_eq, list_eq, if◌then◌else◌, length, Result, ok, err,
}
use p2ptogether.Prelude.Maps.{Map, lookup, insert, delete, has_key}
use p2ptogether.Names.{Text, text, is_empty, trim_space}
use p2ptogether.Names.Decimal.{cut_prefix}

-- `peer.AddrInfo`: the peer, by its ID, and its addresses.
pub record AddrInfo : Type 0 where
  pub id : Text
  pub addrs : List Text

pub record Orchestrator : Type 0 where
  pub agents : Map Text AddrInfo
  pub agent_streams : Map Text ℕ
  pub variables : Map Text Text
  pub sent : List (ℕ × Text × Map Text Text)

-- What happens in the attempts of one command: whether the agent can be connected to, the stream
-- that is opened, whether the two writes succeed, and the line that is read.
pub record Attempts : Type 0 where
  pub connects : ℕ → Bool
  pub opens : ℕ → Option ℕ
  pub writes : ℕ → Bool
  pub writes_newline : ℕ → Bool
  pub reads : ℕ → Option Text

pub data Error : Type 0 where
  agent_not_found not_connected not_opened no_answer : Error

unfoldable pub handle_peer_found : AddrInfo → Orchestrator → Orchestrator
handle_peer_found pi o =
    if has_key pi.id o.agents then o else record o { agents = insert pi.id pi o.agents }

-- `varPattern` at the place behind "${": the name up to the next "}".
unfoldable pub name_end : Text → Option Text
name_end [] = none
name_end (c ∷ s) =
    let rest = name_end s in
    if c == b'}' then some [] else elim rest [ none ↦ none | some name ↦ some (c ∷ name) ]

-- The name of a variable that is written at this place.
unfoldable pub variable_at : Text → Option Text
unfolding name_end
variable_at [] = none
variable_at (c ∷ []) = none
variable_at (c ∷ d ∷ s) =
    if (c == b'$') && (d == b'{')
    then elim (name_end s) [ none ↦ none | some name ↦ if is_empty name then none else some name ]
    else none

-- A variable that is not known keeps its spelling.
pub value_of : Map Text Text → Text → Text
value_of variables name = elim (lookup name variables) [
  | none ↦ b'$' ∷ b'{' ∷ name ++ b'}' ∷ []
  | some value ↦ value
]

-- `ReplaceAllStringFunc`; the number counts the characters of a match that are still to be passed over.
unfoldable pub replace_all : Map Text Text → ℕ → Text → Text
unfolding variable_at value_of
replace_all variables skip [] = []
replace_all variables (suc skip) (c ∷ s) = replace_all variables skip s
replace_all variables zero (c ∷ s) = elim (variable_at (c ∷ s)) [
  | none ↦ c ∷ replace_all variables zero s
  | some name ↦ value_of variables name ++ replace_all variables (length name + 2) s
]

unfoldable pub substitute_variables : Map Text Text → Map Text Text → Map Text Text
unfolding replace_all
substitute_variables variables args = map (λ entry. (entry.0, replace_all variables 0 entry.1)) args

-- `s.Close()` and `delete`.
drop_stream : Text → Orchestrator → Orchestrator
drop_stream agent o = record o { agent_streams = delete agent o.agent_streams }

unfoldable pub reconnect_agent : Attempts → ℕ → Text → Orchestrator → Result Error ℕ × Orchestrator
reconnect_agent net attempt agent o =
    if not (has_key agent o.agents)
    then (err agent_not_found, o)
    else if not (net.connects attempt)
    then (err not_connected, o)
    else elim (net.opens attempt) [
      | none ↦ (err not_opened, o)
      | some stream ↦ (ok stream, record o { agent_streams = insert agent stream o.agent_streams })
    ]

-- The stream of the agent, made anew if there is none.
stream_of : Attempts → ℕ → Text → Orchestrator → Result Error ℕ × Orchestrator
unfolding reconnect_agent
stream_of net attempt agent o = elim (lookup agent o.agent_streams) [
  | none ↦ reconnect_agent net attempt agent o
  | some stream ↦ (ok stream, o)
]

cut_label : Text → Text → Text
cut_label label s = elim (cut_prefix label s) [ none ↦ s | some rest ↦ rest ]

-- The labels are cut off the data, and then the spaces.
unfoldable pub captured : Text → Text
unfolding cut_label
captured d = trim_space (cut_label (text "Session ID: ") (cut_label (text "Invite Code: ") d))

capture : Text → Option Text → Orchestrator → Orchestrator
unfolding captured
capture name none o = o
capture name (some d) o =
    if is_empty name then o else record o { variables = insert name (captured d) o.variables }

module _ (data_of : Text → Option Text) where
  -- One attempt over a stream, and whether its writes and its read succeeded. What was written stays
  -- written.
  converse : Attempts → ℕ → Text → Map Text Text → Text → ℕ → Orchestrator → Bool × Orchestrator
  unfolding capture
  converse net attempt action args name stream o =
      let o' = record o { sent = o.sent ++ (stream, action, args) ∷ [] } in
      if not (net.writes attempt && net.writes_newline attempt)
      then (false, o)
      else elim (net.reads attempt) [
        | none ↦ (false, o')
        | some line ↦ (true, capture name (data_of line) o')
      ]

  -- The loop with the attempts that are left.
  attempts :
      Attempts
      → ℕ
      → ℕ
      → Text
      → Text
      → Map Text Text
      → Text
      → Orchestrator
      → Result Error (Unit {0}) × Orchestrator
  unfolding stream_of converse drop_stream
  attempts net zero attempt agent action args name o = (err no_answer, o)
  attempts net (suc left) attempt agent action args name o =
      let (found, o') = stream_of net attempt agent o in
      elim found [
        | err e ↦ (err e, o')
        | ok stream ↦
            (let (done, o'') = converse net attempt action args name stream o' in
              let again =
                attempts net left (attempt + 1) agent action args name (drop_stream agent o'') in
              if done then (ok tt, o'') else again)
      ]

  unfoldable pub send_command :
      Attempts
      → Text
      → Text
      → Map Text Text
      → Text
      → Orchestrator
      → Result Error (Unit {0}) × Orchestrator
  unfolding attempts substitute_variables
  send_command net agent action args name o =
      attempts net 2 0 agent action (substitute_variables o.variables args) name o
