-- ===== src/Orchestrator/Streams.antt =====
-- The streams to the agents, and the two attempts of a command (tools/test_orchestrator/main.go).
use p2ptogether.Prelude.{
  ℕ, suc, ◌+◌, ◌≡◌, refl, ap, ◌∙◌, arith, Bool, true, false, ◌&&◌, ◌||◌, Option, none, nat_eq,
  list_eq, Result, ok, err, is_some, Option-cases, Result-cases, inl, inr,
}
use p2ptogether.Prelude.Maps.{Map, lookup, has_key, lookup-insert_self, lookup-delete_self}
use p2ptogether.Names.{Text}
use p2ptogether.Orchestrator.{
  Orchestrator, Attempts, Error, substitute_variables, reconnect_agent, stream_of, capture,
  converse, drop_stream, attempts, send_command,
}

abbrev pub returned {ℓ κ} : {E : Type ℓ} {A : Type κ} → Result E A → Bool
returned (ok a) = true
returned (err e) = false

-- The writes and the read of an attempt succeed.
abbrev pub talks : Attempts → ℕ → Bool
talks net k = net.writes k && net.writes_newline k && is_some (net.reads k)

-- A known agent can be connected to, and opens a stream.
abbrev pub reopens : Attempts → ℕ → Bool → Bool
reopens net k known = known && net.connects k && is_some (net.opens k)

abbrev pub succeeds : Attempts → Bool → Bool → Bool
succeeds net known streaming =
    (streaming || reopens net 0 known) && (talks net 0 || (reopens net 1 known && talks net 1))

module _ (data_of : Text → Option Text) (net : Attempts) (agent action : Text)
    (args : Map Text Text) (name : Text) where
  converse_lem :
      (k stream : ℕ) (o : Orchestrator)
      → let r = converse data_of net k action args name stream o in
        (r.0 ≡ talks net k) × (r.1.agent_streams ≡ o.agent_streams) × (r.1.agents ≡ o.agents)
  unfolding converse capture
  converse_lem k stream o = ground (arith, Option-cases (net.reads k))

  reconnect_agent_lem :
      (k : ℕ) (o : Orchestrator)
      → lookup agent o.agent_streams ≡ none
      → let r = reconnect_agent net k agent o in
        (returned r.0 ≡ reopens net k (has_key agent o.agents))
        × (has_key agent r.1.agent_streams ≡ returned r.0)
        × (r.1.agents ≡ o.agents)
  unfolding reconnect_agent
  reconnect_agent_lem k o h = elim (Option-cases (net.opens k)) [
    | inl e ↦ rw (e, reconnect_agent) (ground arith)
    | inr (stream, e) ↦
        rw (e, reconnect_agent) (ground (arith, lookup-insert_self agent stream o.agent_streams))
  ]

  stream_of_lem :
      (k : ℕ) (o : Orchestrator)
      → let r = stream_of net k agent o in
        (returned r.0 ≡ (has_key agent o.agent_streams || reopens net k (has_key agent o.agents)))
        × (has_key agent r.1.agent_streams ≡ returned r.0)
        × (r.1.agents ≡ o.agents)
  unfolding stream_of
  stream_of_lem k o = elim (Option-cases (lookup agent o.agent_streams)) [
    | inl e ↦ rw (e, stream_of) (reconnect_agent_lem k o e)
    | inr (stream, e) ↦ rw (e, stream_of) (refl, ap is_some e, refl)
  ]

  -- What is left of the attempts when no stream is kept.
  abbrev Settled : Bool → Orchestrator → Result Error (Unit {0}) × Orchestrator → Type 0
  Settled success o r =
      (returned r.0 ≡ success)
      × (has_key agent r.1.agent_streams ≡ success)
      × (r.1.agents ≡ o.agents)

  tried :
      (left k : ℕ) (o : Orchestrator) (later : Bool)
      → ((o' : Orchestrator)
          → lookup agent o'.agent_streams ≡ none
          → o'.agents ≡ o.agents
          → Settled later o (attempts data_of net left (k + 1) agent action args name o'))
      → Settled
          ((has_key agent o.agent_streams || reopens net k (has_key agent o.agents))
            && (talks net k || later))
          o
          (attempts data_of net (suc left) k agent action args name o)
  unfolding attempts drop_stream
  tried left k o later rest =
      let (found, kept, known) = stream_of_lem k o in
      elim (Result-cases (stream_of net k agent o).0) [
        | inl (stream, e) ↦
            (let (answered, streams, agents) = converse_lem k stream (stream_of net k agent o).1 in
              let dropped =
                drop_stream agent
                  (converse data_of net k action args name stream (stream_of net k agent o).1).1 in
              let again = rest dropped (lookup-delete_self agent _) (agents ∙ known) in
              rw (e, attempts) (ground arith))
        | inr (x, e) ↦ rw (e, attempts) (ground arith)
      ]

  second :
      (o : Orchestrator)
      → lookup agent o.agent_streams ≡ none
      → Settled
          (reopens net 1 (has_key agent o.agents) && talks net 1)
          o
          (attempts data_of net 1 1 agent action args name o)
  second o h = let (result, streams, agents) = tried 0 1 o false none_left in ground arith
    where
      none_left :
          (o' : Orchestrator)
          → lookup agent o'.agent_streams ≡ none
          → o'.agents ≡ o.agents
          → Settled false o (attempts data_of net 0 (1 + 1) agent action args name o')
      none_left o' gone known = unfold attempts in (refl, ap is_some gone, known)

  first :
      (o : Orchestrator)
      → Settled
          (succeeds net (has_key agent o.agents) (has_key agent o.agent_streams))
          o
          (attempts data_of net 2 0 agent action args name o)
  first o = tried 1 0 o (reopens net 1 (has_key agent o.agents) && talks net 1) (λ o' gone known.
      let (result, streams, agents) = second o' gone in
      let same = ap (λ m. reopens net 1 (has_key agent m) && talks net 1) known in
      (result ∙ same, streams ∙ same, agents ∙ known))

-- A command returns without an error exactly when there is a stream to the agent, or the agent is
-- known and opens a new one, and the exchange succeeds; or it does not, and the second attempt opens
-- a new stream and succeeds. After an error no stream to the agent is kept, and after a success
-- there is one; the known agents stay as they are.
pub send_command_lem :
    (data_of : Text → Option Text) (net : Attempts) (agent action : Text) (args : Map Text Text)
    (name : Text) (o : Orchestrator)
    → let success = succeeds net (has_key agent o.agents) (has_key agent o.agent_streams) in
      let (result, o') = send_command data_of net agent action args name o in
      (returned result ≡ success)
      × (has_key agent o'.agent_streams ≡ success)
      × (o'.agents ≡ o.agents)
unfolding send_command
send_command_lem data_of net agent action args name o =
    first data_of net agent action (substitute_variables o.variables args) name o
