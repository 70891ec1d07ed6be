-- ===== src/Tests/Starting.antt =====
-- Runs of the start, of a join between two services, of a cancelled encoder, and of a scenario.
use p2ptogether.Prelude.{
  ℕ, ◌≡◌, ◌∙◌, ◌+◌, refl, sym, arith, true, false, Bool, none, some, [], ◌∷◌, map, ok, nat_eq,
  list_eq, get_elem?,
}
use p2ptogether.Prelude.Maps.{insert, lookup}
use p2ptogether.Names.{Text, text, normalize}
use p2ptogether.Permissions.{Role}
use p2ptogether.Roles.{
  RoleManager, get_assigned_roles, get_permissions_for_peer, new_role_manager, normalize_names,
  set_peer_roles, admin_role, viewer_role,
}
use p2ptogether.Roles.Updates.{parse_role_names}
use p2ptogether.Roles.Access.{definitions-set_peer_roles}
use p2ptogether.Roles.History.{start, next, sets}
use p2ptogether.Sessions.{get_session, is_peer_banned, add_peer_to_session}
use p2ptogether.Server.{role_manager, Server, sessions, with_role_manager}
use p2ptogether.Admission.{handle_auth_stream}
use p2ptogether.Messages.{JoinSessionResponse}
use p2ptogether.Admission.Welcome.{last_answer}
use p2ptogether.Discovery.{process_response}
use p2ptogether.Hlc.{Clock, get_current_hlc}
use p2ptogether.Discovery.Handshake.{Admitted, handshake_lem, handshake_keeps_own}
use p2ptogether.StartUp.{start_up, poll, poll_control, new_loop}
use p2ptogether.StartUp.Fresh.{Fresh, start_up-Fresh}
use p2ptogether.StartUp.Subscriptions.{begins, polls, Follows, IsTidy, poll_lem}
use p2ptogether.Runner as Runner
use p2ptogether.Runner.{World, Routine, Outcome, finished, new_encoder_runner}
use p2ptogether.Runner.Cancellation.{Choice, due_at, here, own, Cancelled-finished}
use p2ptogether.Tests.Samples.{assigned, one_letter, clock, server, session, ring}

abbrev always : ℕ → Text → Bool
always n name = true

abbrev given : RoleManager
given = (set_peer_roles new_role_manager clock 1 (text "Admin" ∷ [])).1

abbrev admin : Server
admin = with_role_manager given server

abbrev joiner : Server
joiner = with_role_manager new_role_manager (record server { node = record server.node { id = 3 } })

stored : get_session (sessions admin) session.id ≡ some session
unfolding get_session lookup
stored = refl

free : (is_peer_banned (sessions admin) session.id 3).0 ≡ false
unfolding is_peer_banned lookup
free = refl

handshake_example :
    Admitted always session.id 3 admin joiner (handle_auth_stream 3 session.id (text "bob") admin)
handshake_example =
    handshake_lem always (text "bob") 3 admin joiner session
      (next start (sets new_role_manager clock 1 (text "Admin" ∷ [])))
      (sym (definitions-set_peer_roles new_role_manager clock 1 (text "Admin" ∷ []))) stored refl
      free

-- The wall clock of this peer is ahead.
abbrev ahead : Clock
ahead = record { wall = λ n. 5000 + n; reads = 0; time = 0; logical = 0 }

abbrev self_made : RoleManager
self_made = (set_peer_roles new_role_manager ahead 3 (text "Admin" ∷ [])).1

abbrev early : Server
early = with_role_manager self_made joiner

self_assigned : lookup 3 self_made.assignments ≡ some (assigned (text "admin") 327_680_000)
unfolding set_peer_roles normalize_names new_role_manager normalize lookup insert get_current_hlc
self_assigned = refl

viewer_given :
    lookup 3 (role_manager (handle_auth_stream 3 session.id (text "bob") admin)).assignments
    ≡ some (assigned (text "viewer") 65_536_000)
unfolding handle_auth_stream set_peer_roles normalize_names new_role_manager normalize lookup insert
    get_current_hlc get_session is_peer_banned add_peer_to_session
viewer_given = refl

keeps_own_example :
    (response : JoinSessionResponse) × (last_answer
        (handle_auth_stream 3 session.id (text "bob") admin).sent
      ≡ some response)
    × ((get_assigned_roles (role_manager (process_response always 1 response early)) 3
          ≡ (text "admin" ∷ [], 327_680_000))
        × (get_permissions_for_peer (role_manager (process_response always 1 response early)) 3
            ≡ get_permissions_for_peer (role_manager early) 3))
keeps_own_example =
    handshake_keeps_own always (text "bob") admin early session
      (assigned (text "admin") 327_680_000) (assigned (text "viewer") 65_536_000)
      (next start (sets new_role_manager clock 1 (text "Admin" ∷ [])))
      (definitions-set_peer_roles new_role_manager ahead 3 (text "Admin" ∷ [])
        ∙ sym (definitions-set_peer_roles new_role_manager clock 1 (text "Admin" ∷ [])))
      stored refl free self_assigned viewer_given (omega arith)

parsed :
    parse_role_names new_role_manager (text "Admin, viewer") ≡ ok (admin_role ∷ viewer_role ∷ [])
unfolding parse_role_names new_role_manager normalize lookup
parsed = refl

normal :
    normalize_names new_role_manager.definitions
      (map (λ (r : Role). r.name) (admin_role ∷ viewer_role ∷ []))
    ≡ ok (text "admin" ∷ text "viewer" ∷ [])
unfolding normalize_names new_role_manager normalize lookup
normal = refl

start_up_example :
    (s : Server) × (start_up always 1 ring (text "Admin, viewer") clock ≡ ok s)
    × Fresh 1 (text "admin" ∷ text "viewer" ∷ []) s
start_up_example =
    start_up-Fresh always 1 ring (text "Admin, viewer") clock (admin_role ∷ viewer_role ∷ [])
      (text "admin" ∷ text "viewer" ∷ []) (λ n name. refl) parsed normal

poll_example :
    let l = poll true (some (text "a")) new_loop in
    Follows none (poll true none l)
    × IsTidy (poll true none l)
    × Follows (some (text "b")) (poll_control true (some (text "b")) l)
    × IsTidy (poll_control true (some (text "b")) l)
poll_example = poll_lem none (text "b") (polls true (some (text "a")) begins)

abbrev two_starts : World
two_starts =
    Runner.start (text "b.mkv") 4
      (Runner.start (text "a.mkv") 0 (record { runner = new_encoder_runner; routines = [] }))

abbrev choice : Choice
choice = record { compiled = true; monitor = none; succeeded = true }

abbrev looping_routine : Routine
looping_routine = record { file_path = text "a.mkv"; seq_base = 0; stage = Runner.looping }

there : get_elem? two_starts.routines 0 ≡ some looping_routine
unfolding Runner.start Runner.begin new_encoder_runner
there = refl

abbrev moved : World → World
moved w = Runner.act (due_at choice (get_elem? w.routines 0)) 0 w

Cancelled-finished_example :
    (after : Routine) × (outcome : Outcome) × (get_elem? (moved (moved two_starts)).routines 0
      ≡ some after)
    × (after.stage ≡ finished outcome)
Cancelled-finished_example =
    Cancelled-finished 0 2 looping_routine two_starts (moved (moved two_starts)) there
      (own choice (own choice here)) (omega arith)
