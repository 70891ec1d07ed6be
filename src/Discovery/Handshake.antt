-- ===== src/Discovery/Handshake.antt =====
-- A peer that joins, and the admin that answers it (main.go): `handleAuthStream` of the one service
-- and `processAdminJoinResponse` of the other. The answer arrives whole.
use p2ptogether.Prelude.{
  ◌≤◌, arith, ℕ, ◌≡◌, refl, sym, ap, ◌∙◌, Bool, false, some, [], ◌∷◌, map, nat_eq, list_eq,
}
use p2ptogether.Prelude.Maps.{lookup}
use p2ptogether.Names.{Text, text}
use p2ptogether.Peers.{PeerId, PeerCodec}
use p2ptogether.Roles.{
  PeerAssignmentState, get_all_assignments, get_assigned_roles, assigned_of,
  get_permissions_for_peer, RoleManager,
}
use p2ptogether.Roles.History.{Reach}
use p2ptogether.Roles.Convergence.{newer}
use p2ptogether.Roles.Transfer.{lookup-apply_all, definitions-apply_entries}
use p2ptogether.Sessions.{Session, get_session, is_peer_banned, add_peer_to_session}
use p2ptogether.Sessions.Members.{add_peer_to_session-Reach}
use p2ptogether.Messages.{JoinSessionResponse, accepted}
use p2ptogether.Server.{Server, sessions, role_manager}
use p2ptogether.Admission.{handle_auth_stream}
use p2ptogether.Admission.Probe.{welcome_keeps}
use p2ptogether.Admission.Welcome.{last_answer, last_answer-welcome, handle_auth_stream-welcome}
use p2ptogether.Membership.Admission.{process_admin_join_response-Admitted}
use p2ptogether.Discovery.{process_response}

newer_kept :
    (state own : PeerAssignmentState)
    → state.hlc_ts ≤ own.hlc_ts
    → newer (some state) (some own) ≡ some own
unfolding newer
newer_kept state own late = ground arith

-- The permissions depend on the definitions and on the entry of the peer.
get_permissions_for_peer-agree :
    (peer : PeerId) (a b : RoleManager)
    → a.definitions ≡ b.definitions
    → lookup peer a.assignments ≡ lookup peer b.assignments
    → get_permissions_for_peer a peer ≡ get_permissions_for_peer b peer
unfolding get_permissions_for_peer get_assigned_roles
get_permissions_for_peer-agree peer a b d e = rw (d, e) refl

module _ ⦃codec : PeerCodec⦄ (join : ℕ → Text → Bool) where
  -- Both services after the exchange, and the answer between them.
  pub record Admitted (id : Text) (peer : PeerId) (admin joiner admin' : Server) : Type 0 where
    pub response : JoinSessionResponse
    pub answered : last_answer admin'.sent ≡ some response
    pub in_session :
        (process_response join admin.node.id response joiner).node.current_session_id ≡ id
    pub merged :
        lookup peer (role_manager (process_response join admin.node.id response joiner)).assignments
        ≡ newer
            (lookup peer (role_manager admin').assignments)
            (lookup peer (role_manager joiner).assignments)
    pub same_definitions :
        (role_manager (process_response join admin.node.id response joiner)).definitions
        ≡ (role_manager joiner).definitions

  -- A peer that is not banned and asks the admin of a session to join it is answered with an
  -- acceptance; when it has processed this, it is in the session, and every peer has the assignment
  -- that the admin has after the exchange, unless the joiner has one that is as new or newer, which
  -- stays; the definitions of the joiner stay. The joiner has the same role definitions as the admin,
  -- and the role manager of the admin has been changed since its creation only by role commands,
  -- received assignments and received snapshots of assignments, not by received definitions.
  pub handshake_lem :
      (username : Text) (peer : PeerId) (admin joiner : Server) (session : Session)
      → Reach (role_manager admin)
      → (role_manager joiner).definitions ≡ (role_manager admin).definitions
      → get_session (sessions admin) session.id ≡ some session
      → session.admin_peer_id ≡ admin.node.id
      → (is_peer_banned (sessions admin) session.id joiner.node.id).0 ≡ false
      → Admitted session.id peer admin joiner
          (handle_auth_stream joiner.node.id session.id username admin)
  unfolding process_response
  handshake_lem username peer admin joiner session r same stored is_admin free =
      let remote = joiner.node.id in
      let sm =
        (add_peer_to_session admin.session_manager session.id remote username
          (text "Viewer" ∷ [])).1 in
      let later : Server = record admin { session_manager = sm } in
      let (reached, kept) =
        add_peer_to_session-Reach admin.session_manager session.id remote username
          (text "Viewer" ∷ []) r in
      let (joined, info, named, welcomed) =
        handle_auth_stream-welcome remote username admin session stored is_admin free in
      let (items, identities, answered) = last_answer-welcome remote username joined later in
      let entries = map some (get_all_assignments sm.role_manager) in
      let done =
        process_admin_join_response-Admitted join joined.id entries items admin.node.id joiner in
      let roles = ap role_manager welcomed ∙ (welcome_keeps remote username joined later).1 in
      record {
        response =
            accepted joined.id joined.name (get_all_assignments sm.role_manager) items identities;
        answered = ap (λ (s : Server). last_answer s.sent) welcomed ∙ answered;
        in_session = done.in_session ∙ named;
        merged =
            ap (λ rm. lookup peer rm.assignments) done.roles
            ∙ lookup-apply_all (role_manager joiner) peer reached (same ∙ sym kept)
            ∙ ap
                (λ rm.
                  newer (lookup peer rm.assignments)
                    (lookup peer (role_manager joiner).assignments))
                (sym roles);
        same_definitions =
            ap (λ rm. rm.definitions) done.roles
            ∙ definitions-apply_entries (role_manager joiner) entries;
      }

  -- A peer that joins keeps the roles that it had before the session, and with them the permissions
  -- it had then, in its own eyes, if the stamp of these roles, of its own clock, is not older than that
  -- of the assignment which the admin makes for it: the snapshot is merged into the roles from before
  -- the session. The admin accepts the joiner, which is not banned, both have the same role
  -- definitions, and the admin has received no definitions since its creation.
  pub handshake_keeps_own :
      (username : Text) (admin joiner : Server) (session : Session)
      (own state : PeerAssignmentState)
      → Reach (role_manager admin)
      → (role_manager joiner).definitions ≡ (role_manager admin).definitions
      → get_session (sessions admin) session.id ≡ some session
      → session.admin_peer_id ≡ admin.node.id
      → (is_peer_banned (sessions admin) session.id joiner.node.id).0 ≡ false
      → lookup joiner.node.id (role_manager joiner).assignments ≡ some own
      → lookup joiner.node.id
          (role_manager (handle_auth_stream joiner.node.id session.id username admin)).assignments
        ≡ some state
      → state.hlc_ts ≤ own.hlc_ts
      → (response : JoinSessionResponse) × (last_answer
            (handle_auth_stream joiner.node.id session.id username admin).sent
          ≡ some response)
        × (let after = role_manager (process_response join admin.node.id response joiner) in
            (get_assigned_roles after joiner.node.id ≡ (own.role_names, own.hlc_ts))
            × (get_permissions_for_peer after joiner.node.id
                ≡ get_permissions_for_peer (role_manager joiner) joiner.node.id))
  unfolding get_assigned_roles
  handshake_keeps_own username admin joiner session own state r same stored is_admin free mine given
        late =
      let peer = joiner.node.id in
      let done = handshake_lem username peer admin joiner session r same stored is_admin free in
      let entry =
        done.merged
        ∙ ap (λ o. newer o (lookup peer (role_manager joiner).assignments)) given
        ∙ ap (newer (some state)) mine
        ∙ newer_kept state own late in
      (
        done.response,
        done.answered,
        (
          ap assigned_of entry,
          get_permissions_for_peer-agree peer _ (role_manager joiner) done.same_definitions
              (entry ∙ sym mine),
        ),
      )
