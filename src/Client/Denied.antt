-- ===== src/Client/Denied.antt =====
-- A message of the local client that this peer's roles do not permit (main.go).
use p2ptogether.Prelude.{
  ℕ, ◌≡◌, ◌≢◌, refl, false, Bool, Option, none, some, List, [], ◌∷◌, ◌==◌, nat_eq, any, ltb,
  if◌then◌else◌, Bool-cases, inl, inr, ◌∙◌, ap, not, ◌||◌, ◌⊎◌, true, arith,
}
use p2ptogether.Names.{Text, is_empty}
use p2ptogether.Permissions.{
  Permission, has, perm_manage_user_roles, perm_add_remove_roles, perm_moderate_chat,
  perm_kick_user, perm_ban_user, perm_queue, perm_play_pause, perm_seek, perm_set_speed,
}
use p2ptogether.Peers.{PeerCodec}
use p2ptogether.Server.{
  Server, role_manager, sessions, allowed, observe, send, with_clock, PlaybackStateInfo,
}
use p2ptogether.Roles.{get_permissions_for_peer}
use p2ptogether.Hlc.{Clock, update_hlc}
use p2ptogether.Messages.{SetPlaybackStateCmd, publish_control, playback_state}
use p2ptogether.Controller.{QueueCmdType, is_next, update_last_known_playback_state, handle}
use p2ptogether.Moderation.Rights.{
  Command, set_peer_roles, update_role, remove_role, chat_delete, kick_peer, ban_peer, perform,
  required, exempt, perform_denied,
}
use p2ptogether.Moderation.Rights as Rights
use p2ptogether.Discovery.{Network}
use p2ptogether.Client.{
  ClientMsg, create_session_request, leave_session_request, join_session_request, queue_cmd,
  playback_state_cmd, set_peer_roles_cmd, update_role_cmd, remove_role_cmd,
  playback_stream_completed_cmd, chat_cmd, chat_delete_cmd, kick_peer_cmd, ban_peer_cmd, stamp_of,
  handle_playback_state_cmd, dispatch, receive,
}

-- The permissions one of which a message needs; none for a message that anyone may send, and for the
-- NEXT of a node to itself.
unfoldable pub needed : ClientMsg → List Permission
needed (create_session_request uuid username name) = []
needed (leave_session_request id) = []
needed (join_session_request invite username) = []
needed (queue_cmd cmd ts) = if is_next cmd then [] else perm_queue ∷ []
needed (playback_state_cmd cmd) = perm_play_pause ∷ perm_seek ∷ perm_set_speed ∷ []
needed (set_peer_roles_cmd target names ts) = perm_manage_user_roles ∷ []
needed (update_role_cmd d ts) = perm_add_remove_roles ∷ []
needed (remove_role_cmd name ts) = perm_add_remove_roles ∷ []
needed (playback_stream_completed_cmd seq ts) = []
needed (chat_cmd uuid message ts) = []
needed (chat_delete_cmd id ts) = perm_moderate_chat ∷ []
needed (kick_peer_cmd target reason ts) = perm_kick_user ∷ []
needed (ban_peer_cmd target reason ts) = perm_ban_user ∷ []

-- The definition that the log line reads is missing.
unfoldable pub lacks_definition : ClientMsg → Bool
lacks_definition (update_role_cmd none ts) = true
lacks_definition msg = false

-- Nothing was sent, and roles, sessions and queue are as they were.
pub record Unharmed (s after : Server) : Type 0 where
  pub same_sent : after.sent ≡ s.sent
  pub same_roles : role_manager after ≡ role_manager s
  pub same_sessions : sessions after ≡ sessions s
  pub same_queue : after.queue_ctrl.q ≡ s.queue_ctrl.q
  pub same_node : after.node ≡ s.node

Unharmed-refl : (s : Server) → Unharmed s s
Unharmed-refl s = record {
  same_sent = refl;
  same_roles = refl;
  same_sessions = refl;
  same_queue = refl;
  same_node = refl;
}

Unharmed-trans : {s t u : Server} → Unharmed s t → Unharmed t u → Unharmed s u
Unharmed-trans h k = record {
  same_sent = k.same_sent ∙ h.same_sent;
  same_roles = k.same_roles ∙ h.same_roles;
  same_sessions = k.same_sessions ∙ h.same_sessions;
  same_queue = k.same_queue ∙ h.same_queue;
  same_node = k.same_node ∙ h.same_node;
}

with_clock-Unharmed : (c : Clock) (s : Server) → Unharmed s (with_clock c s)
with_clock-Unharmed c s = record {
  same_sent = refl;
  same_roles = refl;
  same_sessions = refl;
  same_queue = refl;
  same_node = refl;
}

observe-Unharmed : (ts : ℕ) (s : Server) → Unharmed s (observe ts s)
observe-Unharmed ts s = elim (Bool-cases (ltb 0 ts)) [
  | inl e ↦ rw e (with_clock-Unharmed (update_hlc ts s.session_manager.clock).1 s)
  | inr e ↦ rw e (Unharmed-refl s)
]

permits-observe :
    (ts : ℕ) (s : Server) (ps : List Permission)
    → let seen = observe ts s in
      any (λ p. allowed seen seen.node.id p) ps ≡ any (λ p. allowed s s.node.id p) ps
permits-observe ts s ps = elim (Bool-cases (ltb 0 ts)) [ inl e ↦ rw e refl | inr e ↦ rw e refl ]

update-Unharmed :
    (cmd : SetPlaybackStateCmd) (s : Server) → Unharmed s (update_last_known_playback_state cmd s)
unfolding update_last_known_playback_state
update-Unharmed cmd s = elim (Bool-cases newer) [
  | inl e ↦ rw e (record {
    same_sent = refl;
    same_roles = refl;
    same_sessions = refl;
    same_queue = refl;
    same_node = refl;
  })
  | inr e ↦ rw e (Unharmed-refl s)
]
  where
    known : PlaybackStateInfo
    known = s.queue_ctrl.last_known_playback_state

    newer : Bool
    newer = ltb known.hlc_ts cmd.hlc_ts || not (cmd.stream_sequence_id == known.stream_sequence_id)

-- The permissions depend on the roles only.
allowed-Unharmed :
    {s t : Server} → Unharmed s t → (p : Permission) → allowed t s.node.id p ≡ allowed s s.node.id p
allowed-Unharmed {s} h p = ap (λ rm. has (get_permissions_for_peer rm s.node.id) p) h.same_roles

-- A message is dropped, or panics for want of a definition.
abbrev pub IsRefused : ClientMsg → Server → Option Server → Type 0
IsRefused msg s result =
    ((lacks_definition msg ≡ false) × (after : Server) × (result ≡ some after) × Unharmed s after)
    ⊎ ((lacks_definition msg ≡ true) × (result ≡ none))

refused {ℓ} :
    (P : Server → Type ℓ) (b : Bool) (x y : Server) → b ≡ false → P y → P (if b then x else y)
refused P b x y h k = rw h k

module _ ⦃codec : PeerCodec⦄ (join : ℕ → Text → Bool) (net : Network)
    (duration_of : Text → Option ℕ) where
  -- One command that `perform_denied` drops.
  dropped :
      (c : Command) (s : Server)
      → allowed s s.node.id (required c) || false ≡ false
      → exempt c s.node.id s ≡ false
      → perform duration_of c s.node.id s ≡ s
  dropped c s d x = perform_denied duration_of c s.node.id s (ground (arith, d)) x

  queue_denied :
      (cmd : QueueCmdType) (s : Server)
      → is_next cmd ≡ false
      → allowed s s.node.id perm_queue || false ≡ false
      → (if is_empty s.node.current_session_id then s else (handle duration_of cmd s.node.id s).1)
        ≡ s
  queue_denied cmd s own d = elim (Bool-cases (is_empty s.node.current_session_id)) [
    | inl outside ↦ rw outside refl
    | inr inside ↦ rw inside (dropped_queue own)
  ]
    where
      dropped_queue : is_next cmd ≡ false → (handle duration_of cmd s.node.id s).1 ≡ s
      dropped_queue e =
          unfold perform required exempt in dropped (Rights.queue_cmd cmd) s d (rw e refl)

  playback_denied :
      (cmd : SetPlaybackStateCmd) (s : Server)
      → allowed s s.node.id perm_play_pause
          || (allowed s s.node.id perm_seek || (allowed s s.node.id perm_set_speed || false))
        ≡ false
      → Unharmed s (handle_playback_state_cmd cmd s)
  unfolding handle_playback_state_cmd
  playback_denied cmd s d =
      let seen = update_last_known_playback_state cmd s in
      let kept = update-Unharmed cmd s in
      let may = allowed-Unharmed kept in
      refused (Unharmed s)
        (allowed seen s.node.id perm_play_pause
          || allowed seen s.node.id perm_seek
          || allowed seen s.node.id perm_set_speed)
        (send (publish_control (playback_state cmd)) seen) seen
        (ground (arith, d, may perm_play_pause, may perm_seek, may perm_set_speed)) kept

  dispatch_denied :
      (msg : ClientMsg) (s : Server)
      → needed msg ≢ []
      → any (λ p. allowed s s.node.id p) (needed msg) ≡ false
      → IsRefused msg s (dispatch join net duration_of msg s)
  unfolding dispatch needed perform required exempt lacks_definition
  dispatch_denied (create_session_request uuid username name) s n d = absurd (n refl)
  dispatch_denied (leave_session_request id) s n d = absurd (n refl)
  dispatch_denied (join_session_request invite username) s n d = absurd (n refl)
  dispatch_denied (queue_cmd cmd ts) s n d = elim (Bool-cases (is_next cmd)) [
    | inl own ↦ absurd (n (rw own refl))
    | inr other ↦ inl (refl, s, ap some (queue_denied cmd s other (rw other at d)), Unharmed-refl s)
  ]
  dispatch_denied (playback_state_cmd cmd) s n d =
      inl (refl, handle_playback_state_cmd cmd s, refl, playback_denied cmd s d)
  dispatch_denied (set_peer_roles_cmd target names ts) s n d =
      inl (refl, s, ap some (dropped (set_peer_roles target names) s d refl), Unharmed-refl s)
  dispatch_denied (update_role_cmd none ts) s n d = inr (refl, refl)
  dispatch_denied (update_role_cmd (some r) ts) s n d =
      inl (refl, s, ap some (dropped (update_role r) s d refl), Unharmed-refl s)
  dispatch_denied (remove_role_cmd name ts) s n d =
      inl (refl, s, ap some (dropped (remove_role name) s d refl), Unharmed-refl s)
  dispatch_denied (playback_stream_completed_cmd seq ts) s n d = absurd (n refl)
  dispatch_denied (chat_cmd uuid message ts) s n d = absurd (n refl)
  dispatch_denied (chat_delete_cmd id ts) s n d =
      inl (refl, s, ap some (dropped (chat_delete id ts) s d refl), Unharmed-refl s)
  dispatch_denied (kick_peer_cmd target reason ts) s n d =
      inl (refl, s, ap some (dropped (kick_peer target reason ts) s d refl), Unharmed-refl s)
  dispatch_denied (ban_peer_cmd target reason ts) s n d =
      inl (refl, s, ap some (dropped (ban_peer target reason ts) s d refl), Unharmed-refl s)

  -- A message that needs a permission, of a peer that has none of those that serve, is dropped:
  -- nothing is sent, and the roles, the sessions, the queue and the node stay as they were; but a
  -- message to define a role that has no definition panics instead. The NEXT of a node to itself
  -- needs no permission. The clock may move, and so may the last known playback state.
  pub receive_denied :
      (msg : ClientMsg) (s : Server)
      → needed msg ≢ []
      → any (λ p. allowed s s.node.id p) (needed msg) ≡ false
      → IsRefused msg s (receive join net duration_of msg s)
  unfolding receive
  receive_denied msg s n d =
      let seen = observe (stamp_of msg) s in
      let later = observe-Unharmed (stamp_of msg) s in
      elim (dispatch_denied msg seen n (permits-observe (stamp_of msg) s (needed msg) ∙ d)) [
        | inl (there, after, dropped, harmless) ↦
            inl (there, after, dropped, Unharmed-trans later harmless)
        | inr (missing, panics) ↦ inr (missing, panics)
      ]
