-- ===== src/Membership/Admission.antt =====
-- A peer that was admitted to a session (main.go).
use p2ptogether.Prelude.{
  ℕ, ◌≡◌, refl, true, false, Bool, Option, none, some, List, nat_eq, list_eq, if◌then◌else◌, ◌∙◌,
  ap,
}
use p2ptogether.Names.{Text}
use p2ptogether.Permissions.{perm_queue, has}
use p2ptogether.Peers.{PeerId, PeerCodec}
use p2ptogether.Roles.{PeerRoleAssignment, get_permissions_for_peer}
use p2ptogether.Roles.Updates.{apply_all_assignments_snapshot, apply_entries}
use p2ptogether.Messages.{WireItem}
use p2ptogether.Topics.{join_session_topics}
use p2ptogether.Topics.Joined.{join_session_topics-in_place}
use p2ptogether.Server.{Server, role_manager, sessions, allowed}
use p2ptogether.Streaming.{snapshot}
use p2ptogether.Streaming.Frame.{react_to_queue_update-Keeps}
use p2ptogether.Controller.{apply_update}
use p2ptogether.Membership.{
  set_current_session_id, join_topics, apply_role_snapshot, apply_queue_snapshot,
  process_admin_join_response,
}

-- What a queue snapshot leaves as it is.
record Same (s after : Server) : Type 0 where
  roles : role_manager after ≡ role_manager s
  kept_sessions : sessions after ≡ sessions s
  session : after.node.current_session_id ≡ s.node.current_session_id
  topics : after.node.topics ≡ s.node.topics

Same-refl : (s : Server) → Same s s
Same-refl s = record { roles = refl; kept_sessions = refl; session = refl; topics = refl }

chosen {ℓ} :
    {E : Type 0} (P : Server → Type ℓ) (b : Bool) (x y : E × Server)
    → P x.1
    → P y.1
    → P (if b then x else y).1
chosen P true x y h k = h
chosen P false x y h k = k

given_up : {E : Type 0} (b : Bool) (x y : E × Server) → b ≡ false → (if b then x else y).1 ≡ y.1
given_up b x y h = rw h refl

module _ ⦃codec : PeerCodec⦄ where
  apply_update-Same :
      (items : List WireItem) (from : PeerId) (s : Server) → Same s (apply_update items from s).1
  unfolding apply_update snapshot
  apply_update-Same items from s =
      chosen (Same s) (allowed s from perm_queue) _ _
        (let k = react_to_queue_update-Keeps _ in
          record {
            roles = k.same_roles;
            kept_sessions = k.same_sessions;
            session = k.same_session;
            topics = k.same_topics;
          })
        (Same-refl s)

  apply_queue_snapshot-Same :
      (admin : PeerId) (items : Option (List WireItem)) (s : Server)
      → Same s (apply_queue_snapshot admin items s)
  unfolding apply_queue_snapshot
  apply_queue_snapshot-Same admin none s = Same-refl s
  apply_queue_snapshot-Same admin (some items) s = apply_update-Same items admin s

  refused_queue :
      (items : List WireItem) (from : PeerId) (s : Server)
      → allowed s from perm_queue ≡ false
      → apply_queue_snapshot from (some items) s ≡ s
  unfolding apply_queue_snapshot apply_update snapshot
  refused_queue items from s h = given_up (allowed s from perm_queue) _ _ h

  -- A peer after its admission, with the snapshot's assignments.
  pub record Admitted (id : Text) (entries : List (Option PeerRoleAssignment))
      (items : List WireItem) (admin : PeerId) (s after : Server) : Type 0 where
    pub in_session : after.node.current_session_id ≡ id
    pub roles : role_manager after ≡ apply_entries (role_manager s) entries
    pub kept_sessions : sessions after ≡ sessions s
    pub queue_guarded :
        has (get_permissions_for_peer (apply_entries (role_manager s) entries) admin) perm_queue
          ≡ false
        → after.queue_ctrl ≡ s.queue_ctrl

  -- The invited peer takes over the session, all assignments of the snapshot, whether or not the
  -- topics are joined, and its sessions stay; the queue stays as it was if the admin may not queue by
  -- the assignments of the snapshot.
  pub process_admin_join_response-Admitted :
      (join : ℕ → Text → Bool) (id : Text) (entries : List (Option PeerRoleAssignment))
      (items : List WireItem) (admin : PeerId) (s : Server)
      → Admitted id entries items admin s
          (process_admin_join_response join id (some entries) (some items) admin s)
  unfolding process_admin_join_response join_topics apply_role_snapshot
      apply_all_assignments_snapshot
  process_admin_join_response-Admitted join id entries items admin s =
      let named = set_current_session_id id s in
      let given = apply_role_snapshot (some entries) named in
      let k = apply_queue_snapshot-Same admin (some items) given in
      record {
        in_session =
            ap
              (λ c.
                (join_session_topics join id c
                  (apply_queue_snapshot admin (some items) given).node.topics).1)
              k.session
            ∙ join_session_topics-in_place join id _;
        roles = k.roles;
        kept_sessions = k.kept_sessions;
        queue_guarded = λ h. ap (λ t. t.queue_ctrl) (refused_queue items admin given h);
      }
