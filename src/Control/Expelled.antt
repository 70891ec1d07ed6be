-- ===== src/Control/Expelled.antt =====
-- A peer that learns of an expulsion (main.go).
use p2ptogether.Prelude.{
  ℕ, ◌≡◌, refl, true, false, Bool, Option, none, some, List, [], ◌∷◌, ◌==◌, nat_eq, list_eq,
  if◌then◌else◌, Result, ok, err, subst, ==_refl, sym, ◌∙◌, ap,
}
use p2ptogether.Names.{Text, text}
use p2ptogether.Peers.{PeerId, PeerCodec, encode}
use p2ptogether.Roles.{RoleManager, normalize_names, get_assigned_roles, set_peer_roles}
use p2ptogether.Roles.Access.{get_assigned_roles-set_peer_roles}
use p2ptogether.Messages.{Expulsion, ServerMsg, peer_kicked, peer_banned, broadcast}
use p2ptogether.Topics.{default_session, join_session_topics}
use p2ptogether.Topics.Joined.{all_there, join_session_topics-Joined}
use p2ptogether.Topics.Slots.{IsSound}
use p2ptogether.Server.{Server, role_manager, send, assign_roles}
use p2ptogether.Membership.{go_default, join_topics}
use p2ptogether.Control.{own_role_assigned, handle_expulsion, control_payload, receive_control}

-- The two messages of an expulsion.
pub data IsExpulsion (e : Expulsion) : ServerMsg → Type 0 where
  kicked : IsExpulsion e (peer_kicked e)
  banned : IsExpulsion e (peer_banned e)

-- A peer after its own expulsion from the state `s`.
pub record Home (s after : Server) (norms : List Text) (succeeds : Type 0) : Type 0 where
  pub same_id : after.node.id ≡ s.node.id
  pub in_default : after.node.current_session_id ≡ default_session
  pub own_roles : (get_assigned_roles (role_manager after) s.node.id).0 ≡ norms
  pub other_roles :
      (peer : PeerId)
      → (s.node.id == peer) ≡ false
      → (get_assigned_roles (role_manager after) peer).0
        ≡ (get_assigned_roles (role_manager s) peer).0
  pub open_topics :
      succeeds → IsSound default_session after.node.topics × (all_there after.node.topics ≡ true)

module _ ⦃codec : PeerCodec⦄ (join : ℕ → Text → Bool) where
  receive_control-expulsion :
      (e : Expulsion) (msg : ServerMsg) (from : PeerId) (s : Server)
      → IsExpulsion e msg
      → (from == s.node.id) ≡ false
      → receive_control join msg from s ≡ handle_expulsion join e msg s
  unfolding receive_control control_payload
  receive_control-expulsion e _ from s kicked other = rw other refl
  receive_control-expulsion e _ from s banned other = rw other refl

  -- What `own_role_assigned` keeps.
  own_role_assigned_keeps :
      (r : Result p2ptogether.Roles.Error (Option p2ptogether.Roles.PeerRoleAssignment))
      (s : Server)
      → ((own_role_assigned join (r, s)).node ≡ s.node)
        × (role_manager (own_role_assigned join (r, s)) ≡ role_manager s)
  unfolding own_role_assigned
  own_role_assigned_keeps (ok (some a)) s = (refl, refl)
  own_role_assigned_keeps (ok none) s = (refl, refl)
  own_role_assigned_keeps (err e) s = (refl, refl)

  -- The session manager is not touched by `go_default`, and the topics are those of the join.
  go_default_keeps :
      (s : Server)
      → ((go_default join s).session_manager ≡ s.session_manager)
        × ((go_default join s).node.id ≡ s.node.id)
        × ((go_default join s).node.current_session_id ≡ default_session)
        × ((go_default join s).node.topics
            ≡ (join_session_topics join default_session s.node.current_session_id s.node.topics).2)
  unfolding go_default join_topics
  go_default_keeps s = (refl, refl, refl, refl)

  abbrev pub Rejoins : Server → Type 0
  Rejoins s =
      (join_session_topics join default_session s.node.current_session_id s.node.topics).0 ≡ none

  handle_expulsion-mine :
      (e : Expulsion) (msg : ServerMsg) (s : Server)
      → e.peer_id ≡ encode s.node.id
      → handle_expulsion join e msg s
        ≡ send (broadcast msg) (
            own_role_assigned join (assign_roles s.node.id (text "Admin" ∷ []) (go_default join s)))
  unfolding handle_expulsion
  handle_expulsion-mine e msg s mine = rw (mine, ==_refl (encode s.node.id)) refl

  -- The roles that `assign_roles` leaves, behind any message.
  assigned_roles :
      (s after : Server) (peer other : PeerId) (names : List Text) {norms : List Text}
      → normalize_names (role_manager s).definitions names ≡ ok norms
      → role_manager after ≡ role_manager (assign_roles peer names s).1
      → (get_assigned_roles (role_manager after) other).0
        ≡ (if peer == other then norms else (get_assigned_roles (role_manager s) other).0)
  assigned_roles s after peer other names e same =
      ap (λ rm. (get_assigned_roles rm other).0) same
      ∙ get_assigned_roles-set_peer_roles (role_manager s) s.session_manager.clock peer other names
          e

  -- A peer that is told by another one that it was kicked or banned is in the default session
  -- afterwards, with the role Admin for itself and every other peer's roles as before; its topics are
  -- there, named for the default session and open if joining them returned no error. The role Admin is
  -- defined, and the topics before are named for the session and open.
  pub receive_control-Home :
      (e : Expulsion) (msg : ServerMsg) (from : PeerId) (s : Server) {norms : List Text}
      → IsExpulsion e msg
      → (from == s.node.id) ≡ false
      → e.peer_id ≡ encode s.node.id
      → normalize_names (role_manager s).definitions (text "Admin" ∷ []) ≡ ok norms
      → IsSound s.node.current_session_id s.node.topics
      → Home s (receive_control join msg from s) norms (Rejoins s)
  unfolding go_default join_topics
  receive_control-Home e msg from s {norms} x other mine admin sound =
      let home = go_default join s in
      let (result, given) = assign_roles s.node.id (text "Admin" ∷ []) home in
      let (node, same) = own_role_assigned_keeps result given in
      let roles = λ (peer : PeerId).
        assigned_roles home (own_role_assigned join (result, given)) s.node.id peer
          (text "Admin" ∷ []) admin same in
      subst (λ after. Home s after norms (Rejoins s))
        (sym (receive_control-expulsion e msg from s x other ∙ handle_expulsion-mine e msg s mine))
        (record {
          same_id = ap (λ n. n.id) node;
          in_default = ap (λ n. n.current_session_id) node;
          own_roles = roles s.node.id ∙ rw (==_refl s.node.id) refl;
          other_roles = λ peer apart. roles peer ∙ rw apart refl;
          open_topics = λ success.
              let j =
                join_session_topics-Joined join default_session s.node.current_session_id
                  s.node.topics sound success in
              subst (λ t. IsSound default_session t × (all_there t ≡ true))
                (sym (ap (λ n. n.topics) node)) (j.sound, j.there);
        })
