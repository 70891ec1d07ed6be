-- ===== src/Sessions.antt =====
-- peer_service/internal/session/session.go and session_manager.go: the sessions of a peer, their
-- members and the peers banned from them.
--
-- A session is stored by pointer and changed in place; here it is written back under its ID. The
-- UUID of a new session is an argument, since uuid is not part of the repository.
pub mod Bans
pub mod Removals
pub mod Members
use p2ptogether.Prelude.{
  ℕ, Bool, true, false, Option, none, some, List, [], ◌∷◌, map, nat_eq, list_eq, if◌then◌else◌,
  is_some, Result, ok, err,
}
use p2ptogether.Prelude.Maps.{Map, lookup, insert, delete, has_key}
use p2ptogether.Hlc.{Clock}
use p2ptogether.Names.{Text, text}
use p2ptogether.Peers.{PeerId, PeerCodec}
use p2ptogether.Roles.{RoleManager, set_peer_roles}

pub record UserInfo : Type 0 where
  pub username : Text
  pub roles : List Text
  pub peer_id : PeerId

pub record BanInfo : Type 0 where
  pub peer_id : PeerId
  pub username : Text
  pub banned_by : PeerId
  pub reason : Text
  pub banned_at : ℕ

pub record Session : Type 0 where
  pub id : Text
  pub admin_peer_id : PeerId
  pub name : Text
  pub is_private : Bool
  pub invite_code : Text
  pub members : Map PeerId UserInfo
  pub banned : Map PeerId BanInfo

abbrev pub Sessions : Type 0
Sessions = Map Text Session

-- With the role manager that it points to, never nil in the service, and the peer's clock.
pub record SessionManager : Type 0 where
  pub sessions : Sessions
  pub role_manager : RoleManager
  pub clock : Clock

pub data Error : Type 0 where
  id_collision : Text → Error
  session_not_found : Text → Error

-- `UserInfo{}` and `BanInfo{}`.
abbrev pub no_user : UserInfo
no_user = record { username = []; roles = []; peer_id = 0 }

abbrev pub no_ban : BanInfo
no_ban = record { peer_id = 0; username = []; banned_by = 0; reason = []; banned_at = 0 }

unfoldable pub get_session : Sessions → Text → Option Session
get_session sessions id = lookup id sessions

new_session : Text → PeerId → Text → Text → Session
new_session id admin admin_username name = record {
  id = id;
  admin_peer_id = admin;
  name = name;
  is_private = false;
  invite_code = id;
  members =
      (admin, record { username = admin_username; roles = text "Admin" ∷ []; peer_id = admin })
      ∷ [];
  banned = [];
}

initial_roles : List Text → List Text
initial_roles [] = text "Viewer" ∷ []
initial_roles (role ∷ roles) = role ∷ roles

module _ ⦃codec : PeerCodec⦄ where
  -- An error of `SetPeerRoles` is logged and dropped.
  give_roles : SessionManager → PeerId → List Text → SessionManager
  give_roles sm peer roles =
      let (_, rm, clock') = set_peer_roles sm.role_manager sm.clock peer roles in
      record sm { role_manager = rm; clock = clock' }

  unfoldable pub create_session :
      SessionManager → Text → PeerId → Text → Text → Result Error Session × SessionManager
  unfolding new_session give_roles
  create_session sm id admin admin_username name =
      let session = new_session id admin admin_username name in
      let stored : SessionManager = record sm { sessions = insert id session sm.sessions } in
      if has_key id sm.sessions
      then (err (id_collision id), sm)
      else (ok session, give_roles stored admin (text "Admin" ∷ []))

  add_member :
      SessionManager
      → Text
      → Session
      → PeerId
      → Text
      → List Text
      → Option UserInfo
      → Result Error (Session × UserInfo) × SessionManager
  unfolding initial_roles give_roles
  add_member sm id session peer username roles (some known) = (ok (session, known), sm)
  add_member sm id session peer username roles none =
      let roles' = initial_roles roles in
      let info : UserInfo = record { username = username; roles = roles'; peer_id = peer } in
      let joined : Session = record session { members = insert peer info session.members } in
      let stored : SessionManager = record sm { sessions = insert id joined sm.sessions } in
      (ok (joined, info), give_roles stored peer roles')

  unfoldable pub add_peer_to_session :
      SessionManager
      → Text
      → PeerId
      → Text
      → List Text
      → Result Error (Session × UserInfo) × SessionManager
  unfolding add_member
  add_peer_to_session sm id peer username roles = elim (lookup id sm.sessions) [
    | none ↦ (err (session_not_found id), sm)
    | some session ↦ add_member sm id session peer username roles (lookup peer session.members)
  ]

remove_member : Sessions → Text → PeerId → Session → Option UserInfo → (UserInfo × Bool) × Sessions
remove_member sessions id peer session none = ((no_user, false), sessions)
remove_member sessions id peer session (some info) =
    ((info, true), insert id (record session { members = delete peer session.members }) sessions)

unfoldable pub remove_peer_from_session :
    Sessions → Text → PeerId → Result Error (UserInfo × Bool) × Sessions
unfolding remove_member
remove_peer_from_session sessions id peer = elim (lookup id sessions) [
  | none ↦ (err (session_not_found id), sessions)
  | some session ↦
      let (found, sessions') =
        remove_member sessions id peer session (lookup peer session.members) in
      (ok found, sessions')
]

ban_status : Option BanInfo → Bool × BanInfo
ban_status none = (false, no_ban)
ban_status (some ban) = (true, ban)

ban_in : Option Session → PeerId → Bool × BanInfo
unfolding ban_status
ban_in none peer = (false, no_ban)
ban_in (some session) peer = ban_status (lookup peer session.banned)

unfoldable pub is_peer_banned : Sessions → Text → PeerId → Bool × BanInfo
unfolding ban_in
is_peer_banned sessions id peer = ban_in (lookup id sessions) peer

username_of : Option UserInfo → Text
username_of none = []
username_of (some info) = info.username

with_ban : Session → PeerId → PeerId → Text → ℕ → BanInfo × Session
unfolding username_of
with_ban session peer banned_by reason banned_at =
    let known = lookup peer session.members in
    let ban : BanInfo = record {
      peer_id = peer;
      username = username_of known;
      banned_by = banned_by;
      reason = reason;
      banned_at = banned_at;
    } in
    (
      ban,
      record session {
        members = if is_some known then delete peer session.members else session.members;
        banned = insert peer ban session.banned;
      },
    )

unfoldable pub ban_peer :
    Sessions → Text → PeerId → PeerId → Text → ℕ → Result Error BanInfo × Sessions
unfolding with_ban
ban_peer sessions id peer banned_by reason banned_at = elim (lookup id sessions) [
  | none ↦ (err (session_not_found id), sessions)
  | some session ↦
      let (ban, session') = with_ban session peer banned_by reason banned_at in
      (ok ban, insert id session' sessions)
]

member_in : Option Session → PeerId → Bool
member_in none peer = false
member_in (some session) peer = has_key peer session.members

unfoldable pub is_peer_in_session : Sessions → Text → PeerId → Bool
unfolding member_in
is_peer_in_session sessions id peer = member_in (lookup id sessions) peer

unfoldable pub get_session_members : Sessions → Text → Result Error (List UserInfo)
get_session_members sessions id = elim (lookup id sessions) [
  | none ↦ err (session_not_found id)
  | some session ↦ ok (map (λ entry. entry.1) session.members)
]
