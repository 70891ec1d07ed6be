-- ===== src/Roles.antt =====
-- peer_service/internal/roles/role_manager.go: role definitions and assignments of a peer.
--
-- A definition is kept under its normalised name. Locks are left out: each operation is one step.
-- `common.GetCurrentHLC` takes and returns the peer's clock. A nil message is `none`, and the
-- stored `*Role` is a value, since no stored role is changed in place.
pub mod Updates
pub mod Invariant
pub mod Canonical
pub mod Transfer
pub mod History
pub mod Access
pub mod Convergence
use p2ptogether.Prelude.{
  ℕ, bit_or, Bool, true, not, ◌||◌, Option, none, some, List, [], ◌∷◌, map, ◌==◌, nat_eq, list_eq,
  if◌then◌else◌, Result, ok, err, ◌>>=◌,
}
use p2ptogether.Prelude.Maps.{Map, lookup, insert, delete, has_key}
use p2ptogether.Hlc.{Clock, get_current_hlc}
use p2ptogether.Names.{Text, text, to_lower, normalize, is_empty}
use p2ptogether.Permissions.{
  Permission, Role, perm_all, perm_kick_user, perm_ban_user, perm_moderate_chat,
  perm_add_remove_roles, perm_manage_user_roles, perm_invite, perm_stream, perm_play_pause,
  perm_seek, perm_set_speed, perm_queue, perm_view, perm_chat,
}
use p2ptogether.Peers.{PeerId, PeerCodec, encode}

-- The stored state of a peer's assignment.
pub record PeerAssignmentState : Type 0 where
  pub role_names : List Text
  pub hlc_ts : ℕ

pub record RoleManager : Type 0 where
  pub definitions : Map Text Role
  pub assignments : Map PeerId PeerAssignmentState

-- The messages of proto/p2p/role.proto.
pub record PeerRoleAssignment : Type 0 where
  pub peer_id : Text
  pub assigned_role_names : List Text
  pub hlc_ts : ℕ

pub record RoleDefinition : Type 0 where
  pub name : Text
  pub permissions : ℕ

pub data Error : Type 0 where
  not_defined : Text → Error
  empty_name : Error
  nil_message : Error

abbrev pub union : List Permission → Permission
union [] = 0
union (p ∷ ps) = bit_or p (union ps)

abbrev pub admin_role : Role
admin_role = record { name = text "Admin"; permissions = perm_all }

abbrev pub moderator_role : Role
moderator_role = record {
  name = text "Moderator";
  permissions = union (
      perm_kick_user ∷ perm_ban_user ∷ perm_moderate_chat ∷ perm_add_remove_roles
      ∷ perm_manage_user_roles ∷ perm_invite ∷ []);
}

abbrev pub streamer_role : Role
streamer_role = record {
  name = text "Streamer";
  permissions =
      union (perm_stream ∷ perm_play_pause ∷ perm_seek ∷ perm_set_speed ∷ perm_queue ∷ []);
}

abbrev pub viewer_role : Role
viewer_role = record { name = text "Viewer"; permissions = union (perm_view ∷ perm_chat ∷ []) }

abbrev pub default_role_definitions : List Role
default_role_definitions = admin_role ∷ moderator_role ∷ streamer_role ∷ viewer_role ∷ []

define_defaults : Map Text Role → List Role → Map Text Role
define_defaults defs [] = defs
define_defaults defs (role ∷ roles) = define_defaults (insert (to_lower role.name) role defs) roles

unfoldable pub new_role_manager : RoleManager
unfolding define_defaults insert to_lower
new_role_manager = record {
  definitions = define_defaults [] default_role_definitions;
  assignments = [];
}

unfoldable pub get_definitions : RoleManager → List Role
get_definitions rm = map (λ entry. entry.1) rm.definitions

unfoldable pub get_definition : RoleManager → Text → Option Role
get_definition rm role_name = lookup (to_lower role_name) rm.definitions

unfoldable pub assigned_of : Option PeerAssignmentState → List Text × ℕ
assigned_of none = ([], 0)
assigned_of (some state) = (state.role_names, state.hlc_ts)

unfoldable pub get_assigned_roles : RoleManager → PeerId → List Text × ℕ
unfolding assigned_of
get_assigned_roles rm peer = assigned_of (lookup peer rm.assignments)

grant : Option Role → Permission → Permission
grant none p = p
grant (some role) p = bit_or p role.permissions

effective_permissions : Map Text Role → Permission → List Text → Permission
unfolding grant
effective_permissions defs p [] = p
effective_permissions defs p (name ∷ names) =
    effective_permissions defs (grant (lookup name defs) p) names

unfoldable pub get_permissions_for_peer : RoleManager → PeerId → Permission
unfolding effective_permissions get_assigned_roles
get_permissions_for_peer rm peer =
    let names = (get_assigned_roles rm peer).0 in
    if is_empty names then 0 else effective_permissions rm.definitions 0 names

-- The loop that validates and normalises the names of an assignment.
unfoldable pub normalize_names : Map Text Role → List Text → Result Error (List Text)
normalize_names defs [] = ok []
normalize_names defs (name ∷ names) =
    let norm = normalize name in
    let rest = normalize_names defs names in
    if not (has_key norm defs)
    then err (not_defined name)
    else rest >>= λ norms. ok (if is_empty norm then norms else norm ∷ norms)

store_assignment :
    PeerId → List Text → ℕ → Map PeerId PeerAssignmentState → Map PeerId PeerAssignmentState
store_assignment peer names ts assignments =
    if is_empty names
    then delete peer assignments
    else insert peer (record { role_names = names; hlc_ts = ts }) assignments

-- `!exists || !slicesEqual(currentState.roleNames, normalizedNames)`
assignment_changes : Option PeerAssignmentState → List Text → Bool
assignment_changes none names = true
assignment_changes (some state) names = not (state.role_names == names)

module _ ⦃codec : PeerCodec⦄ where
  set_normalized :
      RoleManager
      → Clock
      → PeerId
      → List Text
      → Result Error (Option PeerRoleAssignment) × RoleManager × Clock
  unfolding assignment_changes store_assignment
  set_normalized rm clock target names =
      if assignment_changes (lookup target rm.assignments) names
      then (let (ts, clock') = get_current_hlc clock in
          (
            ok (
                some
                  (record { peer_id = encode target; assigned_role_names = names; hlc_ts = ts })),
            record rm { assignments = store_assignment target names ts rm.assignments },
            clock',
          ))
      else (ok none, rm, clock)

  -- A message only if the assignment changed.
  unfoldable pub set_peer_roles :
      RoleManager
      → Clock
      → PeerId
      → List Text
      → Result Error (Option PeerRoleAssignment) × RoleManager × Clock
  unfolding set_normalized
  set_peer_roles rm clock target role_names = elim (normalize_names rm.definitions role_names) [
    | err e ↦ (err e, rm, clock)
    | ok names ↦ set_normalized rm clock target names
  ]

  unfoldable pub get_all_assignments : RoleManager → List PeerRoleAssignment
  get_all_assignments rm =
      map
        (λ entry. record {
          peer_id = encode entry.0;
          assigned_role_names = entry.1.role_names;
          hlc_ts = entry.1.hlc_ts;
        })
        rm.assignments
