-- ===== src/Roles/Updates.antt =====
-- peer_service/internal/roles/role_manager.go: changes of definitions, and the updates that come
-- from other peers.
use p2ptogether.Prelude.{
  ℕ, ◌%◌, ◌^◌, Bool, true, false, not, Option, none, some, List, [], ◌∷◌, map, ltb, ◌==◌, nat_eq,
  list_eq, if◌then◌else◌, filter, contains, Result, ok, err, ◌>>=◌,
}
use p2ptogether.Prelude.Maps.{Map, lookup, insert, delete, has_key}
use p2ptogether.Hlc.{Clock, get_current_hlc}
use p2ptogether.Names.{Text, to_lower, normalize, is_empty}
use p2ptogether.Permissions.{Permission, Role}
use p2ptogether.Peers.{PeerId, PeerCodec, encode, decode}
use p2ptogether.Roles.{
  RoleManager, PeerAssignmentState, PeerRoleAssignment, RoleDefinition, Error, not_defined,
  empty_name, nil_message, normalize_names, store_assignment,
}

-- `strings.Split(roleStr, ",")`: at least one part.
split_on : ℕ → Text → Text × List Text
split_on sep [] = ([], [])
split_on sep (c ∷ s) =
    let (part, parts) = split_on sep s in if c == sep then ([], part ∷ parts) else (c ∷ part, parts)

parse_names : Map Text Role → List Text → Result Error (List Role)
parse_names defs [] = ok []
parse_names defs (raw ∷ raws) =
    let name = normalize raw in
    let rest = parse_names defs raws in
    if is_empty name then rest else elim (lookup name defs) [
      | none ↦ err (not_defined raw)
      | some role ↦ rest >>= λ roles. ok (role ∷ roles)
    ]

unfoldable pub parse_role_names : RoleManager → Text → Result Error (List Role)
unfolding split_on parse_names
parse_role_names rm role_str =
    let (part, parts) = split_on b',' role_str in parse_names rm.definitions (part ∷ parts)

-- The `Definitions` of a `RoleDefinitionsUpdate`; the conversion to `uint32` wraps.
unfoldable pub definitions_message : Map Text Role → List RoleDefinition
definitions_message defs =
    map (λ entry. record { name = entry.1.name; permissions = entry.1.permissions % 2 ^ 32 }) defs

unfoldable pub update_definition :
    RoleManager → Text → Permission → Result Error (List RoleDefinition) × RoleManager
unfolding definitions_message
update_definition rm name permissions =
    let key = normalize name in
    let role : Role = record { name = name; permissions = permissions } in
    let defs = insert key role rm.definitions in
    if is_empty key
    then (err empty_name, rm)
    else (ok (definitions_message defs), record rm { definitions = defs })

abbrev pub without : Text → List Text → List Text
without role names = filter (λ name. not (name == role)) names

abbrev Stripped : Type 0
Stripped = Map PeerId PeerAssignmentState × List PeerRoleAssignment × Clock

-- `newNames` replaces the entry, or deletes it if no name is left.
keep_stripped :
    PeerId → List Text → ℕ → Map PeerId PeerAssignmentState → Map PeerId PeerAssignmentState
keep_stripped peer names ts rest =
    if is_empty names then rest else (peer, record { role_names = names; hlc_ts = ts }) ∷ rest

module _ ⦃codec : PeerCodec⦄ where
  -- The loop over the assignments; each peer that loses the role gets a stamp of its own.
  unfoldable pub strip_role : Text → Map PeerId PeerAssignmentState → Clock → Stripped
  unfolding keep_stripped
  strip_role role [] clock = ([], [], clock)
  strip_role role ((peer, state) ∷ entries) clock =
      let removed = contains role state.role_names in
      let (ts, later) = get_current_hlc clock in
      let names = without role state.role_names in
      let (rest, messages, clock') = strip_role role entries (if removed then later else clock) in
      if removed
      then (
        keep_stripped peer names ts rest,
        record { peer_id = encode peer; assigned_role_names = names; hlc_ts = ts } ∷ messages,
        clock',
      )
      else ((peer, state) ∷ rest, messages, clock')

  unfoldable pub remove_definition :
      RoleManager
      → Clock
      → Text
      → Result Error (List RoleDefinition × List PeerRoleAssignment) × RoleManager × Clock
  unfolding strip_role definitions_message
  remove_definition rm clock role_name =
      let key = normalize role_name in
      let defs = delete key rm.definitions in
      let (assignments', messages, clock') = strip_role key rm.assignments clock in
      if not (has_key key rm.definitions) then (err (not_defined role_name), rm, clock) else (
        ok (definitions_message defs, messages),
        record { definitions = defs; assignments = assignments' },
        clock',
      )

-- A received definition: `none` for a nil entry. The key is lowered and not trimmed.
define_received : Map Text Role → List (Option RoleDefinition) → Map Text Role
define_received defs [] = defs
define_received defs (none ∷ entries) = define_received defs entries
define_received defs (some d ∷ entries) =
    let role : Role = record { name = d.name; permissions = d.permissions } in
    define_received (if is_empty d.name then defs else insert (to_lower d.name) role defs) entries

unfoldable pub apply_definitions_update :
    RoleManager → Option (List (Option RoleDefinition)) → Result Error (Unit {0}) × RoleManager
unfolding define_received
apply_definitions_update rm none = (err nil_message, rm)
apply_definitions_update rm (some entries) =
    (ok tt, record rm { definitions = define_received [] entries })

-- Newer than what is stored, or nothing is stored.
unfoldable pub is_newer : ℕ → Option PeerAssignmentState → Bool
is_newer ts none = true
is_newer ts (some state) = ltb state.hlc_ts ts

unfoldable pub apply_peer_assignment :
    RoleManager → PeerId → List Text → ℕ → Result Error Bool × RoleManager
unfolding is_newer store_assignment
apply_peer_assignment rm peer role_names ts = elim (normalize_names rm.definitions role_names) [
  | err e ↦ (err e, rm)
  | ok names ↦
      if is_newer ts (lookup peer rm.assignments)
      then (ok true, record rm { assignments = store_assignment peer names ts rm.assignments })
      else (ok false, rm)
]

module _ ⦃codec : PeerCodec⦄ where
  unfoldable pub apply_decoded : RoleManager → Option PeerId → PeerRoleAssignment → RoleManager
  apply_decoded rm none a = rm
  apply_decoded rm (some peer) a = (apply_peer_assignment rm peer a.assigned_role_names a.hlc_ts).1

  unfoldable pub apply_entries : RoleManager → List (Option PeerRoleAssignment) → RoleManager
  unfolding apply_decoded
  apply_entries rm [] = rm
  apply_entries rm (none ∷ entries) = apply_entries rm entries
  apply_entries rm (some a ∷ entries) =
      apply_entries (apply_decoded rm (decode a.peer_id) a) entries

  -- Errors of single entries are dropped.
  unfoldable pub apply_all_assignments_snapshot :
      RoleManager
      → Option (List (Option PeerRoleAssignment))
      → Result Error (Unit {0}) × RoleManager
  unfolding apply_entries
  apply_all_assignments_snapshot rm none = (err nil_message, rm)
  apply_all_assignments_snapshot rm (some entries) = (ok tt, apply_entries rm entries)
