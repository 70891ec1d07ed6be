-- ===== src/Roles/Access.antt =====
-- Permissions and assigned roles of a peer (internal/roles/role_manager.go).
use p2ptogether.Prelude.{
  ℕ, ◌≡◌, refl, bit_or, Bool, false, ◌||◌, Option, none, some, List, [], ◌∷◌, arith, any, nat_eq,
  list_eq, list_beq_iff, ◌==◌, if◌then◌else◌, inl, inr, Result-cases, ok, Option-cases, Bool-cases,
}
use p2ptogether.Prelude.Maps.{Map, lookup, lookup-insert, lookup-delete}
use p2ptogether.Hlc.{Clock, get_current_hlc}
use p2ptogether.Names.{Text, is_empty}
use p2ptogether.Permissions.{Permission, Role, has}
use p2ptogether.Permissions.Masks.{has-bit_or, has_zero}
use p2ptogether.Peers.{PeerId, PeerCodec}
use p2ptogether.Roles.{
  RoleManager, PeerAssignmentState, PeerRoleAssignment, get_assigned_roles,
  get_permissions_for_peer, effective_permissions, normalize_names, set_peer_roles, set_normalized,
  store_assignment, assigned_of, assignment_changes,
}

-- The role that a name stands for, if it is defined, passes the test.
abbrev pub passes : Option Role → Permission → Bool
passes none r = false
passes (some role) r = has role.permissions r

has-effective_permissions :
    (defs : Map Text Role) (p : Permission) (names : List Text) (r : Permission)
    → has (effective_permissions defs p names) r
      ≡ (has p r || any (λ name. passes (lookup name defs) r) names)
unfolding effective_permissions
has-effective_permissions defs p [] r = ground arith
has-effective_permissions defs p (name ∷ names) r = elim (Option-cases (lookup name defs)) [
  | inl e ↦ rw (e, effective_permissions) (has-effective_permissions defs p names r)
  | inr (role, e) ↦
      rw (e, effective_permissions)
        (ground (
          arith,
          has-effective_permissions defs (bit_or p role.permissions) names r,
          has-bit_or p role.permissions r,
        ))
]

-- A peer has a permission exactly when one of its assigned names is the key of a defined role that
-- has it.
has-get_permissions_for_peer :
    (rm : RoleManager) (peer : PeerId) (r : Permission)
    → has (get_permissions_for_peer rm peer) r
      ≡ any (λ name. passes (lookup name rm.definitions) r) (get_assigned_roles rm peer).0
unfolding get_permissions_for_peer
has-get_permissions_for_peer rm peer r = by_names (get_assigned_roles rm peer).0
  where
    by_names :
        (names : List Text)
        → has (if is_empty names then 0 else effective_permissions rm.definitions 0 names) r
          ≡ any (λ name. passes (lookup name rm.definitions) r) names
    by_names [] = has_zero r
    by_names (name ∷ names) =
        ground (arith, has_zero r, has-effective_permissions rm.definitions 0 (name ∷ names) r)

get_assigned_roles-store :
    (defs : Map Text Role) (peer other : PeerId) (names : List Text) (ts : ℕ)
    (m : Map PeerId PeerAssignmentState)
    → (get_assigned_roles
        (record { definitions = defs; assignments = store_assignment peer names ts m })
        other).0
      ≡ (if peer == other
          then names
          else (get_assigned_roles (record { definitions = defs; assignments = m }) other).0)
unfolding get_assigned_roles store_assignment
get_assigned_roles-store defs peer other [] ts m = ground (arith, lookup-delete peer other m)
get_assigned_roles-store defs peer other (name ∷ names) ts m =
    let state : PeerAssignmentState = record { role_names = name ∷ names; hlc_ts = ts } in
    ground (arith, lookup-insert peer other state m)

assigned_unchanged :
    (o : Option PeerAssignmentState) (names : List Text)
    → assignment_changes o names ≡ false
    → (assigned_of o).0 ≡ names
unfolding assignment_changes assigned_of
assigned_unchanged none names h = cc
assigned_unchanged (some state) names h = ground (arith, list_beq_iff state.role_names names)

module _ ⦃codec : PeerCodec⦄ where
  get_assigned_roles-set_normalized :
      (rm : RoleManager) (clock : Clock) (target other : PeerId) (names : List Text)
      → (get_assigned_roles (set_normalized rm clock target names).1 other).0
        ≡ (if target == other then names else (get_assigned_roles rm other).0)
  unfolding set_normalized
  get_assigned_roles-set_normalized rm clock target other names =
      elim (Bool-cases (assignment_changes (lookup target rm.assignments) names)) [
        | inl c ↦
            let ts = (get_current_hlc clock).0 in
            rw (c, set_normalized)
              (get_assigned_roles-store rm.definitions target other names ts rm.assignments)
        | inr c ↦ rw (c, set_normalized) (same_roles c)
      ]
    where
      same_roles :
          assignment_changes (lookup target rm.assignments) names ≡ false
          → (get_assigned_roles rm other).0
            ≡ (if target == other then names else (get_assigned_roles rm other).0)
      same_roles c =
          unfold get_assigned_roles in
          ground (arith, assigned_unchanged (lookup target rm.assignments) names c)

  set_normalized-ok :
      (rm : RoleManager) (clock : Clock) (target : PeerId) (names : List Text)
      → (message : Option PeerRoleAssignment) × ((set_normalized rm clock target names).0
          ≡ ok message)
  unfolding set_normalized
  set_normalized-ok rm clock target names =
      elim (Result-cases (set_normalized rm clock target names).0) [
        | inl accepted ↦ accepted
        | inr (_, refused) ↦ absurd (ground arith)
      ]

  -- Valid names are accepted.
  pub set_peer_roles-ok :
      (rm : RoleManager) (clock : Clock) (target : PeerId) (names : List Text) {norms : List Text}
      → normalize_names rm.definitions names ≡ ok norms
      → (message : Option PeerRoleAssignment) × ((set_peer_roles rm clock target names).0
          ≡ ok message)
  unfolding set_peer_roles
  set_peer_roles-ok rm clock target names {norms} e =
      rw (e, set_peer_roles) (set_normalized-ok rm clock target norms)

  definitions-set_normalized :
      (rm : RoleManager) (clock : Clock) (target : PeerId) (names : List Text)
      → (set_normalized rm clock target names).1.definitions ≡ rm.definitions
  unfolding set_normalized
  definitions-set_normalized rm clock target names = ground arith

  pub definitions-set_peer_roles :
      (rm : RoleManager) (clock : Clock) (target : PeerId) (names : List Text)
      → (set_peer_roles rm clock target names).1.definitions ≡ rm.definitions
  unfolding set_peer_roles
  definitions-set_peer_roles rm clock target names =
      elim (Result-cases (normalize_names rm.definitions names)) [
        | inl (norms, e) ↦ rw (e, set_peer_roles) (definitions-set_normalized rm clock target norms)
        | inr (_, e) ↦ rw (e, set_peer_roles) refl
      ]

  -- If the names are valid, the target then has exactly the normalised names, whether or not a
  -- message is made, and every other peer has the roles it had.
  pub get_assigned_roles-set_peer_roles :
      (rm : RoleManager) (clock : Clock) (target other : PeerId) (names : List Text)
      {norms : List Text}
      → normalize_names rm.definitions names ≡ ok norms
      → (get_assigned_roles (set_peer_roles rm clock target names).1 other).0
        ≡ (if target == other then norms else (get_assigned_roles rm other).0)
  unfolding set_peer_roles
  get_assigned_roles-set_peer_roles rm clock target other names {norms} e =
      rw (e, set_peer_roles) (get_assigned_roles-set_normalized rm clock target other norms)
