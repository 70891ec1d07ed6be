-- ===== src/Roles/Canonical.antt =====
-- The stored assignments of a role manager: one entry for each peer, and names that normalising
-- leaves as they are (internal/roles/role_manager.go).
use p2ptogether.Prelude.{
  ℕ, false, ◌≡◌, refl, Option, none, some, List, [], ◌∷◌, arith, list_eq, nat_eq, All, Returned,
  Result-cases, ok, subst, Option-cases, inl, inr,
}
use p2ptogether.Prelude.Maps.{
  Map, lookup, Unique, AllValues, insert-AllValues, delete-AllValues, insert-Unique, delete-Unique,
}
use p2ptogether.Hlc.{Clock, get_current_hlc}
use p2ptogether.Names.{Text, normalize, is_empty}
use p2ptogether.Names.Laws.{normalize-normalize}
use p2ptogether.Permissions.{Permission, Role}
use p2ptogether.Peers.{PeerId, PeerCodec, decode}
use p2ptogether.Roles.{
  RoleManager, PeerRoleAssignment, PeerAssignmentState, normalize_names, set_peer_roles,
  set_normalized, store_assignment,
}
use p2ptogether.Roles.Updates.{
  update_definition, remove_definition, strip_role, without, apply_peer_assignment, apply_entries,
}

abbrev pub Normal : List Text → Type 0
Normal names = All (λ name. (normalize name ≡ name) × (is_empty name ≡ false)) names

abbrev pub NormalState : PeerAssignmentState → Type 0
NormalState state = Normal state.role_names

pub record Canonical (assignments : Map PeerId PeerAssignmentState) : Type 0 where
  pub unique : Unique assignments
  pub normal : AllValues NormalState assignments

normalize_names-Normal :
    (defs : Map Text Role) (names : List Text) → Returned Normal (normalize_names defs names)
unfolding normalize_names
normalize_names-Normal defs [] = tt
normalize_names-Normal defs (name ∷ names) =
    ground (arith, normalize_names-Normal defs names, normalize-normalize name)

fixed_names :
    (defs : Map Text Role) (names : List Text) {norms : List Text}
    → normalize_names defs names ≡ ok norms
    → Normal norms
fixed_names defs names {norms} e = subst (Returned Normal) e (normalize_names-Normal defs names)

store_assignment-Canonical :
    (peer : PeerId) (names : List Text) (ts : ℕ) (m : Map PeerId PeerAssignmentState)
    → Normal names
    → Canonical m
    → Canonical (store_assignment peer names ts m)
unfolding store_assignment
store_assignment-Canonical peer [] ts m d h = record {
  unique = delete-Unique peer m h.unique;
  normal = delete-AllValues NormalState peer m h.normal;
}
store_assignment-Canonical peer (name ∷ names) ts m d h = record {
  unique = insert-Unique peer _ m h.unique;
  normal = insert-AllValues NormalState peer _ m d h.normal;
}

without-Normal : (role : Text) (names : List Text) → Normal names → Normal (without role names)
without-Normal role [] d = tt
without-Normal role (name ∷ names) d = ground (arith, without-Normal role names d.1)

module _ ⦃codec : PeerCodec⦄ where
  lookup-strip_role :
      (peer : PeerId) (role : Text) (m : Map PeerId PeerAssignmentState) (clock : Clock)
      → lookup peer m ≡ none
      → lookup peer (strip_role role m clock).0 ≡ none
  unfolding strip_role lookup
  lookup-strip_role peer role [] clock h = refl
  lookup-strip_role peer role ((other, state) ∷ m) clock h =
      let later = (get_current_hlc clock).1 in
      ground (arith, lookup-strip_role peer role m later, lookup-strip_role peer role m clock)

  strip_role-Unique :
      (role : Text) (m : Map PeerId PeerAssignmentState) (clock : Clock)
      → Unique m
      → Unique (strip_role role m clock).0
  unfolding strip_role
  strip_role-Unique role [] clock h = tt
  strip_role-Unique role ((peer, state) ∷ m) clock h =
      let later = (get_current_hlc clock).1 in
      ground (
        arith,
        strip_role-Unique role m later h.1,
        strip_role-Unique role m clock h.1,
        lookup-strip_role peer role m later h.0,
        lookup-strip_role peer role m clock h.0,
      )

  strip_role-Normal :
      (role : Text) (m : Map PeerId PeerAssignmentState) (clock : Clock)
      → AllValues NormalState m
      → AllValues NormalState (strip_role role m clock).0
  unfolding strip_role
  strip_role-Normal role [] clock h = tt
  strip_role-Normal role ((peer, state) ∷ m) clock h =
      let later = (get_current_hlc clock).1 in
      ground (
        arith,
        strip_role-Normal role m later h.1,
        strip_role-Normal role m clock h.1,
        without-Normal role state.role_names h.0,
      )

  pub set_peer_roles-Canonical :
      (rm : RoleManager) (clock : Clock) (target : PeerId) (names : List Text)
      → Canonical rm.assignments
      → Canonical (set_peer_roles rm clock target names).1.assignments
  unfolding set_peer_roles set_normalized
  set_peer_roles-Canonical rm clock target names v =
      elim (Result-cases (normalize_names rm.definitions names)) [
        | inl (norms, e) ↦
            let ts = (get_current_hlc clock).0 in
            rw (e, set_peer_roles)
              (ground (
                arith,
                store_assignment-Canonical target norms ts rm.assignments
                    (fixed_names rm.definitions names e) v,
              ))
        | inr (_, e) ↦ rw (e, set_peer_roles) v
      ]

  pub remove_definition-Canonical :
      (rm : RoleManager) (clock : Clock) (name : Text)
      → Canonical rm.assignments
      → Canonical (remove_definition rm clock name).1.assignments
  unfolding remove_definition
  remove_definition-Canonical rm clock name v =
      let stripped : Canonical (strip_role (normalize name) rm.assignments clock).0 = record {
        unique = strip_role-Unique (normalize name) rm.assignments clock v.unique;
        normal = strip_role-Normal (normalize name) rm.assignments clock v.normal;
      } in
      ground arith

pub update_definition-Canonical :
    (rm : RoleManager) (name : Text) (p : Permission)
    → Canonical rm.assignments
    → Canonical (update_definition rm name p).1.assignments
unfolding update_definition
update_definition-Canonical rm name p v = ground arith

pub apply_peer_assignment-Canonical :
    (rm : RoleManager) (peer : PeerId) (names : List Text) (ts : ℕ)
    → Canonical rm.assignments
    → Canonical (apply_peer_assignment rm peer names ts).1.assignments
unfolding apply_peer_assignment
apply_peer_assignment-Canonical rm peer names ts v =
    elim (Result-cases (normalize_names rm.definitions names)) [
      | inl (norms, e) ↦
          let stored =
            store_assignment-Canonical peer norms ts rm.assignments
              (fixed_names rm.definitions names e) v in
          rw (e, apply_peer_assignment) (ground arith)
      | inr (_, e) ↦ rw (e, apply_peer_assignment) v
    ]

module _ ⦃codec : PeerCodec⦄ where
  pub apply_entries-Canonical :
      (rm : RoleManager) (entries : List (Option PeerRoleAssignment))
      → Canonical rm.assignments
      → Canonical (apply_entries rm entries).assignments
  unfolding apply_entries
  apply_entries-Canonical rm [] v = v
  apply_entries-Canonical rm (none ∷ entries) v = apply_entries-Canonical rm entries v
  apply_entries-Canonical rm (some a ∷ entries) v = elim (Option-cases (decode a.peer_id)) [
    | inl e ↦ rw (e, apply_entries) (apply_entries-Canonical rm entries v)
    | inr (peer, e) ↦
        rw (e, apply_entries)
          (apply_entries-Canonical (apply_peer_assignment rm peer a.assigned_role_names a.hlc_ts).1
            entries (apply_peer_assignment-Canonical rm peer a.assigned_role_names a.hlc_ts v))
  ]
