-- ===== src/Roles/Invariant.antt =====
-- The invariant of the role manager (internal/roles/role_manager.go).
use p2ptogether.Prelude.{
  ℕ, true, false, ◌≡◌, refl, Option, none, some, List, [], ◌∷◌, arith, ◌==◌, list_eq, nat_eq,
  contains, All, Returned, Result-cases, ok, subst, Bool-cases, Option-cases, list_beq_iff, inl,
  inr,
}
use p2ptogether.Prelude.Maps.{
  Map, insert, delete, has_key, lookup-insert, lookup-delete, AllValues, AllValues-mono,
  insert-AllValues, delete-AllValues,
}
use p2ptogether.Hlc.{Clock, get_current_hlc}
use p2ptogether.Names.{Text, normalize, is_empty}
use p2ptogether.Permissions.{Permission, Role}
use p2ptogether.Peers.{PeerId, PeerCodec, decode}
use p2ptogether.Roles.{
  RoleManager, PeerRoleAssignment, PeerAssignmentState, normalize_names, set_peer_roles,
  set_normalized, store_assignment,
}
use p2ptogether.Roles.Updates.{
  update_definition, remove_definition, strip_role, without, apply_peer_assignment, apply_entries,
}

abbrev pub AllDefined : Map Text Role → List Text → Type 0
AllDefined defs names = All (λ name. has_key name defs ≡ true) names

abbrev pub Sound : Map Text Role → PeerAssignmentState → Type 0
Sound defs state = (is_empty state.role_names ≡ false) × AllDefined defs state.role_names

pub record IsValid (rm : RoleManager) : Type 0 where
  pub sound : AllValues (Sound rm.definitions) rm.assignments

normalize_names-AllDefined :
    (defs : Map Text Role) (names : List Text)
    → Returned (AllDefined defs) (normalize_names defs names)
unfolding normalize_names
normalize_names-AllDefined defs [] = tt
normalize_names-AllDefined defs (name ∷ names) =
    ground (arith, normalize_names-AllDefined defs names)

names_defined :
    (defs : Map Text Role) (names : List Text) {norms : List Text}
    → normalize_names defs names ≡ ok norms
    → AllDefined defs norms
names_defined defs names {norms} e =
    subst (Returned (AllDefined defs)) e (normalize_names-AllDefined defs names)

-- Storing defined names keeps the assignments sound; an empty list deletes the entry.
store_assignment-Sound :
    (defs : Map Text Role) (peer : PeerId) (names : List Text) (ts : ℕ)
    (m : Map PeerId PeerAssignmentState)
    → AllDefined defs names
    → AllValues (Sound defs) m
    → AllValues (Sound defs) (store_assignment peer names ts m)
unfolding store_assignment
store_assignment-Sound defs peer [] ts m d h = delete-AllValues (Sound defs) peer m h
store_assignment-Sound defs peer (name ∷ names) ts m d h =
    insert-AllValues (Sound defs) peer _ m (refl, d) h

AllDefined-insert :
    (key : Text) (role : Role) (defs : Map Text Role) (names : List Text)
    → AllDefined defs names
    → AllDefined (insert key role defs) names
AllDefined-insert key role defs [] d = tt
AllDefined-insert key role defs (name ∷ names) d =
    (ground (arith, lookup-insert key name role defs), AllDefined-insert key role defs names d.1)

-- A name other than the deleted key stays defined.
AllDefined-delete :
    (key : Text) (defs : Map Text Role) (names : List Text)
    → AllDefined defs names
    → AllDefined (delete key defs) (without key names)
AllDefined-delete key defs [] d = tt
AllDefined-delete key defs (name ∷ names) d = elim (Bool-cases (name == key)) [
  | inl same ↦ rw same (AllDefined-delete key defs names d.1)
  | inr other ↦ rw other (
    ground (arith, lookup-delete key name defs, list_beq_iff key name, list_beq_iff name key),
    AllDefined-delete key defs names d.1,
  )
]

-- Names without the deleted role are as they were.
without-eq_of_absent :
    (key : Text) (names : List Text) → contains key names ≡ false → without key names ≡ names
without-eq_of_absent key [] h = refl
without-eq_of_absent key (name ∷ names) h = ground (arith, without-eq_of_absent key names)

module _ ⦃codec : PeerCodec⦄ where
  strip_role-Sound :
      (key : Text) (defs : Map Text Role) (m : Map PeerId PeerAssignmentState) (clock : Clock)
      → AllValues (Sound defs) m
      → AllValues (Sound (delete key defs)) (strip_role key m clock).0
  unfolding strip_role
  strip_role-Sound key defs [] clock h = tt
  strip_role-Sound key defs ((peer, state) ∷ m) clock h =
      let later = (get_current_hlc clock).1 in
      elim (Bool-cases (contains key state.role_names)) [
        | inl removed ↦ ground (
          arith,
          strip_role-Sound key defs m later h.1,
          AllDefined-delete key defs state.role_names h.0.1,
        )
        | inr kept ↦ ground (
          arith,
          strip_role-Sound key defs m clock h.1,
          AllDefined-delete key defs state.role_names h.0.1,
          without-eq_of_absent key state.role_names kept,
        )
      ]

  set_normalized-IsValid :
      (rm : RoleManager) (clock : Clock) (target : PeerId) (names : List Text)
      → AllDefined rm.definitions names
      → IsValid rm
      → IsValid (set_normalized rm clock target names).1
  unfolding set_normalized
  set_normalized-IsValid rm clock target names d v =
      let ts = (get_current_hlc clock).0 in
      ground (arith, store_assignment-Sound rm.definitions target names ts rm.assignments d v.sound)

  pub set_peer_roles-IsValid :
      (rm : RoleManager) (clock : Clock) (target : PeerId) (names : List Text)
      → IsValid rm
      → IsValid (set_peer_roles rm clock target names).1
  unfolding set_peer_roles
  set_peer_roles-IsValid rm clock target names v =
      elim (Result-cases (normalize_names rm.definitions names)) [
        | inl (norms, e) ↦
            rw (e, set_peer_roles)
              (set_normalized-IsValid rm clock target norms (names_defined rm.definitions names e)
                v)
        | inr (_, e) ↦ rw (e, set_peer_roles) v
      ]

  pub remove_definition-IsValid :
      (rm : RoleManager) (clock : Clock) (name : Text)
      → IsValid rm
      → IsValid (remove_definition rm clock name).1
  unfolding remove_definition
  remove_definition-IsValid rm clock name v =
      ground (arith, strip_role-Sound (normalize name) rm.definitions rm.assignments clock v.sound)

pub update_definition-IsValid :
    (rm : RoleManager) (name : Text) (p : Permission)
    → IsValid rm
    → IsValid (update_definition rm name p).1
unfolding update_definition
update_definition-IsValid rm name p v =
    let role : Role = record { name = name; permissions = p } in
    let key = normalize name in
    let kept =
      AllValues-mono (Sound rm.definitions) (Sound (insert key role rm.definitions)) rm.assignments
        (λ state h. (h.0, AllDefined-insert key role rm.definitions state.role_names h.1))
        v.sound in
    ground arith

pub apply_peer_assignment-IsValid :
    (rm : RoleManager) (peer : PeerId) (names : List Text) (ts : ℕ)
    → IsValid rm
    → IsValid (apply_peer_assignment rm peer names ts).1
unfolding apply_peer_assignment
apply_peer_assignment-IsValid rm peer names ts v =
    elim (Result-cases (normalize_names rm.definitions names)) [
      | inl (norms, e) ↦
          let stored =
            store_assignment-Sound rm.definitions peer norms ts rm.assignments
              (names_defined rm.definitions names e) v.sound in
          rw (e, apply_peer_assignment) (ground arith)
      | inr (_, e) ↦ rw (e, apply_peer_assignment) v
    ]

module _ ⦃codec : PeerCodec⦄ where
  pub apply_entries-IsValid :
      (rm : RoleManager) (entries : List (Option PeerRoleAssignment))
      → IsValid rm
      → IsValid (apply_entries rm entries)
  unfolding apply_entries
  apply_entries-IsValid rm [] v = v
  apply_entries-IsValid rm (none ∷ entries) v = apply_entries-IsValid rm entries v
  apply_entries-IsValid rm (some a ∷ entries) v = elim (Option-cases (decode a.peer_id)) [
    | inl e ↦ rw (e, apply_entries) (apply_entries-IsValid rm entries v)
    | inr (peer, e) ↦
        rw (e, apply_entries)
          (apply_entries-IsValid (apply_peer_assignment rm peer a.assigned_role_names a.hlc_ts).1
            entries (apply_peer_assignment-IsValid rm peer a.assigned_role_names a.hlc_ts v))
  ]
