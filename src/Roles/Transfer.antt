-- ===== src/Roles/Transfer.antt =====
-- The snapshot of the assignments that an admin sends to a peer that joins
-- (internal/roles/role_manager.go).
use p2ptogether.Prelude.{
  ℕ, ◌≡◌, refl, sym, ap, ◌∙◌, subst, none, some, List, [], ◌∷◌, ◌++◌, map, arith, nat_eq, list_eq,
  ok, Option, Bool-cases, nat_beq_iff, ◌==◌, Returned, inl, inr, false,
}
use mathlib.Core.List.{append_assoc, append-nil}
use p2ptogether.Prelude.Maps.{Map, lookup, Unique, AllValues, insert-absent, lookup-Unique_append}
use p2ptogether.Names.{Text, is_empty}
use p2ptogether.Permissions.{Role}
use p2ptogether.Peers.{PeerId, PeerCodec, decode}
use p2ptogether.Roles.{
  RoleManager, PeerAssignmentState, PeerRoleAssignment, new_role_manager, normalize_names,
  store_assignment, get_all_assignments,
}
use p2ptogether.Roles.Updates.{
  apply_entries, apply_decoded, apply_peer_assignment, is_newer, apply_all_assignments_snapshot,
}
use p2ptogether.Roles.Convergence.{
  Update, AssignsSome, newer, said, value_of, deliver, lookup-deliver, definitions-deliver,
}
use p2ptogether.Roles.Invariant.{AllDefined, Sound}
use p2ptogether.Roles.Canonical.{
  Normal, NormalState, Canonical, set_peer_roles-Canonical, remove_definition-Canonical,
  update_definition-Canonical, apply_peer_assignment-Canonical, apply_entries-Canonical,
}
use p2ptogether.Roles.History.{
  Step, sets, updates, removes, assigns, snapshots, Reach, start, next, Reach-IsValid,
}

normalize_names-Normal_defined :
    (defs : Map Text Role) (names : List Text)
    → AllDefined defs names
    → Normal names
    → normalize_names defs names ≡ ok names
unfolding normalize_names
normalize_names-Normal_defined defs [] d h = refl
normalize_names-Normal_defined defs (name ∷ names) d h =
    ground (arith, normalize_names-Normal_defined defs names d.1 h.1)

-- An assignment of a peer that has none is stored behind the others.
apply_peer_assignment-absent :
    (defs : Map Text Role) (m : Map PeerId PeerAssignmentState) (peer : PeerId)
    (state : PeerAssignmentState)
    → lookup peer m ≡ none
    → Sound defs state
    → NormalState state
    → (apply_peer_assignment
        (record { definitions = defs; assignments = m })
        peer
        state.role_names
        state.hlc_ts).1
      ≡ record { definitions = defs; assignments = m ++ ((peer, state) ∷ []) }
unfolding apply_peer_assignment is_newer store_assignment
apply_peer_assignment-absent defs m peer state absent sound normal =
    rw
      (
        normalize_names-Normal_defined defs state.role_names sound.1 normal,
        apply_peer_assignment,
        absent,
        sound.0,
      )
      (ap (λ kvs. record { definitions = defs; assignments = kvs })
        (insert-absent peer state m absent))

assigns_some :
    (defs : Map Text Role) (state : PeerAssignmentState)
    → normalize_names defs state.role_names ≡ ok state.role_names
    → is_empty state.role_names ≡ false
    → Returned (λ names. is_empty names ≡ false) (normalize_names defs state.role_names)
assigns_some defs state normal h = rw normal h

-- The entry at the head of a map without repetition, taken over before the others.
newer-cons :
    (defs : Map Text Role) (peer : PeerId) (state : PeerAssignmentState)
    (kvs : Map PeerId PeerAssignmentState) (p : PeerId) (o : Option PeerAssignmentState)
    → normalize_names defs state.role_names ≡ ok state.role_names
    → lookup peer kvs ≡ none
    → newer (lookup p kvs) (
        newer (said defs p (record { peer = peer; names = state.role_names; ts = state.hlc_ts })) o)
      ≡ newer (lookup p ((peer, state) ∷ kvs)) o
unfolding newer said value_of lookup
newer-cons defs peer state kvs p o normal absent = elim (Bool-cases (peer == p)) [
  | inl same ↦
      (let here : lookup p kvs ≡ none =
          subst (λ q. lookup q kvs ≡ none) ((nat_beq_iff peer p).0 same) absent in
        rw (same, here, normal) refl)
  | inr other ↦ rw other refl
]

definitions-apply_peer_assignment :
    (rm : RoleManager) (peer : PeerId) (names : List Text) (ts : ℕ)
    → (apply_peer_assignment rm peer names ts).1.definitions ≡ rm.definitions
unfolding apply_peer_assignment
definitions-apply_peer_assignment rm peer names ts = ground arith

module _ ⦃codec : PeerCodec⦄ where
  definitions-apply_decoded :
      (rm : RoleManager) (peer : Option PeerId) (a : PeerRoleAssignment)
      → (apply_decoded rm peer a).definitions ≡ rm.definitions
  unfolding apply_decoded
  definitions-apply_decoded rm none a = refl
  definitions-apply_decoded rm (some peer) a =
      definitions-apply_peer_assignment rm peer a.assigned_role_names a.hlc_ts

  -- A snapshot of assignments changes no definition.
  pub definitions-apply_entries :
      (rm : RoleManager) (entries : List (Option PeerRoleAssignment))
      → (apply_entries rm entries).definitions ≡ rm.definitions
  unfolding apply_entries
  definitions-apply_entries rm [] = refl
  definitions-apply_entries rm (none ∷ entries) = definitions-apply_entries rm entries
  definitions-apply_entries rm (some a ∷ entries) =
      definitions-apply_entries (apply_decoded rm (decode a.peer_id) a) entries
      ∙ definitions-apply_decoded rm (decode a.peer_id) a

  -- Applying the entries that stand for the rest of a map to its front gives the whole map.
  apply_entries-rest :
      (defs : Map Text Role) (m kvs : Map PeerId PeerAssignmentState)
      → Unique (m ++ kvs)
      → AllValues (Sound defs) kvs
      → AllValues NormalState kvs
      → apply_entries
          (record { definitions = defs; assignments = m })
          (map some (get_all_assignments (record { definitions = defs; assignments = kvs })))
        ≡ record { definitions = defs; assignments = m ++ kvs }
  unfolding apply_entries get_all_assignments
  apply_entries-rest defs m [] u s n =
      ap (λ all. record { definitions = defs; assignments = all }) (sym (append-nil m))
  apply_entries-rest defs m ((peer, state) ∷ kvs) u s n =
      let one : Map PeerId PeerAssignmentState = (peer, state) ∷ [] in
      let absent = lookup-Unique_append peer state m kvs u in
      rw (codec.decode-encode peer, apply_entries)
        (ap
            (λ rm.
              apply_entries rm
                (map some (get_all_assignments (record { definitions = defs; assignments = kvs }))))
            (apply_peer_assignment-absent defs m peer state absent s.0 n.0)
          ∙ apply_entries-rest defs (m ++ one) kvs (subst Unique (sym (append_assoc m one kvs)) u)
              s.1 n.1
          ∙ ap (λ all. record { definitions = defs; assignments = all }) (append_assoc m one kvs))

  -- The entries that stand for a map, applied by another peer: for each peer the newer state wins.
  lookup-apply_entries :
      (defs : Map Text Role) (rm : RoleManager) (kvs : Map PeerId PeerAssignmentState) (p : PeerId)
      → rm.definitions ≡ defs
      → Unique kvs
      → AllValues (Sound defs) kvs
      → AllValues NormalState kvs
      → lookup p
          (apply_entries rm (
            map some
              (get_all_assignments (record { definitions = defs; assignments = kvs })))).assignments
        ≡ newer (lookup p kvs) (lookup p rm.assignments)
  unfolding apply_entries get_all_assignments lookup newer
  lookup-apply_entries defs rm [] p d u s n = refl
  lookup-apply_entries defs rm ((peer, state) ∷ kvs) p d u s n =
      let update : Update = record { peer = peer; names = state.role_names; ts = state.hlc_ts } in
      let normal = normalize_names-Normal_defined defs state.role_names s.0.1 n.0 in
      let given : AssignsSome rm.definitions update =
        subst (λ defs. AssignsSome defs update) (sym d) (assigns_some defs state normal s.0.0) in
      let rest =
        map some (get_all_assignments (record { definitions = defs; assignments = kvs })) in
      rw (codec.decode-encode peer, apply_entries)
        (lookup-apply_entries defs (deliver rm update) kvs p (definitions-deliver rm update ∙ d) u.1
            s.1 n.1
          ∙ ap (newer (lookup p kvs)) (lookup-deliver rm update p given)
          ∙ ap (λ defs. newer (lookup p kvs) (newer (said defs p update) (lookup p rm.assignments)))
              d
          ∙ newer-cons defs peer state kvs p (lookup p rm.assignments) normal u.0)

  Step-Canonical :
      {rm rm' : RoleManager} → Step rm rm' → Canonical rm.assignments → Canonical rm'.assignments
  unfolding apply_all_assignments_snapshot
  Step-Canonical (sets rm clock peer names) v = set_peer_roles-Canonical rm clock peer names v
  Step-Canonical (updates rm name p) v = update_definition-Canonical rm name p v
  Step-Canonical (removes rm clock name) v = remove_definition-Canonical rm clock name v
  Step-Canonical (assigns rm peer names ts) v = apply_peer_assignment-Canonical rm peer names ts v
  Step-Canonical (snapshots rm none) v = v
  Step-Canonical (snapshots rm (some entries)) v = apply_entries-Canonical rm entries v

  Reach-Canonical : {rm : RoleManager} → Reach rm → Canonical rm.assignments
  unfolding new_role_manager
  Reach-Canonical start = record { unique = tt; normal = tt }
  Reach-Canonical (next r st) = Step-Canonical st (Reach-Canonical r)

  -- The snapshot of a role manager with any history, taken over by one with the same definitions.
  pub lookup-apply_all :
      {rm : RoleManager} (mine : RoleManager) (p : PeerId)
      → Reach rm
      → mine.definitions ≡ rm.definitions
      → lookup p (apply_entries mine (map some (get_all_assignments rm))).assignments
        ≡ newer (lookup p rm.assignments) (lookup p mine.assignments)
  lookup-apply_all {rm} mine p r same =
      let v = Reach-Canonical r in
      lookup-apply_entries rm.definitions mine rm.assignments p same v.unique
        (Reach-IsValid r).sound v.normal

  -- After any history of role commands, received assignments and snapshots, the snapshot of all
  -- assignments, applied by a peer with the same role definitions and no assignments, returns no
  -- error and gives that peer the very state of the sender: the same roles with the same stamps for
  -- every peer, and none besides.
  apply-get_all_assignments :
      {rm : RoleManager}
      → Reach rm
      → apply_all_assignments_snapshot
          (record rm { assignments = [] })
          (some (map some (get_all_assignments rm)))
        ≡ (ok tt, rm)
  unfolding apply_all_assignments_snapshot
  apply-get_all_assignments {rm} r =
      let v = Reach-Canonical r in
      ap (λ after. (ok tt, after))
        (apply_entries-rest rm.definitions [] rm.assignments v.unique (Reach-IsValid r).sound
          v.normal)
