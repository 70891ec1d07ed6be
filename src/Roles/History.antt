-- ===== src/Roles/History.antt =====
-- A role manager from its creation on: local commands and assignments received from peers
-- (internal/roles/role_manager.go).
use p2ptogether.Prelude.{
  ℕ, ◌≡◌, true, false, Option, none, some, List, [], ◌∷◌, All, nat_eq, list_eq,
}
use p2ptogether.Prelude.Maps.{lookup-AllValues, lookup, has_key}
use p2ptogether.Hlc.{Clock}
use p2ptogether.Names.{Text, is_empty}
use p2ptogether.Permissions.{Permission, Role}
use p2ptogether.Peers.{PeerId, PeerCodec}
use p2ptogether.Roles.{
  RoleManager, PeerAssignmentState, PeerRoleAssignment, new_role_manager, set_peer_roles,
}
use p2ptogether.Roles.Updates.{
  update_definition, remove_definition, apply_peer_assignment, apply_all_assignments_snapshot,
  apply_definitions_update,
}
use p2ptogether.Roles.Invariant.{
  IsValid, Sound, set_peer_roles-IsValid, remove_definition-IsValid, update_definition-IsValid,
  apply_peer_assignment-IsValid, apply_entries-IsValid,
}

module _ ⦃codec : PeerCodec⦄ where
  -- The clock and the arguments of each call are arbitrary.
  pub data Step : RoleManager → RoleManager → Type 0 where
    sets :
        (rm : RoleManager) (clock : Clock) (peer : PeerId) (names : List Text)
        → Step rm (set_peer_roles rm clock peer names).1
    updates :
        (rm : RoleManager) (name : Text) (p : Permission) → Step rm (update_definition rm name p).1
    removes :
        (rm : RoleManager) (clock : Clock) (name : Text)
        → Step rm (remove_definition rm clock name).1
    assigns :
        (rm : RoleManager) (peer : PeerId) (names : List Text) (ts : ℕ)
        → Step rm (apply_peer_assignment rm peer names ts).1
    snapshots :
        (rm : RoleManager) (entries : Option (List (Option PeerRoleAssignment)))
        → Step rm (apply_all_assignments_snapshot rm entries).1

  pub data Reach : RoleManager → Type 0 where
    start : Reach new_role_manager
    next : {rm rm' : RoleManager} → Reach rm → Step rm rm' → Reach rm'

  Step-IsValid : {rm rm' : RoleManager} → Step rm rm' → IsValid rm → IsValid rm'
  unfolding apply_all_assignments_snapshot
  Step-IsValid (sets rm clock peer names) v = set_peer_roles-IsValid rm clock peer names v
  Step-IsValid (updates rm name p) v = update_definition-IsValid rm name p v
  Step-IsValid (removes rm clock name) v = remove_definition-IsValid rm clock name v
  Step-IsValid (assigns rm peer names ts) v = apply_peer_assignment-IsValid rm peer names ts v
  Step-IsValid (snapshots rm none) v = v
  Step-IsValid (snapshots rm (some entries)) v = apply_entries-IsValid rm entries v

  -- After any history of role commands, received assignments and snapshots, every role that is
  -- assigned to a peer is defined, and no stored assignment is empty.
  pub Reach-IsValid : {rm : RoleManager} → Reach rm → IsValid rm
  unfolding new_role_manager
  Reach-IsValid start = record { sound = tt }
  Reach-IsValid (next r st) = Step-IsValid st (Reach-IsValid r)

sound_names_defined :
    (names : List Text)
    → is_empty names ≡ false
    → ¬ All (λ name. has_key {V = Role} name [] ≡ true) names
unfolding lookup
sound_names_defined [] e d = cc
sound_names_defined (name ∷ names) e d = let first = d.0 in cc

-- A received set of definitions is taken over without a look at the assignments: in a valid
-- manager that has an assignment, the empty set leaves an assigned role undefined.
pub apply_definitions_update_dangling :
    (rm : RoleManager) (peer : PeerId) {state : PeerAssignmentState}
    → IsValid rm
    → lookup peer rm.assignments ≡ some state
    → ¬ IsValid (apply_definitions_update rm (some [])).1
unfolding apply_definitions_update
apply_definitions_update_dangling rm peer {state} v e after =
    sound_names_defined state.role_names
      (lookup-AllValues (Sound rm.definitions) peer rm.assignments e v.sound).0
      (lookup-AllValues (Sound []) peer rm.assignments e after.sound).1
