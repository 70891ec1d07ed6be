-- ===== src/Roles/Convergence.antt =====
-- Assignments received from other peers, in different orders (internal/roles/role_manager.go).
use mathlib.Core.List.{Mem, Perm, Permᴰ, mem-cons_self, mem-cons_of_mem}
use mathlib.Core.List.Permᴰ as PermD
use mathlib.Core.Logic.{∥∥₁_elim}
use p2ptogether.Prelude.{
  ℕ, ◌<◌, ◌≡◌, refl, sym, ◌∙◌, ap, true, false, Option, none, some, List, [], ◌∷◌, arith, nat_eq,
  list_eq, ◌==◌, ltb, if◌then◌else◌, All, subst, Result, Returned, Result-cases, ok, err, inl, inr,
  nat_beq_iff, Bool-cases, ==_refl,
}
use p2ptogether.Prelude.Maps.{Map, lookup, delete, lookup-insert, lookup-delete_self}
use p2ptogether.Names.{Text, is_empty}
use p2ptogether.Permissions.{Role}
use p2ptogether.Peers.{PeerId}
use p2ptogether.Roles.{RoleManager, PeerAssignmentState, Error, normalize_names, store_assignment}
use p2ptogether.Roles.Updates.{apply_peer_assignment, is_newer}

-- The arguments of a call of `ApplyPeerAssignment`.
pub record Update : Type 0 where
  pub peer : PeerId
  pub names : List Text
  pub ts : ℕ

abbrev pub deliver : RoleManager → Update → RoleManager
deliver rm u = (apply_peer_assignment rm u.peer u.names u.ts).1

unfoldable pub deliver_all : RoleManager → List Update → RoleManager
deliver_all rm [] = rm
deliver_all rm (u ∷ us) = deliver_all (deliver rm u) us

-- The update is refused, or it assigns at least one role.
abbrev pub AssignsSome : Map Text Role → Update → Type 0
AssignsSome defs u = Returned (λ names. is_empty names ≡ false) (normalize_names defs u.names)

-- Two updates of one peer that carry the same stamp are the same update.
abbrev pub Distinct : List Update → Type 0
Distinct us = (u v : Update) → Mem u us → Mem v us → u.peer ≡ v.peer → u.ts ≡ v.ts → u ≡ v

abbrev pub State? : Type 0
State? = Option PeerAssignmentState

unfoldable pub value_of : Result Error (List Text) → ℕ → State?
value_of (err e) ts = none
value_of (ok names) ts = some (record { role_names = names; hlc_ts = ts })

-- What the update says of the peer `p`.
unfoldable pub said : Map Text Role → PeerId → Update → State?
said defs p u = if u.peer == p then value_of (normalize_names defs u.names) u.ts else none

-- The later of the two wins, and the stored one on a tie.
unfoldable pub newer : State? → State? → State?
newer none o = o
newer (some s) none = some s
newer (some s) (some t) = if ltb t.hlc_ts s.hlc_ts then some s else some t

settle : Map Text Role → PeerId → List Update → State? → State?
unfolding newer said value_of
settle defs p [] o = o
settle defs p (u ∷ us) o = settle defs p us (newer (said defs p u) o)

pub definitions-deliver :
    (rm : RoleManager) (u : Update) → (deliver rm u).definitions ≡ rm.definitions
unfolding apply_peer_assignment
definitions-deliver rm u = ground arith

store_some :
    (peer p : PeerId) (names : List Text) (ts : ℕ) (m : Map PeerId PeerAssignmentState)
    → is_empty names ≡ false
    → lookup p (store_assignment peer names ts m)
      ≡ (if peer == p then some (record { role_names = names; hlc_ts = ts }) else lookup p m)
unfolding store_assignment
store_some peer p [] ts m h = cc
store_some peer p (name ∷ names) ts m h = lookup-insert peer p _ m

pub lookup-deliver :
    (rm : RoleManager) (u : Update) (p : PeerId)
    → AssignsSome rm.definitions u
    → lookup p (deliver rm u).assignments
      ≡ newer (said rm.definitions p u) (lookup p rm.assignments)
unfolding apply_peer_assignment newer said value_of
lookup-deliver rm u p h = elim (Result-cases (normalize_names rm.definitions u.names)) [
  | inl (names, e) ↦
      let some_names : is_empty names ≡ false = rw e at h in
      rw (e, apply_peer_assignment)
        (ground
          (arith, store_some u.peer p names u.ts rm.assignments some_names, nat_beq_iff u.peer p))
  | inr (_, e) ↦ rw (e, apply_peer_assignment) (ground arith)
]

lookup-deliver_all :
    (rm : RoleManager) (us : List Update) (p : PeerId)
    → All (AssignsSome rm.definitions) us
    → lookup p (deliver_all rm us).assignments
      ≡ settle rm.definitions p us (lookup p rm.assignments)
unfolding deliver_all settle
lookup-deliver_all rm [] p h = refl
lookup-deliver_all rm (u ∷ us) p h =
    let kept = definitions-deliver rm u in
    let some_left = subst (λ defs. All (AssignsSome defs) us) (sym kept) h.1 in
    let o = lookup p (deliver rm u).assignments in
    lookup-deliver_all (deliver rm u) us p some_left
    ∙ ap (λ defs. settle defs p us o) kept
    ∙ ap (settle rm.definitions p us) (lookup-deliver rm u p h.0)

-- Two states with one stamp are one state.
abbrev Untied : State? → State? → Type 0
Untied none t = Unit
Untied (some s) none = Unit
Untied (some s) (some t) = s.hlc_ts ≡ t.hlc_ts → s ≡ t

newer_comm : (s t o : State?) → Untied s t → newer s (newer t o) ≡ newer t (newer s o)
unfolding newer
newer_comm none t o h = refl
newer_comm (some s) none o h = refl
newer_comm (some s) (some t) none h = ground arith
newer_comm (some s) (some t) (some r) h = ground arith

module _ (defs : Map Text Role) (p : PeerId) where
  same_state :
      (u v : Update) {ns ms : List Text}
      → u ≡ v
      → normalize_names defs u.names ≡ ok ns
      → normalize_names defs v.names ≡ ok ms
      → ◌≡◌ {A = PeerAssignmentState}
          (record { role_names = ns; hlc_ts = u.ts })
          (record { role_names = ms; hlc_ts = v.ts })
  same_state u v q e f =
      let names = ap (λ (w : Update). normalize_names defs w.names) q in
      let stamps = ap (λ (w : Update). w.ts) q in ground arith

  said-Untied :
      (u v : Update)
      → (u.peer ≡ v.peer → u.ts ≡ v.ts → u ≡ v)
      → Untied (said defs p u) (said defs p v)
  unfolding said value_of
  said-Untied u v h = elim (Result-cases (normalize_names defs u.names)) [
    | inr (_, e) ↦ rw e (ground arith)
    | inl (ns, e) ↦ elim (Result-cases (normalize_names defs v.names)) [
      | inr (_, f) ↦ rw (e, f) (ground arith)
      | inl (ms, f) ↦ rw (e, f) (both ns ms e f)
    ]
  ]
    where
      both :
          (ns ms : List Text)
          → normalize_names defs u.names ≡ ok ns
          → normalize_names defs v.names ≡ ok ms
          → Untied
              (if u.peer == p then some (record { role_names = ns; hlc_ts = u.ts }) else none)
              (if v.peer == p then some (record { role_names = ms; hlc_ts = v.ts }) else none)
      both ns ms e f = elim (Bool-cases (u.peer == p)) [
        | inr un ↦ rw un tt
        | inl us ↦ elim (Bool-cases (v.peer == p)) [
          | inr vn ↦ rw (us, vn) tt
          | inl vs ↦ rw (us, vs) (λ t. same_state u v (h (ground arith) t) e f)
        ]
      ]

  settle-Permᴰ :
      {us vs : List Update}
      → Permᴰ us vs
      → Distinct us
      → (o : State?) → settle defs p us o ≡ settle defs p vs o
  unfolding settle
  settle-Permᴰ Permᴰ.nil d o = refl
  settle-Permᴰ (Permᴰ.cons {a} {b} {l₁ = us} {l₂ = vs} e q) d o =
      settle-Permᴰ q (λ u v m n. d u v (mem-cons_of_mem a m) (mem-cons_of_mem a n))
        (newer (said defs p a) o)
      ∙ ap (λ u. settle defs p vs (newer (said defs p u) o)) e
  settle-Permᴰ (Permᴰ.swap {a} {b} {a'} {b'} {l = us} e f) d o =
      let tie = d b a (mem-cons_of_mem a mem-cons_self) mem-cons_self in
      ap (settle defs p us) (newer_comm (said defs p b) (said defs p a) o (said-Untied b a tie))
      ∙ ap (λ u. settle defs p us (newer (said defs p u) (newer (said defs p b) o))) e
      ∙ ap (λ u. settle defs p us (newer (said defs p b') (newer (said defs p u) o))) f
  settle-Permᴰ (Permᴰ.trans {l₁ = us} {l₂ = ws} {l₃ = vs} q r) d o =
      let back = PermD.symm q in
      settle-Permᴰ q d o ∙ settle-Permᴰ r (λ u v m n. d u v (PermD.mem back m) (PermD.mem back n)) o

State?-set : IsSet State?
State?-set = hlevel

-- From one state, the same received updates in any two orders leave every peer with the same
-- assignment; if each update assigns a role or is refused, and no two different updates of one peer
-- carry one stamp.
pub deliver_all-perm :
    (rm : RoleManager) (p : PeerId) {us vs : List Update}
    → Perm us vs
    → All (AssignsSome rm.definitions) us
    → All (AssignsSome rm.definitions) vs
    → Distinct us
    → lookup p (deliver_all rm us).assignments ≡ lookup p (deliver_all rm vs).assignments
deliver_all-perm rm p {us} {vs} q h k d =
    let o = lookup p rm.assignments in
    lookup-deliver_all rm us p h
    ∙ ∥∥₁_elim q (State?-set _ _) (λ q. settle-Permᴰ rm.definitions p q d o)
    ∙ sym (lookup-deliver_all rm vs p k)

removal : PeerId → ℕ → Update
removal peer ts = record { peer = peer; names = []; ts = ts }

deliver-removal :
    (rm : RoleManager) (peer : PeerId) (ts : ℕ)
    → is_newer ts (lookup peer rm.assignments) ≡ true
    → deliver rm (removal peer ts) ≡ record rm { assignments = delete peer rm.assignments }
unfolding apply_peer_assignment normalize_names store_assignment removal
deliver-removal rm peer ts newest = ground arith

deliver_unknown :
    (rm : RoleManager) (u : Update) (norms : List Text)
    → normalize_names rm.definitions u.names ≡ ok norms
    → is_empty norms ≡ false
    → lookup u.peer rm.assignments ≡ none
    → lookup u.peer (deliver rm u).assignments ≡ some (record { role_names = norms; hlc_ts = u.ts })
unfolding newer said value_of
deliver_unknown rm u norms e some_left absent =
    lookup-deliver rm u u.peer (rw e some_left) ∙ rw (==_refl u.peer, e, absent)

-- A removal leaves no stamp behind: once a removal of all roles has been applied, an assignment that
-- is older than the removal is applied when it arrives, and the peer has those roles again.
pub deliver_after_removal :
    (rm : RoleManager) (u : Update) (norms : List Text) (later : ℕ)
    → normalize_names rm.definitions u.names ≡ ok norms
    → is_empty norms ≡ false
    → is_newer later (lookup u.peer rm.assignments) ≡ true
    → u.ts < later
    → lookup u.peer
        (deliver (deliver rm (record { peer = u.peer; names = []; ts = later })) u).assignments
      ≡ some (record { role_names = norms; hlc_ts = u.ts })
unfolding removal
deliver_after_removal rm u norms later e some_left newest h =
    let bare : RoleManager = record rm { assignments = delete u.peer rm.assignments } in
    rw (deliver-removal rm u.peer later newest)
      (deliver_unknown bare u norms e some_left (lookup-delete_self u.peer rm.assignments))
