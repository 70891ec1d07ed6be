-- ===== src/Tests/Roles.antt =====
-- Runs of the role manager, and names and masks at concrete inputs.
use mathlib.Core.List.{Mem, mem-cons, not-mem-nil, perm_append_comm}
use mathlib.Core.Logic.{∥∥₁_elim}
use p2ptogether.Prelude.{
  ◌≡◌, refl, sym, ap, ◌∙◌, inl, inr, true, some, [], ◌∷◌, arith, ok, nat_eq, list_eq,
}
use p2ptogether.Prelude.Maps.{lookup}
use p2ptogether.Names.{text, normalize}
use p2ptogether.Roles.{RoleManager, new_role_manager, set_peer_roles, normalize_names}
use p2ptogether.Roles.Updates.{apply_definitions_update, is_newer, remove_definition}
use p2ptogether.Roles.Invariant.{IsValid}
use p2ptogether.Roles.History.{
  start, next, sets, removes, Reach-IsValid, apply_definitions_update_dangling,
}
use p2ptogether.Roles.Convergence.{
  Update, Distinct, AssignsSome, deliver, deliver_all, deliver_all-perm, deliver_after_removal,
}
use p2ptogether.Tests.Samples.{one_letter, clock, manager, assigned}

normalized : normalize_names manager.definitions (text " Admin" ∷ []) ≡ ok (text "admin" ∷ [])
unfolding normalize_names normalize lookup
normalized = refl

abbrev demoted : RoleManager
demoted = (set_peer_roles new_role_manager clock 1 (text "Viewer" ∷ [])).1

Reach-IsValid_example : IsValid (remove_definition demoted clock (text "viewer")).1
Reach-IsValid_example = Reach-IsValid (
    next (next start (sets new_role_manager clock 1 (text "Viewer" ∷ [])))
      (removes demoted clock (text "viewer")))

manager-IsValid : IsValid manager
unfolding lookup
manager-IsValid = record { sound = ((refl, (refl, tt)), ((refl, (refl, tt)), tt)) }

apply_definitions_update_dangling_example : ¬ IsValid (apply_definitions_update manager (some [])).1
apply_definitions_update_dangling_example =
    apply_definitions_update_dangling manager 2 manager-IsValid found
  where
    found : lookup 2 manager.assignments ≡ some (assigned (text "viewer") 6)
    found = unfold lookup in refl

abbrev promote : Update
promote = record { peer = 2; names = text "admin" ∷ []; ts = 8 }

abbrev demote : Update
demote = record { peer = 2; names = text "viewer" ∷ []; ts = 9 }

deliver_after_removal_example :
    lookup 2
      (deliver (deliver manager (record { peer = 2; names = []; ts = 20 })) promote).assignments
    ≡ some (record { role_names = text "admin" ∷ []; hlc_ts = 8 })
deliver_after_removal_example =
    deliver_after_removal manager promote (text "admin" ∷ []) 20 named refl newest (omega arith)
  where
    named : normalize_names manager.definitions (text "admin" ∷ []) ≡ ok (text "admin" ∷ [])
    named = unfold normalize_names normalize lookup in refl

    newest : is_newer 20 (lookup 2 manager.assignments) ≡ true
    newest = unfold is_newer lookup in refl

Update-set : IsSet Update
Update-set = hlevel

one_of_two :
    (u v : Update) (m : Mem u (promote ∷ demote ∷ []))
    → (u ≡ promote → u ≡ v)
    → (u ≡ demote → u ≡ v)
    → u ≡ v
one_of_two u v m f g = ∥∥₁_elim (mem-cons.0 m) (Update-set u v) (λ c. elim c [
  | inl e ↦ f e
  | inr m' ↦
      ∥∥₁_elim (mem-cons.0 m') (Update-set u v)
        (λ c'. elim c' [ inl e ↦ g e | inr none_left ↦ absurd (not-mem-nil none_left) ])
])

two_updates-Distinct : Distinct (promote ∷ demote ∷ [])
two_updates-Distinct u v m n same_peer same_ts =
    one_of_two u v m
      (λ e. sym (
        one_of_two v u n (λ e'. e' ∙ sym e)
          (λ e'. absurd (apart (sym (ap (λ w. w.ts) e) ∙ same_ts ∙ ap (λ w. w.ts) e')))))
      (λ e. sym (
        one_of_two v u n
          (λ e'. absurd (apart (sym (ap (λ w. w.ts) e') ∙ sym same_ts ∙ ap (λ w. w.ts) e)))
          (λ e'. e' ∙ sym e)))
  where
    apart : ¬ (promote.ts ≡ demote.ts)
    apart e = omega arith

deliver_all-perm_example :
    lookup 2 (deliver_all manager (promote ∷ demote ∷ [])).assignments
    ≡ lookup 2 (deliver_all manager (demote ∷ promote ∷ [])).assignments
deliver_all-perm_example =
    deliver_all-perm manager 2 (perm_append_comm (promote ∷ []) (demote ∷ []))
      (some_role, (some_role', tt)) (some_role', (some_role, tt)) two_updates-Distinct
  where
    some_role : AssignsSome manager.definitions promote
    some_role = unfold normalize_names normalize lookup in refl

    some_role' : AssignsSome manager.definitions demote
    some_role' = unfold normalize_names normalize lookup in refl
