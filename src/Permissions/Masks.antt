-- ===== src/Permissions/Masks.antt =====
-- Unions of permission masks (internal/roles/roles.go).
use p2ptogether.Prelude.{bit_or, ◌≡◌, refl, false, ◌||◌, List, [], ◌∷◌, arith, any}
use p2ptogether.Prelude.Bits.{union-Misses, zero_and}
use p2ptogether.Permissions.{Permission, Role, has, has_permission, permissions_for_roles, or_roles}

pub has-bit_or : (a b r : Permission) → has (bit_or a b) r ≡ (has a r || has b r)
unfolding has
has-bit_or a b r = ground (arith, union-Misses a b r)

pub has_zero : (r : Permission) → has 0 r ≡ false
unfolding has
has_zero r = ground (arith, zero_and r)

has_permission-eq-has : (r p : Permission) → has_permission r p ≡ has p r
unfolding has has_permission
has_permission-eq-has r p = refl

has-or_roles :
    (p : Permission) (roles : List Role) (r : Permission)
    → has (or_roles p roles) r ≡ (has p r || any (λ role. has role.permissions r) roles)
unfolding or_roles
has-or_roles p [] r = ground arith
has-or_roles p (role ∷ roles) r =
    ground
      (arith, has-or_roles (bit_or p role.permissions) roles r, has-bit_or p role.permissions r)

-- The mask of a list of roles passes a test exactly when some role of the list passes it.
pub has-permissions_for_roles :
    (roles : List Role) (r : Permission)
    → has_permission r (permissions_for_roles roles) ≡ any (λ role. has role.permissions r) roles
unfolding permissions_for_roles
has-permissions_for_roles roles r =
    ground (arith, has_permission-eq-has r (or_roles 0 roles), has-or_roles 0 roles r, has_zero r)
