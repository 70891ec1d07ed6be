-- ===== src/Permissions.antt =====
-- peer_service/internal/roles/roles.go: permission masks. `Permission` is a Go `int`.
pub mod Masks
use p2ptogether.Prelude.{ℕ, ◌-◌, ◌^◌, bit_and, bit_or, Bool, not, List, [], ◌∷◌, ◌==◌, nat_eq}
use p2ptogether.Names.{Text}

abbrev pub Permission : Type 0
Permission = ℕ

-- `1 << iota`
abbrev pub perm_view : Permission
perm_view = 2 ^ 0

abbrev pub perm_chat : Permission
perm_chat = 2 ^ 1

abbrev pub perm_kick_user : Permission
perm_kick_user = 2 ^ 2

abbrev pub perm_ban_user : Permission
perm_ban_user = 2 ^ 3

abbrev pub perm_moderate_chat : Permission
perm_moderate_chat = 2 ^ 4

abbrev pub perm_add_remove_roles : Permission
perm_add_remove_roles = 2 ^ 5

abbrev pub perm_manage_user_roles : Permission
perm_manage_user_roles = 2 ^ 6

abbrev pub perm_invite : Permission
perm_invite = 2 ^ 7

abbrev pub perm_stream : Permission
perm_stream = 2 ^ 8

abbrev pub perm_play_pause : Permission
perm_play_pause = 2 ^ 9

abbrev pub perm_seek : Permission
perm_seek = 2 ^ 10

abbrev pub perm_set_speed : Permission
perm_set_speed = 2 ^ 11

abbrev pub perm_queue : Permission
perm_queue = 2 ^ 12

-- `(1 << iota) - 1`, at the fourteenth constant.
abbrev pub perm_all : Permission
perm_all = 2 ^ 13 - 1

pub record Role : Type 0 where
  pub name : Text
  pub permissions : Permission

or_roles : Permission → List Role → Permission
or_roles p [] = p
or_roles p (role ∷ roles) = or_roles (bit_or p role.permissions) roles

unfoldable pub permissions_for_roles : List Role → Permission
unfolding or_roles
permissions_for_roles roles = or_roles 0 roles

-- `perms.Has(required)`; `HasPermission` takes its arguments the other way round.
unfoldable pub has : Permission → Permission → Bool
has p required = not (bit_and p required == 0)

unfoldable pub has_permission : Permission → Permission → Bool
has_permission required perms = not (bit_and perms required == 0)
