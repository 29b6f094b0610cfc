-- ===== src/Core/Role.antt =====
-- crates/rustify-core/src/role.rs: the roles of a team's members and their order.
use rustify.Prelude.{ℕ, Bool, true, false, Str, str_eq, codes, ltb, if◌then◌else◌, ◌≡◌, refl}

pub data Role : Type 0 where
  member admin owner : Role

unfoldable pub rank : Role → ℕ
rank member = 1
rank admin = 2
rank owner = 3

-- `self` ranks strictly below `other`.
unfoldable pub lt : Role → Role → Bool
unfolding rank
lt a b = ltb (rank a) (rank b)

-- `self` ranks strictly above `other`.
unfoldable pub gt : Role → Role → Bool
unfolding rank
gt a b = ltb (rank b) (rank a)

unfoldable pub is_admin : Role → Bool
is_admin admin = true
is_admin owner = true
is_admin member = false

unfoldable pub is_owner : Role → Bool
is_owner owner = true
is_owner _ = false

unfoldable pub as_str : Role → Str
as_str member = codes "member"
as_str admin = codes "admin"
as_str owner = codes "owner"

-- An unknown text is the least privileged role.
unfoldable pub from_str_coerce : Str → Role
from_str_coerce s =
    if str_eq s (codes "owner") then owner else if str_eq s (codes "admin") then admin else member

-- Reading a stored role gives it back.
pub from_str_coerce-as_str : (r : Role) → from_str_coerce (as_str r) ≡ r
unfolding from_str_coerce as_str str_eq
from_str_coerce-as_str member = refl
from_str_coerce-as_str admin = refl
from_str_coerce-as_str owner = refl
