-- ===== src/Access.antt =====
-- internal/repository/accessgrant.go: access rights as a bit mask in a byte.
pub mod Bits
pub mod Accounts
pub mod Holders
pub mod Auth
use Prim.Native.Nat.{bit_and, bit_or}
use media_hub_oss.Prelude.{ℕ, Bool, true, false, not, ◌==◌, if◌then◌else◌}

abbrev pub access_view : ℕ
access_view = 1

abbrev pub access_create : ℕ
access_create = 2

abbrev pub access_edit : ℕ
access_edit = 4

abbrev pub access_delete : ℕ
access_delete = 8

abbrev pub access_admin : ℕ
access_admin = 16

-- `if flag { grant |= bit }`
abbrev pub with_right : Bool → ℕ → ℕ → ℕ
with_right flag bit grant = if flag then bit_or grant bit else grant

unfoldable pub new_access_grant : (view create edit delete admin : Bool) → ℕ
new_access_grant view create edit delete admin = with_right admin access_admin (
    with_right delete access_delete (
      with_right edit access_edit
        (with_right create access_create (with_right view access_view 0))))

unfoldable pub has_access : ℕ → ℕ → Bool
has_access ag required = bit_and ag required == required

-- `ag & other != 0`
abbrev pub has_any : ℕ → ℕ → Bool
has_any ag other = not (bit_and ag other == 0)
