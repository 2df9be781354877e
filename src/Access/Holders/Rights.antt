-- ===== src/Access/Holders/Rights.antt =====
-- The list of a holder's permissions against its test of one.
use Prim.Native.Nat.{bit_and}
use media_hub_oss.Prelude.{
  ℕ, ◌≡◌, refl, arith, Bool, false, Option, none, some, List, [], ◌∷◌, ok, ◌+◌,
}
use media_hub_oss.Prelude.Text.{Text}
use media_hub_oss.Access.{has_any}
use media_hub_oss.Access.Bits.{has_bit-and, same_bits}
use media_hub_oss.Access.Holders.{
  Grants, user_permissions, get, scoped, load_permissions, has_permission, get_all_permissions,
  allows,
}

and_comm : (a b : ℕ) → bit_and a b ≡ bit_and b a
and_comm a b =
    same_bits (bit_and a b + bit_and b a) (bit_and a b) (bit_and b a) (omega arith) (omega arith)
      λ k. ground (arith, has_bit-and a b k, has_bit-and b a k)

abbrev pub listed : ℕ → Option ℕ → Bool
listed ag none = false
listed ag (some grant) = has_any grant ag

get-scoped :
    (scope : ℕ) (k : Text) (ag : ℕ) (m : List (Text × ℕ))
    → allows scope ag (get k m) ≡ listed ag (get k (scoped scope m))
get-scoped scope k ag [] = refl
get-scoped scope k ag ((k', perm) ∷ m) =
    ground (arith, get-scoped scope k ag m, and_comm scope perm)

-- For a user without global rights, HasPermission answers as the entry of GetAllPermissions for the
-- database does: whether that grant, masked by the scope, has any of the rights asked for.
pub has_permission-get_all :
    (grants : Grants) (id : Text) (scope : ℕ) (database : Text) (ag : ℕ) (all : List (Text × ℕ))
    → get_all_permissions grants (user_permissions id scope) ≡ ok all
    → has_permission grants (user_permissions id scope) database ag ≡ listed ag (get database all)
unfolding has_permission get_all_permissions
has_permission-get_all grants id scope database ag all h =
    ground (arith, h, get-scoped scope database ag (load_permissions grants id))
