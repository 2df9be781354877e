-- ===== src/Access/Bits.antt =====
-- Bit masks as sets of bits.
use Prim.Native.Nat.{bit_and, bit_or, digits, bit_and-bitwise, bit_or-bitwise}
use media_hub_oss.Prelude.{
  ℕ, zero, suc, ◌+◌, ◌/◌, ◌%◌, ◌≤◌, min, max, ◌||◌, ◌≡◌, refl, arith, Bool, true, false, ◌&&◌, ◌==◌,
  ◌↔◌, Bool-cases, ==_iff, ap, inl, inr,
}
use media_hub_oss.Access.{has_access, has_any, with_right, new_access_grant}

-- Is bit `k` of `a` set?
unfoldable pub has_bit : ℕ → ℕ → Bool
has_bit zero a = a % 2 == 1
has_bit (suc k) a = has_bit k (a / 2)

pub has_bit-zero : (k : ℕ) → has_bit k 0 ≡ false
unfolding has_bit
has_bit-zero zero = refl
has_bit-zero (suc k) = has_bit-zero k

has_bit-digits :
    (n a b k : ℕ) → a ≤ n → has_bit k (digits (λ y. 0) min n a b) ≡ has_bit k a && has_bit k b
unfolding has_bit
has_bit-digits zero a b k h = ground (arith, has_bit-zero k)
has_bit-digits (suc n) zero b k h = ground (arith, has_bit-zero k)
has_bit-digits (suc n) (suc a) b zero h = ground (arith)
has_bit-digits (suc n) (suc a) b (suc k) h = ground (arith, has_bit-digits n (suc a / 2) (b / 2) k)

or-digits :
    (n a b k : ℕ) → a ≤ n → has_bit k (digits (λ y. y) max n a b) ≡ has_bit k a || has_bit k b
unfolding has_bit
or-digits zero a b k h = ground (arith, has_bit-zero k)
or-digits (suc n) zero b k h = ground (arith, has_bit-zero k)
or-digits (suc n) (suc a) b zero h = ground (arith)
or-digits (suc n) (suc a) b (suc k) h = ground (arith, or-digits n (suc a / 2) (b / 2) k)

pub has_bit-and : (a b k : ℕ) → has_bit k (bit_and a b) ≡ has_bit k a && has_bit k b
has_bit-and a b k = rw (bit_and-bitwise a b) (has_bit-digits a a b k (omega arith))

pub has_bit-or : (a b k : ℕ) → has_bit k (bit_or a b) ≡ has_bit k a || has_bit k b
has_bit-or a b k = rw (bit_or-bitwise a b) (or-digits a a b k (omega arith))

-- A number that is not zero has a bit, and numbers with the same bits are the same.
some_bit : (fuel a : ℕ) → a ≤ fuel → (a == 0) ≡ false → (k : ℕ) × (has_bit k a ≡ true)
unfolding has_bit
some_bit zero a h p = absurd (ground arith)
some_bit (suc fuel) a h p = elim (Bool-cases (a % 2 == 1)) [
  | inl e ↦ (0, e)
  | inr e ↦
      let (k, found) = some_bit fuel (a / 2) (omega arith) (ground (arith, e)) in (suc k, found)
]

pub same_bits : (fuel a b : ℕ) → a ≤ fuel → b ≤ fuel → ((k : ℕ) → has_bit k a ≡ has_bit k b) → a ≡ b
unfolding has_bit
same_bits zero a b p q h = omega arith
same_bits (suc fuel) a b p q h =
    let half = same_bits fuel (a / 2) (b / 2) (omega arith) (omega arith) (λ k. h (suc k)) in
    ground (arith, h 0, half)

-- Two masks have a bit in common.
pub record Shares (a b : ℕ) : Type 0 where
  pub bit : ℕ
  pub in_first : has_bit bit a ≡ true
  pub in_second : has_bit bit b ≡ true

pub has_any_iff : (a b : ℕ) → (has_any a b ≡ true) ↔ Shares a b
has_any_iff a b = (shared, any)
  where
    shared : has_any a b ≡ true → Shares a b
    shared h =
        let (k, found) = some_bit (bit_and a b) (bit_and a b) (omega arith) (ground (arith, h)) in
        record {
          bit = k;
          in_first = ground (arith, found, has_bit-and a b k);
          in_second = ground (arith, found, has_bit-and a b k);
        }

    any : Shares a b → has_any a b ≡ true
    any s = elim (Bool-cases (bit_and a b == 0)) [
      | inl e ↦ cc (
        has_bit-and a b s.bit,
        s.in_first,
        s.in_second,
        has_bit-zero s.bit,
        ap (has_bit s.bit) ((==_iff (bit_and a b) 0).0 e),
      )
      | inr e ↦ rw e refl
    ]

-- HasAccess holds exactly where every required right is among the granted ones.
pub has_access_iff :
    (ag required : ℕ)
    → (has_access ag required ≡ true) ↔ ((k : ℕ) → has_bit k required ≡ true → has_bit k ag ≡ true)
unfolding has_access
has_access_iff ag required = (every, all)
  where
    every :
        (bit_and ag required == required) ≡ true
        → (k : ℕ) → has_bit k required ≡ true
        → has_bit k ag ≡ true
    every h k e = ground (
      arith,
      e,
      has_bit-and ag required k,
      ap (has_bit k) ((==_iff (bit_and ag required) required).0 h),
    )

    all :
        ((k : ℕ) → has_bit k required ≡ true → has_bit k ag ≡ true)
        → (bit_and ag required == required) ≡ true
    all h = (==_iff (bit_and ag required) required).1 (
        same_bits (bit_and ag required + required) (bit_and ag required) required (omega arith)
          (omega arith) λ k. ground (arith, has_bit-and ag required k, h k))

with_right-bits :
    (flag : Bool) (bit grant k : ℕ)
    → has_bit k (with_right flag bit grant) ≡ has_bit k grant || (flag && has_bit k bit)
with_right-bits true bit grant k = has_bit-or grant bit k
with_right-bits false bit grant k = ground (arith)

-- NewAccessGrant sets the bits of its flags, and no other.
pub new_access_grant-bits :
    (view create edit delete admin : Bool) (k : ℕ)
    → has_bit k (new_access_grant view create edit delete admin) ≡ (
        (view && has_bit k 1)
        || (create && has_bit k 2)
        || (edit && has_bit k 4)
        || (delete && has_bit k 8)
        || (admin && has_bit k 16))
unfolding new_access_grant
new_access_grant-bits view create edit delete admin k = rw (with_right-bits admin 16 _ k) (
    rw (with_right-bits delete 8 _ k) (
      rw (with_right-bits edit 4 _ k) (
        rw (with_right-bits create 2 _ k)
          (rw (with_right-bits view 1 0 k) (ground (arith, has_bit-zero k))))))
