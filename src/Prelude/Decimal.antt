-- ===== src/Prelude/Decimal.antt =====
-- Numbers in decimal: fmt's `%d` of a natural number, and the number that digits spell.
use Prim.Native.Nat.{ℕ, zero, suc, ◌+◌, ◌-◌, ◌*◌, ◌/◌, ◌%◌, ◌<◌}
use mathlib.Core.Path.{◌≡◌, refl, ◌∙◌, sym, ap}
use mathlib.Core.Bool.{Bool, true, false, ◌&&◌}
use mathlib.Core.List.{[], ◌∷◌, ◌++◌}
use mathlib.Core.Logic.{dite}
use mathlib.Core.WellFounded.{Acc}
use native.Mathlib.Decide.{dec_lt}
use native.Mathlib.Omega.{arith}
use media_hub_oss.Prelude.Tests.{leb}
use media_hub_oss.Prelude.Text.{Text, is_empty}

below : (k n : ℕ) → n < k → Acc ◌<◌ n
below zero n h = absurd (omega arith)
below (suc k) n h = Acc.intro n λ m lt. below k m (omega arith)

tenth_lt : (n : ℕ) → ¬ (n < 10) → n / 10 < n
tenth_lt n h = omega arith

-- The digits of the tenth part, and the last one.
decimal_from : (n : ℕ) → Acc ◌<◌ n → Text
decimal_from n (Acc.intro _ smaller) =
    dite (dec_lt n 10) (λ _. (b'0' + n) ∷ [])
      λ h. decimal_from (n / 10) (smaller (n / 10) (tenth_lt n h)) ++ ((b'0' + n % 10) ∷ [])

unfoldable pub decimal : ℕ → Text
unfolding decimal_from below dec_lt tenth_lt
decimal n = decimal_from n (below (suc n) n (omega arith))

unfoldable pub is_digit : ℕ → Bool
is_digit c = leb b'0' c && leb c b'9'

abbrev pub all_digits : Text → Bool
all_digits [] = true
all_digits (c ∷ s) = is_digit c && all_digits s

-- The number that digits spell.
abbrev pub spelled : ℕ → Text → ℕ
spelled n [] = n
spelled n (c ∷ s) = spelled (n * 10 + (c - b'0')) s

decimal_example : decimal 2047 ≡ b'2' ∷ b'0' ∷ b'4' ∷ b'7' ∷ []
unfolding decimal
decimal_example = refl

spelled-append : (s t : Text) (n : ℕ) → spelled n (s ++ t) ≡ spelled (spelled n s) t
spelled-append [] t n = refl
spelled-append (c ∷ s) t n = spelled-append s t (n * 10 + (c - b'0'))

all_digits-append :
    (s : Text) (c : ℕ) → all_digits s ≡ true → is_digit c ≡ true → all_digits (s ++ (c ∷ [])) ≡ true
all_digits-append [] c h k = ground (arith, h, k)
all_digits-append (d ∷ s) c h k = ground (arith, h, k, all_digits-append s c)

-- By the case of one digit and the case of more.
decimal_cases :
    (P : Text → Type 0) (n : ℕ) (smaller : (m : ℕ) → m < n → Acc ◌<◌ m)
    → (n < 10 → P ((b'0' + n) ∷ []))
    → ((h : ¬ (n < 10))
        → P (decimal_from (n / 10) (smaller (n / 10) (tenth_lt n h)) ++ ((b'0' + n % 10) ∷ [])))
    → P (decimal_from n (Acc.intro n smaller))
unfolding decimal_from
decimal_cases P n smaller one more = split (dec_lt n 10)
  where
    split :
        (d : Dec (n < 10))
        → P (
            dite d
              (λ _. (b'0' + n) ∷ [])
              λ h.
                decimal_from (n / 10) (smaller (n / 10) (tenth_lt n h)) ++ ((b'0' + n % 10) ∷ []))
    split (yes h) = one h
    split (no h) = more h

spelled-decimal_from : (n : ℕ) (w : Acc ◌<◌ n) → spelled 0 (decimal_from n w) ≡ n
spelled-decimal_from n (Acc.intro _ smaller) =
    decimal_cases (λ s. spelled 0 s ≡ n) n smaller (λ h. omega arith)
      λ h.
        let ih = spelled-decimal_from (n / 10) (smaller (n / 10) (tenth_lt n h)) in
        rw
          (spelled-append (decimal_from (n / 10) (smaller (n / 10) (tenth_lt n h)))
            ((b'0' + n % 10) ∷ []) 0)
          (rw ih (omega arith))

all_digits-decimal_from : (n : ℕ) (w : Acc ◌<◌ n) → all_digits (decimal_from n w) ≡ true
unfolding is_digit
all_digits-decimal_from n (Acc.intro _ smaller) =
    decimal_cases (λ s. all_digits s ≡ true) n smaller (λ h. ground arith)
      λ h.
        all_digits-append (decimal_from (n / 10) (smaller (n / 10) (tenth_lt n h))) (b'0' + n % 10)
          (all_digits-decimal_from (n / 10) (smaller (n / 10) (tenth_lt n h))) (ground arith)

decimal_from-ne-nil : (n : ℕ) (w : Acc ◌<◌ n) → is_empty (decimal_from n w) ≡ false
decimal_from-ne-nil n (Acc.intro _ smaller) =
    decimal_cases (λ s. is_empty s ≡ false) n smaller (λ h. refl)
      λ h. last (decimal_from (n / 10) (smaller (n / 10) (tenth_lt n h))) (b'0' + n % 10)
  where
    last : (s : Text) (c : ℕ) → is_empty (s ++ (c ∷ [])) ≡ false
    last [] c = refl
    last (d ∷ s) c = refl

pub spelled-decimal : (n : ℕ) → spelled 0 (decimal n) ≡ n
unfolding decimal
spelled-decimal n = spelled-decimal_from n (below (suc n) n (omega arith))

pub all_digits-decimal : (n : ℕ) → all_digits (decimal n) ≡ true
unfolding decimal
all_digits-decimal n = all_digits-decimal_from n (below (suc n) n (omega arith))

pub decimal-ne-nil : (n : ℕ) → is_empty (decimal n) ≡ false
unfolding decimal
decimal-ne-nil n = decimal_from-ne-nil n (below (suc n) n (omega arith))

pub decimal-injective : (a b : ℕ) → decimal a ≡ decimal b → a ≡ b
decimal-injective a b h = sym (spelled-decimal a) ∙ ap (spelled 0) h ∙ spelled-decimal b
