-- ===== src/Parsers/Matching.antt =====
-- What the two regular expressions match.
use media_hub_oss.Prelude.{ℕ, ◌≡◌, refl, arith, Bool, true, false, ◌++◌, some, [], ◌∷◌}
use media_hub_oss.Prelude.Text.{Text, is_empty}
use media_hub_oss.Prelude.Decimal.{is_digit, all_digits}
use media_hub_oss.Parsers.{is_blank, is_letter, all_of, span, match_size}

-- Does the text start with a character that passes?
abbrev pub starts : (ℕ → Bool) → Text → Bool
starts p [] = false
starts p (c ∷ s) = p c

span-append :
    (p : ℕ → Bool) (s t : Text) → all_of p s ≡ true → starts p t ≡ false → span p (s ++ t) ≡ (s, t)
span-append p [] [] h k = refl
span-append p [] (c ∷ t) h k = ground (arith, h, k)
span-append p (d ∷ s) t h k = ground (arith, h, k, span-append p s t)

digits_all : (s : Text) → all_digits s ≡ true → all_of is_digit s ≡ true
digits_all [] h = refl
digits_all (c ∷ s) h = ground (arith, h, digits_all s)

no_blank : (u : Text) → all_of is_letter u ≡ true → starts is_blank u ≡ false
unfolding is_letter is_blank
no_blank [] h = refl
no_blank (c ∷ u) h = ground (arith, h)

no_digit :
    (sp u : Text)
    → all_of is_blank sp ≡ true
    → all_of is_letter u ≡ true
    → starts is_digit (sp ++ u) ≡ false
unfolding is_letter is_blank is_digit
no_digit [] [] h k = refl
no_digit [] (c ∷ u) h k = ground (arith, k)
no_digit (c ∷ sp) u h k = ground (arith, h)

pub match_size_complete :
    (d sp u : Text)
    → is_empty d ≡ false
    → all_digits d ≡ true
    → all_of is_blank sp ≡ true
    → all_of is_letter u ≡ true
    → match_size (d ++ (sp ++ u)) ≡ some (d, u)
unfolding match_size
match_size_complete d sp u e h b k =
    rw (span-append is_digit d (sp ++ u) (digits_all d h) (no_digit sp u b k))
      (rw (span-append is_blank sp u b (no_blank u k)) (ground (arith, e, k)))
