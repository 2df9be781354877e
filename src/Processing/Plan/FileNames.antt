-- ===== src/Processing/Plan/FileNames.antt =====
-- ReplaceExtension against filepath.Ext.
use mathlib.Core.List.{
  reverse, reverse-append, reverse-reverse, reverse-cons, append-nil, append_assoc,
}
use media_hub_oss.Prelude.{ℕ, ◌≡◌, refl, sym, ap, ◌∙◌, arith, true, false, [], ◌∷◌, ◌++◌, ◌==◌}
use media_hub_oss.Prelude.Text.{
  Text, is_empty, has_prefix, drop_prefix, trim_prefix, trim_suffix, ext_from, file_ext,
}
use media_hub_oss.Processing.Plan.{replace_extension}

-- A text with neither a dot nor a slash.
abbrev pub IsPlain : Text → Type 0
IsPlain [] = Unit {0}
IsPlain (c ∷ s) = ((c == b'.') ≡ false) × ((c == b'/') ≡ false) × IsPlain s

reverse-shift : (c : ℕ) (t acc : Text) → reverse t ++ c ∷ acc ≡ reverse (c ∷ t) ++ acc
reverse-shift c t acc =
    sym (ap (λ (l : Text). l ++ acc) (reverse-cons c t) ∙ append_assoc (reverse t) (c ∷ []) acc)

ext_from-dot :
    (acc t rest : Text) → IsPlain t → ext_from acc (t ++ b'.' ∷ rest) ≡ b'.' ∷ (reverse t ++ acc)
unfolding ext_from
ext_from-dot acc [] rest h = refl
ext_from-dot acc (c ∷ t) rest h =
    rw (h.1, h.0)
      (ext_from-dot (c ∷ acc) t rest h.2 ∙ ap (λ (l : Text). b'.' ∷ l) (reverse-shift c t acc))

IsPlain-append : (s t : Text) → IsPlain s → IsPlain t → IsPlain (s ++ t)
IsPlain-append [] t h k = k
IsPlain-append (c ∷ s) t h k = (h.0, h.1, IsPlain-append s t h.2 k)

IsPlain-reverse : (s : Text) → IsPlain s → IsPlain (reverse s)
IsPlain-reverse [] h = tt
IsPlain-reverse (c ∷ s) h =
    rw (reverse-cons c s)
      (IsPlain-append (reverse s) (c ∷ []) (IsPlain-reverse s h.2) (h.0, h.1, tt))

file_ext-append : (base s : Text) → IsPlain s → file_ext (base ++ b'.' ∷ s) ≡ b'.' ∷ s
unfolding file_ext
file_ext-append base s h =
    ap (ext_from []) (reversed ∙ append_assoc (reverse s) (b'.' ∷ []) (reverse base))
    ∙ ext_from-dot [] (reverse s) (reverse base) (IsPlain-reverse s h)
    ∙ ap (λ (l : Text). b'.' ∷ l) (append-nil (reverse (reverse s)) ∙ reverse-reverse s)
  where
    reversed : reverse (base ++ b'.' ∷ s) ≡ (reverse s ++ b'.' ∷ []) ++ reverse base
    reversed =
        reverse-append base (b'.' ∷ s) ∙ ap (λ (l : Text). l ++ reverse base) (reverse-cons b'.' s)

has_prefix-append : (p q : Text) → has_prefix (p ++ q) p ≡ true
unfolding has_prefix
has_prefix-append [] [] = refl
has_prefix-append [] (c ∷ q) = refl
has_prefix-append (c ∷ p) q = ground (arith, has_prefix-append p q)

drop_prefix-append : (p q : Text) → drop_prefix (p ++ q) p ≡ q
drop_prefix-append [] [] = refl
drop_prefix-append [] (c ∷ q) = refl
drop_prefix-append (c ∷ p) q = drop_prefix-append p q

trim_suffix-append : (base ext : Text) → trim_suffix (base ++ ext) ext ≡ base
unfolding trim_suffix trim_prefix
trim_suffix-append base ext =
    rw
      (
        reverse-append base ext,
        has_prefix-append (reverse ext) (reverse base),
        drop_prefix-append (reverse ext) (reverse base),
      )
      (reverse-reverse base)

is_empty-append : (base s : Text) (c : ℕ) → is_empty (base ++ c ∷ s) ≡ false
is_empty-append [] s c = refl
is_empty-append (x ∷ base) s c = refl

replace_extension_lem :
    (name new : Text)
    → is_empty name ≡ false
    → is_empty new ≡ false
    → replace_extension name new ≡ trim_suffix name (file_ext name) ++ new
unfolding replace_extension
replace_extension_lem name new full given = rw (full, given) refl

-- Replacing the extension of a file name by one made of a dot and a text without dots and slashes
-- gives a file name with exactly that extension; replacing it again by any other is the same as
-- replacing the first name's extension by that one.
pub replace_extension_ext :
    (name s new : Text)
    → is_empty name ≡ false
    → IsPlain s
    → is_empty new ≡ false
    → let renamed = replace_extension name (b'.' ∷ s) in
      (file_ext renamed ≡ b'.' ∷ s) × (replace_extension renamed new ≡ replace_extension name new)
replace_extension_ext name s new full plain given =
    let base = trim_suffix name (file_ext name) in
    let once = replace_extension_lem name (b'.' ∷ s) full refl in
    let ext = file_ext-append base s plain in
    (
      rw once ext,
      rw once (
          replace_extension_lem (base ++ b'.' ∷ s) new (is_empty-append base s b'.') given
          ∙ ap (λ (l : Text). l ++ new)
              (ap (trim_suffix (base ++ b'.' ∷ s)) ext ∙ trim_suffix-append base (b'.' ∷ s))
          ∙ sym (replace_extension_lem name new full given)),
    )
