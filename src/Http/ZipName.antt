-- ===== src/Http/ZipName.antt =====
-- sanitizeZipEntryName of internal/httpserver/entryhandler/utils_http.go: names in an export archive.
use media_hub_oss.Prelude.{
  ℕ, ◌≡◌, arith, refl, Bool, true, false, [], ◌∷◌, ◌==◌, if◌then◌else◌, elem,
}
use media_hub_oss.Prelude.Text.{Text, codes, one_of}

-- strings.ReplaceAll of one character by another.
unfoldable pub replace_code : ℕ → ℕ → Text → Text
replace_code old new [] = []
replace_code old new (c ∷ s) = (if c == old then new else c) ∷ replace_code old new s

unfoldable pub sanitize_zip_entry_name : Text → Text
unfolding replace_code
sanitize_zip_entry_name name =
    let flat = replace_code b'/' b'_' (replace_code b'\\' b'_' name) in
    if one_of flat (codes "" ∷ codes "." ∷ codes ".." ∷ []) then codes "unnamed" else flat

replace_code_gone :
    (old new : ℕ) (s : Text) → (old == new) ≡ false → elem old (replace_code old new s) ≡ false
unfolding replace_code
replace_code_gone old new [] h = refl
replace_code_gone old new (c ∷ s) h = ground (arith, replace_code_gone old new s)

replace_code_absent :
    (c old new : ℕ) (s : Text)
    → (c == new) ≡ false
    → elem c s ≡ false
    → elem c (replace_code old new s) ≡ false
unfolding replace_code
replace_code_absent c old new [] h k = refl
replace_code_absent c old new (d ∷ s) h k = ground (arith, replace_code_absent c old new s)

-- A single path segment that stays where it is extracted.
abbrev pub IsSegment : Text → Type 0
IsSegment s =
    (elem b'/' s ≡ false)
    × (elem b'\\' s ≡ false)
    × (one_of s (codes "" ∷ codes "." ∷ codes ".." ∷ []) ≡ false)

chosen-IsSegment :
    (flat : Text) (b : Bool)
    → one_of flat (codes "" ∷ codes "." ∷ codes ".." ∷ []) ≡ b
    → elem b'/' flat ≡ false
    → elem b'\\' flat ≡ false
    → IsSegment (if b then codes "unnamed" else flat)
chosen-IsSegment flat true e h k = (refl, refl, refl)
chosen-IsSegment flat false e h k = (h, k, e)

-- A name in an export archive is a single path segment, whatever the entry was called: it holds
-- neither a slash nor a backslash, and it is not empty, "." or "..".
pub sanitize_zip_entry_name-IsSegment : (name : Text) → IsSegment (sanitize_zip_entry_name name)
unfolding sanitize_zip_entry_name
sanitize_zip_entry_name-IsSegment name =
    chosen-IsSegment (replace_code b'/' b'_' (replace_code b'\\' b'_' name)) _ refl
      (replace_code_gone b'/' b'_' (replace_code b'\\' b'_' name) refl)
      (replace_code_absent b'\\' b'/' b'_' (replace_code b'\\' b'_' name) refl
        (replace_code_gone b'\\' b'_' name refl))
