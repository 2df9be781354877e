-- ===== src/Usernames.antt =====
-- internal/repository/oidc.go: the user name of a new OIDC account. The search for a free name has
-- no bound in the source; it has fuel here.
pub mod Free
use media_hub_oss.Prelude.{
  ℕ, zero, suc, Bool, true, false, ◌==◌, if◌then◌else◌, Option, none, some, List, [], ◌∷◌, ◌++◌,
}
use media_hub_oss.Prelude.Text.{Text, codes, one_of, is_empty, trim_space}
use media_hub_oss.Prelude.Decimal.{decimal}

-- `strings.SplitN(s, "@", 2)[0]`
abbrev pub before_at : Text → Text
before_at [] = []
before_at (c ∷ s) = let rest = before_at s in if c == b'@' then [] else c ∷ rest

unfoldable pub extract_username_base : Text → Text → Text
unfolding trim_space
extract_username_base preferred email =
    let name = trim_space preferred in
    let local_part = trim_space (before_at (trim_space email)) in
    if is_empty name then (if is_empty local_part then codes "user" else local_part) else name

-- `fmt.Sprintf("%s_%d", base, i)`
unfoldable pub candidate : Text → ℕ → Text
unfolding decimal
candidate base i = base ++ (b'_' ∷ decimal i)

-- The loop, from `i` on.
unfoldable pub search_from : ℕ → Text → ℕ → List Text → Option Text
unfolding candidate
search_from zero base i existing = none
search_from (suc fuel) base i existing =
    let later = search_from fuel base (suc i) existing in
    if one_of (candidate base i) existing then later else some (candidate base i)

unfoldable pub resolve_unique_username : ℕ → Text → List Text → Option Text
unfolding search_from
resolve_unique_username fuel base existing =
    if one_of base existing then search_from fuel base 2 existing else some base
