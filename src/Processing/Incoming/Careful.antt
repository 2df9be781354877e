-- ===== src/Processing/Incoming/Careful.antt =====
-- Changes of the vault that leave every existing entry alone, serve no entry without its file, and
-- leave none behind as processing.
use mathlib.Core.Path.{subst}
use media_hub_oss.Prelude.{ℕ, ◌≡◌, refl, sym, ◌∙◌, true, ◌==◌, none, some, arith, Bool-cases}
use media_hub_oss.Repository.Types.{Row}
use media_hub_oss.Repository.Effects.{status_in}
use media_hub_oss.Storage.{has_file, file_size}
use media_hub_oss.Deletion.{Vault}
use media_hub_oss.Processing.Pipeline.Keeping.{is_served, is_processing, row_of}
use media_hub_oss.Processing.Pipeline.Settling.{Settles, Changed, same, fresh}

-- Every entry that is ready or queued has its file.
abbrev pub IsServed : Vault → Type 0
IsServed v = (j : ℕ) → status_in is_served (row_of j v) ≡ true → has_file j v.files ≡ true

pub record IsCareful (Fine : Type 0) (v w : Vault) : Type 0 where
  pub rows : (j : ℕ) (r : Row) → row_of j v ≡ some r → row_of j w ≡ some r
  pub files : (j : ℕ) (r : Row) → row_of j v ≡ some r → file_size j w.files ≡ file_size j v.files
  pub served : IsServed v → IsServed w
  pub settled :
      Fine
      → (j : ℕ) → status_in is_processing (row_of j w) ≡ true
      → status_in is_processing (row_of j v) ≡ true

module _ {Fine : Type 0} where
  pub IsCareful-refl : (v : Vault) → IsCareful Fine v v
  IsCareful-refl v = record {
    rows = λ j r e. e;
    files = λ j r e. refl;
    served = λ s. s;
    settled = λ fine j e. e;
  }

  pub IsCareful-trans :
      {u v w : Vault} → IsCareful Fine u v → IsCareful Fine v w → IsCareful Fine u w
  IsCareful-trans a b = record {
    rows = λ j r e. b.rows j r (a.rows j r e);
    files = λ j r e. b.files j r (a.rows j r e) ∙ a.files j r e;
    served = λ s. b.served (a.served s);
    settled = λ fine j e. a.settled fine j (b.settled fine j e);
  }

  fresh-IsCareful :
      (i : ℕ) (v w : Vault) → row_of i v ≡ none → Settles Fine v i w → IsCareful Fine v w
  unfolding has_file
  fresh-IsCareful i v w absent s = record {
    rows = λ j r e. ground (arith, absent, e, s.touched.rows j, Bool-cases (i == j));
    files = λ j r e. ground (arith, absent, e, s.touched.files j, Bool-cases (i == j));
    served = λ k j e.
        ground (arith, e, s.stored, k j, s.touched.rows j, s.touched.files j, Bool-cases (i == j));
    settled = λ fine j e. ground (arith, e, s.settled fine, s.touched.rows j, Bool-cases (i == j));
  }

  pub Changed-IsCareful : {v w : Vault} → Changed Fine v w → IsCareful Fine v w
  Changed-IsCareful {v} {w} (same e) = subst (λ u. IsCareful Fine v u) (sym e) (IsCareful-refl v)
  Changed-IsCareful {v} {w} (fresh i absent s) = fresh-IsCareful i v w absent s
