-- ===== src/Recovery/Integrity/Fixes.antt =====
-- internal/cli/recovery/integritycheck.go: what the corrections change.
use mathlib.Core.Path.{subst}
use media_hub_oss.Prelude.{
  ℕ, ◌≡◌, refl, sym, ap, ◌∙◌, arith, Bool, true, false, not, ◌&&◌, ◌==◌, if◌then◌else◌, elem, List,
  [], ◌∷◌, map, Result, ok, err, Bool-cases, inl, inr, Option, none, some, ==_iff,
}
use media_hub_oss.Prelude.Text.{Text}
use media_hub_oss.Prelude.Answers.{Answers, answer, refusal, answers}
use media_hub_oss.Repository.Types.{Env, DatabaseStats, DeletedEntryMeta, Row, Store}
use media_hub_oss.Repository.Table.{find_row, returned_rows}
use media_hub_oss.Repository.Table.Rows.{find_row-keep}
use media_hub_oss.Repository.Queue.{Works}
use media_hub_oss.Repository.Entries.{delete_entries, without_all, deleted_meta}
use media_hub_oss.Storage.{Files, file_size, has_file, remove_file, delete_multiple}
use media_hub_oss.Storage.Removal.{file_size-drop, delete_multiple-none}
use media_hub_oss.Deletion.{Vault, store_after}
use media_hub_oss.Recovery.Integrity.{
  IntegrityEvents, Scanned, orphans, removed_missing, removed_orphans, with_stats, fix_integrity,
  update_database_stats,
}
use media_hub_oss.Recovery.Integrity.Scan.{any, has_id, misses}

-- An orphan is a file whose id is none of the entries'.
pub elem-orphans :
    (existing : List ℕ) (j : ℕ) (fs : Files)
    → elem j (orphans existing fs) ≡ has_file j fs && not (elem j existing)
unfolding orphans file_size
elem-orphans existing j [] = refl
elem-orphans existing j ((i, n) ∷ fs) = elim (Bool-cases (i == j)) [
  | inl e ↦
      let same : i ≡ j = (==_iff i j).0 e in
      elim (Bool-cases (elem i existing)) [
        | inl f ↦ ground (arith, e, f, elem-orphans existing j fs, ap (λ k. elem k existing) same)
        | inr f ↦ ground (arith, e, f, ap (λ k. elem k existing) same)
      ]
  | inr e ↦ elim (Bool-cases (elem i existing)) [
    | inl f ↦ ground (arith, e, f, elem-orphans existing j fs)
    | inr f ↦ ground (arith, e, f, elem-orphans existing j fs)
  ]
]

remove_file_gone :
    (broken : ℕ → Bool) (i : ℕ) (fs : Files)
    → broken i ≡ false
    → file_size i (remove_file broken i fs).1 ≡ none
unfolding remove_file
remove_file_gone broken i fs works = ground (arith, works, file_size-drop i i fs)

pub delete_multiple-gone :
    (broken : ℕ → Bool) (ids : List ℕ) (j : ℕ) (fs : Files)
    → ((i : ℕ) → broken i ≡ false)
    → elem j ids ≡ true
    → file_size j (delete_multiple broken ids fs).1 ≡ none
unfolding delete_multiple
delete_multiple-gone broken [] j fs works h = cc h
delete_multiple-gone broken (i ∷ ids) j fs works h = elim (Bool-cases (j == i)) [
  | inl e ↦ delete_multiple-none broken ids j (remove_file broken i fs).1 (
      subst (λ k. file_size k (remove_file broken i fs).1 ≡ none) (sym ((==_iff j i).0 e))
        (remove_file_gone broken i fs (works i)))
  | inr e ↦
      delete_multiple-gone broken ids j (remove_file broken i fs).1 works (ground (arith, h, e))
]

-- A file that is there belongs to no missing entry.
pub no_misses :
    (ev : IntegrityEvents) (files : Files) (j : ℕ) (rows : List Row)
    → has_file j files ≡ true
    → any (misses ev files j) rows ≡ false
no_misses ev files j [] h = refl
no_misses ev files j (r ∷ rows) h = elim (Bool-cases (j == r.id)) [
  | inl e ↦
      let there : has_file r.id files ≡ true =
        subst (λ k. has_file k files ≡ true) ((==_iff j r.id).0 e) h in
      rw there (ground (arith, no_misses ev files j rows h))
  | inr e ↦ ground (arith, e, no_misses ev files j rows h)
]

-- The row that a key finds is one of the rows.
pub find_row-any :
    (p : Row → Bool) (j : ℕ) (rows : List Row) (r : Row)
    → find_row j rows ≡ some r
    → any p rows ≡ false
    → (r.id ≡ j) × (p r ≡ false)
unfolding find_row
find_row-any p j [] r h q = absurd (cc h)
find_row-any p j (x ∷ rows) r h q = elim (Bool-cases (x.id == j)) [
  | inl e ↦
      let same : x ≡ r = ground (arith, h, e) in
      (ap (λ (y : Row). y.id) (sym same) ∙ (==_iff x.id j).0 e, ap p (sym same) ∙ ground (arith, q))
  | inr e ↦ find_row-any p j rows r (ground (arith, h, e)) (ground (arith, q))
]

abbrev pub is_found : Option Row → Bool
is_found none = false
is_found (some r) = true

pub is_found-any : (j : ℕ) (rows : List Row) → is_found (find_row j rows) ≡ any (has_id j) rows
unfolding find_row
is_found-any j [] = refl
is_found-any j (r ∷ rows) = elim (Bool-cases (r.id == j)) [
  | inl e ↦ ground (arith, e)
  | inr e ↦ ground (arith, e, is_found-any j rows)
]

without_all-row :
    (is : List ℕ) (s : Store) (j : ℕ)
    → find_row j (without_all is s).rows ≡ (if elem j is then none else find_row j s.rows)
unfolding without_all
without_all-row is s j = find_row-keep is j s.rows

delete_entries-store :
    (env : Env) (db_id : Text) (i : ℕ) (is : List ℕ) (s : Store)
    → Answers
        (λ (a : List DeletedEntryMeta × Store). a.1 ≡ without_all (i ∷ is) s)
        (delete_entries env db_id (i ∷ is) s)
unfolding delete_entries
delete_entries-store env db_id i is s = search (answers, refl) depth 16

delete_entries-works :
    (env : Env) (db_id : Text) (i : ℕ) (is : List ℕ) (s : Store)
    → Works env db_id
    → delete_entries env db_id (i ∷ is) s
      ≡ ok (map deleted_meta (returned_rows (i ∷ is) s.rows), without_all (i ∷ is) s)
unfolding delete_entries
delete_entries-works env db_id i is s w = ground (arith, w)

-- What the corrections do to the rows and the files.
module _ (ev : IntegrityEvents) (db_id : Text) (c : Scanned) (v : Vault) where
  abbrev pub left : Store
  left = (removed_missing ev db_id c.missing_ids v).store

  with_stats-files :
      (stats : DatabaseStats) (w : Vault) → (with_stats ev db_id stats w).files ≡ w.files
  unfolding update_database_stats
  with_stats-files stats w = ground arith

  with_stats-rows :
      (stats : DatabaseStats) (w : Vault) → (with_stats ev db_id stats w).store.rows ≡ w.store.rows
  unfolding update_database_stats
  with_stats-rows stats w = ground arith

  removed_missing-files : (is : List ℕ) → (removed_missing ev db_id is v).files ≡ v.files
  removed_missing-files [] = refl
  removed_missing-files (i ∷ is) = refl

  pub fix_integrity-files :
      (files : List ℕ) (bytes : ℕ) (previews : List ℕ × ℕ)
      → (fix_integrity ev db_id c (files, bytes) previews v).files
        ≡ (delete_multiple ev.broken files v.files).1
  unfolding fix_integrity
  fix_integrity-files files bytes (previews, size) =
      with_stats-files _
        (removed_orphans ev files previews (removed_missing ev db_id c.missing_ids v))
      ∙ ap (λ fs. (delete_multiple ev.broken files fs).1) (removed_missing-files c.missing_ids)

  pub fix_integrity-rows :
      (files previews : List ℕ × ℕ)
      → (fix_integrity ev db_id c files previews v).store.rows ≡ left.rows
  unfolding fix_integrity
  fix_integrity-rows (files, bytes) (previews, size) =
      with_stats-rows _
        (removed_orphans ev files previews (removed_missing ev db_id c.missing_ids v))

  -- The rows that stay, whether the deletion works or not.
  pub left-other :
      (j : ℕ) → elem j c.missing_ids ≡ false → find_row j left.rows ≡ find_row j v.store.rows
  left-other j h = cases c.missing_ids h
    where
      after :
          (is : List ℕ) (r : Result (List DeletedEntryMeta × Store))
          → Answers (λ (a : List DeletedEntryMeta × Store). a.1 ≡ without_all is v.store) r
          → elem j is ≡ false
          → find_row j (store_after v.store r).rows ≡ find_row j v.store.rows
      after is (err e) refusal h = refl
      after is (ok (metas, s)) (answer same) h =
          ap (λ (t : Store). find_row j t.rows) same ∙ without_all-row is v.store j ∙ rw h refl

      cases :
          (is : List ℕ)
          → elem j is ≡ false
          → find_row j (removed_missing ev db_id is v).store.rows ≡ find_row j v.store.rows
      cases [] h = refl
      cases (i ∷ is) h =
          after (i ∷ is) (delete_entries ev.delete_missing db_id (i ∷ is) v.store)
            (delete_entries-store ev.delete_missing db_id i is v.store) h

  -- Where it works, the missing ones go.
  pub left_works :
      (j : ℕ)
      → Works ev.delete_missing db_id
      → find_row j left.rows ≡ (if elem j c.missing_ids then none else find_row j v.store.rows)
  left_works j w = cases c.missing_ids
    where
      cases :
          (is : List ℕ)
          → find_row j (removed_missing ev db_id is v).store.rows
            ≡ (if elem j is then none else find_row j v.store.rows)
      cases [] = refl
      cases (i ∷ is) =
          ap
            (λ (r : Result (List DeletedEntryMeta × Store)).
              find_row j (store_after v.store r).rows)
            (delete_entries-works ev.delete_missing db_id i is v.store w)
          ∙ without_all-row (i ∷ is) v.store j
