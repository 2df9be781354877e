-- ===== src/Recovery/Integrity/Matching.antt =====
-- internal/cli/recovery/integritycheck.go: rows and files after the check.
use media_hub_oss.Prelude.{
  ℕ, ◌≡◌, refl, sym, ap, ◌∙◌, arith, Bool, true, false, not, ◌&&◌, ◌||◌, if◌then◌else◌, elem, List,
  [], Result, ok, err, Bool-cases, Option-cases, inl, inr, Option, none, some, ==_iff,
}
use media_hub_oss.Prelude.Text.{Text}
use media_hub_oss.Repository.Types.{Row}
use media_hub_oss.Repository.Table.{find_row}
use media_hub_oss.Repository.Queue.{Works}
use media_hub_oss.Storage.{Files, file_size, has_file, delete_multiple}
use media_hub_oss.Storage.Removal.{delete_multiple-other}
use media_hub_oss.Deletion.{Vault}
use media_hub_oss.Deletion.Settling.{is_ready}
use media_hub_oss.Recovery.Integrity.{
  IntegrityEvents, Scanned, check_missing_files, orphans, check_orphan_files, fix_integrity,
  integrity_check, check_page, nothing_scanned, valid_bytes,
}
use media_hub_oss.Recovery.Integrity.Scan.{
  any, misses, check_missing_files-ids, in_order, check_missing_files-all,
}
use media_hub_oss.Recovery.Integrity.Fixes.{
  elem-orphans, delete_multiple-gone, no_misses, find_row-any, is_found, is_found-any,
  fix_integrity-files, fix_integrity-rows, left-other, left_works,
}

check_orphan_files-orphans :
    (fails : Bool) (existing : List ℕ) (fs : Files) (found : List ℕ × ℕ)
    → check_orphan_files fails existing fs ≡ ok found
    → found.0 ≡ orphans existing fs
unfolding check_orphan_files
check_orphan_files-orphans true existing fs found h = absurd (cc h)
check_orphan_files-orphans false existing fs found h = ap orphans_of (sym h)
  where
    orphans_of : Result (List ℕ × ℕ) → List ℕ
    orphans_of (ok (is, n)) = is
    orphans_of (err e) = []

-- What holds of the check holds where it stops, and where it has corrected what its scan has found.
integrity_check-cases :
    (Q : Vault → Type 0) (ev : IntegrityEvents) (db_id : Text) (v : Vault)
    → Q v
    → ((c : Scanned) (found previews : List ℕ × ℕ)
        → check_missing_files ev db_id v ≡ ok c
        → found.0 ≡ orphans c.existing_ids v.files
        → Q (fix_integrity ev db_id c found previews v))
    → Q (integrity_check ev db_id v).1
unfolding integrity_check
integrity_check-cases Q ev db_id v stay fixed = scan (check_missing_files ev db_id v) refl
  where
    dry : (b : Bool) (w : Vault) → Q w → Q (if b then v else w)
    dry true w q = stay
    dry false w q = q

    walk_previews :
        (c : Scanned) (found : List ℕ × ℕ) (r : Result (List ℕ × ℕ))
        → check_missing_files ev db_id v ≡ ok c
        → found.0 ≡ orphans c.existing_ids v.files
        → let o : Result (Unit {0}) × Vault = elim r [
          | err e ↦ (err e, v)
          | ok previews ↦
              (ok tt, if ev.dry_run then v else fix_integrity ev db_id c found previews v)
        ] in
          Q o.1
    walk_previews c found (err e) h k = stay
    walk_previews c found (ok previews) h k = dry ev.dry_run _ (fixed c found previews h k)

    walk :
        (c : Scanned) (r : Result (List ℕ × ℕ))
        → check_missing_files ev db_id v ≡ ok c
        → check_orphan_files ev.walk_fails c.existing_ids v.files ≡ r
        → let o : Result (Unit {0}) × Vault = elim r [
          | err e ↦ (err e, v)
          | ok files ↦ elim (check_orphan_files ev.walk_previews_fails c.existing_ids v.previews) [
            | err e ↦ (err e, v)
            | ok previews ↦
                (ok tt, if ev.dry_run then v else fix_integrity ev db_id c files previews v)
          ]
        ] in
          Q o.1
    walk c (err e) h k = stay
    walk c (ok found) h k =
        walk_previews c found (check_orphan_files ev.walk_previews_fails c.existing_ids v.previews)
          h (check_orphan_files-orphans ev.walk_fails c.existing_ids v.files found k)

    scan :
        (m : Result Scanned)
        → check_missing_files ev db_id v ≡ m
        → let o : Result (Unit {0}) × Vault = elim m [
          | err e ↦ (err e, v)
          | ok c ↦ elim (check_orphan_files ev.walk_fails c.existing_ids v.files) [
            | err e ↦ (err e, v)
            | ok files ↦
                elim (check_orphan_files ev.walk_previews_fails c.existing_ids v.previews) [
                  | err e ↦ (err e, v)
                  | ok previews ↦
                      (ok tt, if ev.dry_run then v else fix_integrity ev db_id c files previews v)
                ]
          ]
        ] in
          Q o.1
    scan (err e) h = stay
    scan (ok c) h = walk c (check_orphan_files ev.walk_fails c.existing_ids v.files) h refl

-- An entry that has its file keeps its row and its file through the integrity check, whatever fails
-- on the way.
pub integrity_check-keeps :
    (ev : IntegrityEvents) (db_id : Text) (v : Vault) (j : ℕ) (r : Row)
    → find_row j v.store.rows ≡ some r
    → has_file j v.files ≡ true
    → (find_row j (integrity_check ev db_id v).1.store.rows ≡ some r)
      × (file_size j (integrity_check ev db_id v).1.files ≡ file_size j v.files)
integrity_check-keeps ev db_id v j r here there =
    integrity_check-cases
      (λ w. (find_row j w.store.rows ≡ some r) × (file_size j w.files ≡ file_size j v.files)) ev
      db_id v (here, refl) fixed
  where
    fixed :
        (c : Scanned) (found previews : List ℕ × ℕ)
        → check_missing_files ev db_id v ≡ ok c
        → found.0 ≡ orphans c.existing_ids v.files
        → (find_row j (fix_integrity ev db_id c found previews v).store.rows ≡ some r)
          × (file_size j (fix_integrity ev db_id c found previews v).files ≡ file_size j v.files)
    fixed c (files, bytes) previews h k =
        let (existing, missing) = check_missing_files-ids ev db_id v c j h in
        let known : elem j c.existing_ids ≡ true =
          existing ∙ sym (is_found-any j v.store.rows) ∙ ap is_found here in
        let no_orphan : elem j files ≡ false =
          ap (elem j) k ∙ elem-orphans c.existing_ids j v.files ∙ rw (there, known) refl in
        (
          ap (find_row j) (fix_integrity-rows ev db_id c v (files, bytes) previews)
              ∙ left-other ev db_id c v j (missing ∙ no_misses ev v.files j v.store.rows there)
              ∙ here,
          ap (file_size j) (fix_integrity-files ev db_id c v files bytes previews)
              ∙ delete_multiple-other ev.broken files j v.files no_orphan,
        )

abbrev pub has_size : Option ℕ → Bool
has_size none = false
has_size (some n) = true

abbrev pub mismatch : Option Row → Option ℕ → Bool
mismatch row size = (is_ready row && not (has_size size)) || (has_size size && not (is_found row))

module _ (ev : IntegrityEvents) (db_id : Text) (v : Vault) where
  -- Does a ready entry miss its file, or a file its entry?
  abbrev pub mismatched : ℕ → Vault → Bool
  mismatched j w = mismatch (find_row j w.store.rows) (file_size j w.files)

  fixed-matched :
      (c : Scanned) (found previews : List ℕ × ℕ) (j : ℕ)
      → Works ev.delete_missing db_id
      → ((i : ℕ) → ev.broken i ≡ false)
      → ((i : ℕ) → ev.stat_fails i ≡ false)
      → check_missing_files ev db_id v ≡ ok c
      → found.0 ≡ orphans c.existing_ids v.files
      → mismatched j (fix_integrity ev db_id c found previews v) ≡ false
  fixed-matched c (files, bytes) previews j w removes stats h k =
      let (existing, missing) = check_missing_files-ids ev db_id v c j h in
      let rows : find_row j (fix_integrity ev db_id c (files, bytes) previews v).store.rows
          ≡ (if any (misses ev v.files j) v.store.rows then none else find_row j v.store.rows) =
        ap (find_row j) (fix_integrity-rows ev db_id c v (files, bytes) previews)
        ∙ left_works ev db_id c v j w
        ∙ ap (λ b. if b then none else find_row j v.store.rows) missing in
      let kept : file_size j (fix_integrity ev db_id c (files, bytes) previews v).files
          ≡ (if is_found (find_row j v.store.rows) then file_size j v.files else none) =
        ap (file_size j) (fix_integrity-files ev db_id c v files bytes previews)
        ∙ files_left files (
            ap (elem j) k
            ∙ elem-orphans c.existing_ids j v.files
            ∙ ap (λ b. has_file j v.files && not b)
                (existing ∙ sym (is_found-any j v.store.rows))) in
      ap
        (λ (o : Option Row).
          mismatch o (file_size j (fix_integrity ev db_id c (files, bytes) previews v).files))
        rows
      ∙ ap
          (mismatch
            (if any (misses ev v.files j) v.store.rows then none else find_row j v.store.rows))
          kept
      ∙ consistent (find_row j v.store.rows) refl (file_size j v.files) refl
    where
      files_left :
          (is : List ℕ)
          → elem j is ≡ has_file j v.files && not (is_found (find_row j v.store.rows))
          → file_size j (delete_multiple ev.broken is v.files).1
            ≡ (if is_found (find_row j v.store.rows) then file_size j v.files else none)
      files_left is e = elim (Bool-cases (elem j is)) [
        | inl f ↦ delete_multiple-gone ev.broken is j v.files removes f ∙ ground (arith, e, f)
        | inr f ↦ elim (Option-cases (file_size j v.files)) [
          | inl g ↦ delete_multiple-other ev.broken is j v.files f ∙ ground (arith, g)
          | inr (n, g) ↦ delete_multiple-other ev.broken is j v.files f ∙ ground (arith, e, f, g)
        ]
      ]

      consistent :
          (row : Option Row)
          → find_row j v.store.rows ≡ row
          → (size : Option ℕ) → file_size j v.files ≡ size
          → mismatch
              (if any (misses ev v.files j) v.store.rows then none else row)
              (if is_found row then size else none)
            ≡ false
      consistent none e size f = ground arith
      consistent (some r) e (some n) f =
          let there : has_file j v.files ≡ true = ap has_size f in
          ground (arith, no_misses ev v.files j v.store.rows there)
      consistent (some r) e none f = elim (Bool-cases (any (misses ev v.files j) v.store.rows)) [
        | inl g ↦ ground (arith, g)
        | inr g ↦
            let (same, found) = find_row-any (misses ev v.files j) j v.store.rows r e g in
            let absent : has_file r.id v.files ≡ false =
              ap (λ i. has_file i v.files) same ∙ ap has_size f in
            ground (arith, g, found, absent, stats r.id, (==_iff j r.id).1 (sym same))
      ]

  -- After an integrity check that is no dry run, every ready entry has its file and every file has its
  -- entry, where the query of the scan, the state of each file, the walks, the deletion of entries and
  -- the removal of files work.
  pub integrity_check-matched :
      (j : ℕ)
      → ev.scan.is_valid_ulid db_id ≡ true
      → ev.scan.query_fails ≡ false
      → ev.walk_fails ≡ false
      → ev.walk_previews_fails ≡ false
      → ev.dry_run ≡ false
      → Works ev.delete_missing db_id
      → ((i : ℕ) → ev.broken i ≡ false)
      → ((i : ℕ) → ev.stat_fails i ≡ false)
      → mismatched j (integrity_check ev db_id v).1 ≡ false
  unfolding integrity_check check_orphan_files
  integrity_check-matched j valid reads walks walks_previews wet w removes stats =
      let all = check_missing_files-all ev db_id v valid reads in
      ap (λ (o : Result (Unit {0}) × Vault). mismatched j o.1) (opened all)
      ∙ fixed-matched (check_page ev v.files (in_order v.store.rows) nothing_scanned) _ _ j w
          removes stats all refl
    where
      seen : Scanned
      seen = check_page ev v.files (in_order v.store.rows) nothing_scanned

      after : Result Scanned → Result (Unit {0}) × Vault
      after m = elim m [
        | err e ↦ (err e, v)
        | ok c ↦ elim (check_orphan_files ev.walk_fails c.existing_ids v.files) [
          | err e ↦ (err e, v)
          | ok files ↦ elim (check_orphan_files ev.walk_previews_fails c.existing_ids v.previews) [
            | err e ↦ (err e, v)
            | ok previews ↦
                (ok tt, if ev.dry_run then v else fix_integrity ev db_id c files previews v)
          ]
        ]
      ]

      opened :
          check_missing_files ev db_id v ≡ ok seen
          → integrity_check ev db_id v ≡ (
            ok tt,
            fix_integrity ev db_id seen
                (orphans seen.existing_ids v.files, valid_bytes seen.existing_ids 0 v.files)
                (orphans seen.existing_ids v.previews, valid_bytes seen.existing_ids 0 v.previews)
                v,
          )
      opened all = ap after all ∙ rw (walks, walks_previews, wet) refl
