-- ===== src/Recovery/Pages.antt =====
-- The scan of recovery reads a page for each unit of fuel, and comes to its last page in time.
use mathlib.Core.Path.{subst}
use media_hub_oss.Prelude.{
  sym, ℕ, zero, suc, ◌+◌, ◌*◌, ◌≤◌, ◌≡◌, ◌≢◌, refl, arith, ◌∙◌, ap, Bool, true, false, List, [],
  ◌∷◌, length, filter, take, drop, if◌then◌else◌, Result, ok, err,
}
use media_hub_oss.Prelude.Text.{Text, codes, to_lower, lower_code}
use media_hub_oss.Repository.Types.{Row, Store, Env}
use media_hub_oss.Repository.Queue.{Works, is_ok}
use media_hub_oss.Repository.Query.{
  QueryOptions, validate, insert_by, order_by, ordering, selected, select_rows, get_entries,
}
use media_hub_oss.Deletion.{Vault}
use media_hub_oss.Recovery.{
  RecoveryEvents, Corrections, scan_page, page_size, page_options, no_corrections, scan_from,
  entry_status_correction, apply_corrections,
}

length-insert_by :
    (before : Row → Row → Bool) (n : Row) (rs : List Row)
    → length (insert_by before n rs) ≡ suc (length rs)
unfolding insert_by
length-insert_by before n [] = refl
length-insert_by before n (r ∷ rs) = ground (arith, length-insert_by before n rs)

pub length-order_by :
    (before : Row → Row → Bool) (rs : List Row) → length (order_by before rs) ≡ length rs
unfolding order_by
length-order_by before [] = refl
length-order_by before (r ∷ rs) =
    length-insert_by before r (order_by before rs) ∙ ap suc (length-order_by before rs)

length-filter : (p : Row → Bool) (rs : List Row) → length (filter p rs) ≤ length rs
length-filter p [] = omega arith
length-filter p (r ∷ rs) = ground (arith, length-filter p rs)

drop_all : (n : ℕ) (rs : List Row) → length rs ≤ n → drop n rs ≡ []
drop_all zero [] h = refl
drop_all zero (r ∷ rs) h = absurd (omega arith)
drop_all (suc n) [] h = refl
drop_all (suc n) (r ∷ rs) h = drop_all n rs (omega arith)

-- The options of a page, as GetEntries validates them.
abbrev pub valid_options : ℕ → QueryOptions
valid_options offset = record (page_options offset) { time_field = codes "timestamp" }

get_entries-page :
    (env : Env) (db_id : Text) (offset : ℕ) (s : Store)
    → Works env db_id
    → get_entries env db_id (page_options offset) s ≡ ok (select_rows (valid_options offset) s.rows)
unfolding get_entries validate to_lower lower_code
get_entries-page env db_id offset s w = rw (w.valid) (rw (w.queries) refl)

-- A page from behind the last row is empty.
last_page :
    (offset : ℕ) (rows : List Row)
    → length rows ≤ offset
    → select_rows (valid_options offset) rows ≡ []
unfolding select_rows
last_page offset rows h = ap (take page_size) (
    drop_all offset
      (order_by (ordering (valid_options offset)) (filter (selected (valid_options offset)) rows))
      (omega (
        arith,
        length-order_by (ordering (valid_options offset))
            (filter (selected (valid_options offset)) rows),
        length-filter (selected (valid_options offset)) rows,
      )))

module _ (ev : RecoveryEvents) (db_id : Text) (v : Vault) (w : Works ev.scan db_id) where
  abbrev page : ℕ → List Row
  page offset = select_rows (valid_options offset) v.store.rows

  -- One round, on the page that it reads.
  round :
      (fuel offset : ℕ) (c : Corrections) (rows : List Row)
      → page offset ≡ rows
      → (rows ≢ []
          → (d : Corrections) → is_ok (scan_from fuel ev db_id v (offset + page_size) d) ≡ true)
      → is_ok (scan_from (suc fuel) ev db_id v offset c) ≡ true
  unfolding scan_from
  round fuel offset c rows e more =
      subst (λ (p : Result (List Row)). is_ok (reads p) ≡ true)
        (sym (get_entries-page ev.scan db_id offset v.store w ∙ ap ok e)) (ends rows more)
    where
      reads : Result (List Row) → Result Corrections
      reads p = elim p [
        | err e ↦ err e
        | ok [] ↦ ok c
        | ok (r ∷ rows) ↦
            scan_from fuel ev db_id v (offset + page_size) (scan_page ev v.files (r ∷ rows) c)
      ]

      ends :
          (rs : List Row)
          → (rs ≢ []
              → (d : Corrections) → is_ok (scan_from fuel ev db_id v (offset + page_size) d) ≡ true)
          → is_ok (reads (ok rs)) ≡ true
      ends [] m = refl
      ends (r ∷ rs) m = m (λ h. cc h) (scan_page ev v.files (r ∷ rs) c)

  scan_from_ends :
      (fuel offset : ℕ) (c : Corrections)
      → length v.store.rows ≤ offset + fuel * page_size
      → is_ok (scan_from (suc fuel) ev db_id v offset c) ≡ true
  scan_from_ends zero offset c h =
      round zero offset c (page offset) refl
        λ some_row. absurd (some_row (last_page offset v.store.rows (omega arith)))
  scan_from_ends (suc fuel) offset c h =
      round (suc fuel) offset c (page offset) refl
        λ some_row d. scan_from_ends fuel (offset + page_size) d (omega arith)

  -- Where its queries work, the scan of recovery comes to its end, however many entries there are.
  pub entry_status_correction_ends : is_ok (entry_status_correction ev db_id v).0 ≡ true
  unfolding entry_status_correction
  entry_status_correction_ends =
      split ev.stats_fails (scan_from (suc (length v.store.rows)) ev db_id v 0 no_corrections)
        (scan_from_ends (length v.store.rows) 0 no_corrections (omega arith))
    where
      split :
          (b : Bool) (r : Result Corrections)
          → is_ok r ≡ true
          → let o : Result (Unit {0}) × Vault = if b then (ok tt, v) else elim r [
            | err e ↦ (err e, v)
            | ok c ↦ (ok tt, if ev.dry_run then v else apply_corrections ev db_id c v)
          ] in
            is_ok o.0 ≡ true
      split true r h = refl
      split false (ok c) h = refl
      split false (err e) h = cc h
