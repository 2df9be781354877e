-- ===== src/Recovery/Integrity/Scan.antt =====
-- internal/cli/recovery/integritycheck.go: the pages of checkMissingFiles are the whole table.
use media_hub_oss.Prelude.{
  ℕ, zero, suc, ◌+◌, ◌*◌, ◌-◌, ◌≤◌, ◌<◌, ◌≡◌, ◌≢◌, refl, sym, ap, ◌∙◌, arith, Bool, true, false,
  ◌&&◌, ◌||◌, ◌==◌, elem, List, [], ◌∷◌, ◌++◌, length, filter, take, drop, Result, ok, err, Error,
  Bool-cases, inl, inr,
}
use media_hub_oss.Prelude.Text.{Text, to_lower, lower_code}
use media_hub_oss.Repository.Types.{Row}
use media_hub_oss.Repository.Query.{
  validate, insert_by, order_by, ordering, selected, select_rows, get_entries,
}
use media_hub_oss.Storage.{Files}
use media_hub_oss.Deletion.{Vault}
use media_hub_oss.Recovery.{page_size, page_options}
use media_hub_oss.Recovery.Pages.{valid_options, length-order_by}
use media_hub_oss.Recovery.Integrity.{
  IntegrityEvents, Scanned, is_missing, check_entry, check_page, check_from, nothing_scanned,
  check_missing_files,
}

-- The rows in the order of the scan.
abbrev pub in_order : List Row → List Row
in_order rows = order_by (ordering (valid_options 0)) rows

filter_all : (offset : ℕ) (rows : List Row) → filter (selected (valid_options offset)) rows ≡ rows
filter_all offset [] = refl
filter_all offset (r ∷ rows) = ap (λ (rs : List Row). r ∷ rs) (filter_all offset rows)

drop_none : (n : ℕ) → drop {A = Row} n [] ≡ []
drop_none zero = refl
drop_none (suc n) = refl

drop_more : (n k : ℕ) (xs : List Row) → drop k (drop n xs) ≡ drop (n + k) xs
drop_more zero k xs = ap (λ m. drop m xs) (omega arith)
drop_more (suc n) k [] = drop_none k ∙ sym (drop_none (suc n + k))
drop_more (suc n) k (x ∷ xs) =
    drop_more n k xs ∙ ap (λ m. drop m (x ∷ xs)) {x = suc (n + k)} {y = suc n + k} (omega arith)

length-drop : (n : ℕ) (xs : List Row) → length (drop n xs) ≡ length xs - n
length-drop zero xs = omega arith
length-drop (suc n) [] = omega arith
length-drop (suc n) (x ∷ xs) = omega (arith, length-drop n xs)

take_none : (n : ℕ) (xs : List Row) → take (suc n) xs ≡ [] → xs ≡ []
take_none n [] h = refl
take_none n (x ∷ xs) h = cc h

module _ (ev : IntegrityEvents) (db_id : Text) (v : Vault) where
  page_read :
      (offset : ℕ)
      → ev.scan.is_valid_ulid db_id ≡ true
      → ev.scan.query_fails ≡ false
      → get_entries ev.scan db_id (page_options offset) v.store
        ≡ ok (take page_size (drop offset (in_order v.store.rows)))
  unfolding get_entries validate select_rows to_lower lower_code
  page_read offset valid works = rw (valid) (
      rw (works) (
        ap
          (λ (rs : List Row).
            ok (take page_size (drop offset (order_by (ordering (valid_options 0)) rs))))
          (filter_all offset v.store.rows)))

  check_page-append :
      (n : ℕ) (xs : List Row) (c : Scanned)
      → check_page ev v.files (drop n xs) (check_page ev v.files (take n xs) c)
        ≡ check_page ev v.files xs c
  unfolding check_page
  check_page-append zero xs c = refl
  check_page-append (suc n) [] c = refl
  check_page-append (suc n) (x ∷ xs) c = check_page-append n xs (check_entry ev v.files x c)

  abbrev left : ℕ → List Row
  left offset = drop offset (in_order v.store.rows)

  -- One round, on the page that it reads.
  round :
      (fuel offset : ℕ) (c : Scanned)
      → ev.scan.is_valid_ulid db_id ≡ true
      → ev.scan.query_fails ≡ false
      → ((0 < length (left offset))
          → (d : Scanned)
          → check_from fuel ev db_id v (offset + page_size) d
            ≡ ok (check_page ev v.files (left (offset + page_size)) d))
      → check_from (suc fuel) ev db_id v offset c ≡ ok (check_page ev v.files (left offset) c)
  unfolding check_from check_page
  round fuel offset c valid works more =
      ap reads (page_read offset valid works) ∙ page (take page_size (left offset)) refl more
    where
      reads : Result (List Row) → Result Scanned
      reads p = elim p [
        | err e ↦ err e
        | ok [] ↦ ok c
        | ok (r ∷ rows) ↦
            check_from fuel ev db_id v (offset + page_size) (check_page ev v.files (r ∷ rows) c)
      ]

      some_left : (r : Row) (rs xs : List Row) → take page_size xs ≡ r ∷ rs → 0 < length xs
      some_left r rs [] h = cc h
      some_left r rs (x ∷ xs) h = omega arith

      page :
          (rows : List Row)
          → take page_size (left offset) ≡ rows
          → ((0 < length (left offset))
              → (d : Scanned)
              → check_from fuel ev db_id v (offset + page_size) d
                ≡ ok (check_page ev v.files (left (offset + page_size)) d))
          → reads (ok rows) ≡ ok (check_page ev v.files (left offset) c)
      page [] same more =
          ap (λ (rs : List Row). ok (check_page ev v.files rs c))
            (sym (take_none 999 (left offset) same))
      page (r ∷ rs) same more =
          more (some_left r rs (left offset) same) (check_page ev v.files (r ∷ rs) c)
          ∙ ap ok (
              ap (λ (xs : List Row). check_page ev v.files xs (check_page ev v.files (r ∷ rs) c))
                (sym (drop_more offset page_size (in_order v.store.rows)))
              ∙ ap
                  (λ (xs : List Row).
                    check_page ev v.files (drop page_size (left offset))
                      (check_page ev v.files xs c))
                  (sym same)
              ∙ check_page-append page_size (left offset) c)

  check_from_all :
      (fuel offset : ℕ) (c : Scanned)
      → ev.scan.is_valid_ulid db_id ≡ true
      → ev.scan.query_fails ≡ false
      → length (in_order v.store.rows) ≤ offset + fuel * page_size
      → check_from (suc fuel) ev db_id v offset c ≡ ok (check_page ev v.files (left offset) c)
  check_from_all zero offset c valid works enough =
      round zero offset c valid works
        λ some d. absurd (omega (arith, some, enough, length-drop offset (in_order v.store.rows)))
  check_from_all (suc fuel) offset c valid works enough =
      round (suc fuel) offset c valid works
        λ some d. check_from_all fuel (offset + page_size) d valid works (omega (arith, enough))

  -- Where the query works, every row is checked once, in order of the ids.
  pub check_missing_files-all :
      ev.scan.is_valid_ulid db_id ≡ true
      → ev.scan.query_fails ≡ false
      → check_missing_files ev db_id v
        ≡ ok (check_page ev v.files (in_order v.store.rows) nothing_scanned)
  unfolding check_missing_files
  check_missing_files-all valid works =
      check_from_all (length v.store.rows) 0 nothing_scanned valid works
        (omega (arith, length-order_by (ordering (valid_options 0)) v.store.rows))

  -- Where it does not, nothing is checked.
  pub check_missing_files-reads :
      (c : Scanned)
      → check_missing_files ev db_id v ≡ ok c
      → (ev.scan.is_valid_ulid db_id ≡ true) × (ev.scan.query_fails ≡ false)
  unfolding check_missing_files check_from get_entries validate to_lower lower_code
  check_missing_files-reads c h = elim (Bool-cases (ev.scan.is_valid_ulid db_id)) [
    | inr e ↦ absurd (stopped Error.validation (rw e refl))
    | inl e ↦ elim (Bool-cases ev.scan.query_fails) [
      | inl f ↦ absurd (stopped Error.failure (rw e (rw f refl)))
      | inr f ↦ (e, f)
    ]
  ]
    where
      reads : Result (List Row) → Result Scanned
      reads p = elim p [
        | err e ↦ err e
        | ok [] ↦ ok nothing_scanned
        | ok (r ∷ rows) ↦
            check_from (length v.store.rows) ev db_id v (0 + page_size)
              (check_page ev v.files (r ∷ rows) nothing_scanned)
      ]

      stopped : (e : Error) → get_entries ev.scan db_id (page_options 0) v.store ≢ err e
      stopped e same = clash (sym (ap reads same) ∙ h)
        where
          clash : err e ≢ ok c
          clash q = cc q

-- Is there a row that passes a test?
abbrev pub any : (Row → Bool) → List Row → Bool
any p [] = false
any p (r ∷ rs) = p r || any p rs

any-insert_by :
    (p : Row → Bool) (before : Row → Row → Bool) (n : Row) (rs : List Row)
    → any p (insert_by before n rs) ≡ p n || any p rs
unfolding insert_by
any-insert_by p before n [] = refl
any-insert_by p before n (r ∷ rs) = ground (arith, any-insert_by p before n rs)

any-order_by :
    (p : Row → Bool) (before : Row → Row → Bool) (rs : List Row)
    → any p (order_by before rs) ≡ any p rs
unfolding order_by
any-order_by p before [] = refl
any-order_by p before (r ∷ rs) =
    any-insert_by p before r (order_by before rs) ∙ ap (λ b. p r || b) (any-order_by p before rs)

elem-snoc : (j i : ℕ) (is : List ℕ) → elem j (is ++ (i ∷ [])) ≡ (elem j is || j == i)
elem-snoc j i [] = ground arith
elem-snoc j i (k ∷ is) = ground (arith, elem-snoc j i is)

abbrev pub has_id : ℕ → Row → Bool
has_id j r = j == r.id

module _ (ev : IntegrityEvents) (files : Files) (j : ℕ) where
  abbrev pub misses : Row → Bool
  misses r = is_missing ev files r && j == r.id

  check_page-existing :
      (rows : List Row) (c : Scanned)
      → elem j (check_page ev files rows c).existing_ids
        ≡ (elem j c.existing_ids || any (has_id j) rows)
  unfolding check_page
  check_page-existing [] c = ground arith
  check_page-existing (r ∷ rows) c =
      check_page-existing rows (check_entry ev files r c)
      ∙ ap (λ b. b || any (has_id j) rows) (elem-snoc j r.id c.existing_ids)
      ∙ ground arith

  check_entry-missing :
      (r : Row) (c : Scanned)
      → elem j (check_entry ev files r c).missing_ids ≡ (elem j c.missing_ids || misses r)
  check_entry-missing r c = elim (Bool-cases (is_missing ev files r)) [
    | inl e ↦ rw e (elem-snoc j r.id c.missing_ids)
    | inr e ↦ rw e (ground arith)
  ]

  check_page-missing :
      (rows : List Row) (c : Scanned)
      → elem j (check_page ev files rows c).missing_ids ≡ (elem j c.missing_ids || any misses rows)
  unfolding check_page
  check_page-missing [] c = ground arith
  check_page-missing (r ∷ rows) c =
      check_page-missing rows (check_entry ev files r c)
      ∙ ap (λ b. b || any misses rows) (check_entry-missing r c)
      ∙ ground arith

-- What checkMissingFiles returns: the ids of the rows, and of those that miss their file.
pub check_missing_files-ids :
    (ev : IntegrityEvents) (db_id : Text) (v : Vault) (c : Scanned) (j : ℕ)
    → check_missing_files ev db_id v ≡ ok c
    → (elem j c.existing_ids ≡ any (has_id j) v.store.rows)
      × (elem j c.missing_ids ≡ any (misses ev v.files j) v.store.rows)
check_missing_files-ids ev db_id v c j h =
    let (valid, works) = check_missing_files-reads ev db_id v c h in
    let whole : check_page ev v.files (in_order v.store.rows) nothing_scanned ≡ c =
      ap scanned (sym (check_missing_files-all ev db_id v valid works) ∙ h) in
    (
      sym (ap (λ (d : Scanned). elem j d.existing_ids) whole)
          ∙ check_page-existing ev v.files j (in_order v.store.rows) nothing_scanned
          ∙ any-order_by (has_id j) (ordering (valid_options 0)) v.store.rows,
      sym (ap (λ (d : Scanned). elem j d.missing_ids) whole)
          ∙ check_page-missing ev v.files j (in_order v.store.rows) nothing_scanned
          ∙ any-order_by (misses ev v.files j) (ordering (valid_options 0)) v.store.rows,
    )
  where
    scanned : Result Scanned → Scanned
    scanned (ok d) = d
    scanned (err e) = c
