-- ===== src/Processing/Retry/Registry.antt =====
-- What the registry answers after failures, clearing and pruning.
use media_hub_oss.Prelude.{
  ℕ, ◌+◌, ◌≤◌, ◌≡◌, refl, arith, true, false, none, [], ◌∷◌, ltb, ◌∙◌, if◌then◌else◌, Bool-cases,
  inl, inr,
}
use media_hub_oss.Prelude.Text.{text_eq→≡, text_eq_refl}
use media_hub_oss.Processing.Retry.{
  RetryKey, Registry, key_eq, find_claim, remove_claim, set_claim, attempts_of, note_claim_failure,
  clear_claim_retry, before_next, claim_deferred, prune, retry_base_claim_delay,
}
use media_hub_oss.Processing.Retry.Backoff.{capped_doubling, claim_delay_lem}

key_eq→≡ : (j k : RetryKey) → key_eq j k ≡ true → j ≡ k
unfolding key_eq
key_eq→≡ j k h = ground (arith, text_eq→≡ j.db_id k.db_id)

key_eq_refl : (k : RetryKey) → key_eq k k ≡ true
unfolding key_eq
key_eq_refl k = ground (arith, text_eq_refl k.db_id)

-- At most one record for each key.
abbrev pub Distinct : Registry → Type 0
Distinct [] = Unit {0}
Distinct ((j, c) ∷ rr) = (find_claim j rr ≡ none) × Distinct rr

find-remove_self : (k : RetryKey) (rr : Registry) → find_claim k (remove_claim k rr) ≡ none
unfolding find_claim remove_claim
find-remove_self k [] = refl
find-remove_self k ((j, c) ∷ rr) = ground (arith, find-remove_self k rr)

find-remove_other :
    (j k : RetryKey) (rr : Registry)
    → key_eq k j ≡ false
    → find_claim j (remove_claim k rr) ≡ find_claim j rr
unfolding find_claim remove_claim
find-remove_other j k [] h = refl
find-remove_other j k ((i, c) ∷ rr) h =
    ground
      (arith, key_eq→≡ i k, key_eq→≡ i j, key_eq_refl k, key_eq_refl j, find-remove_other j k rr)

find-remove_none :
    (j k : RetryKey) (rr : Registry)
    → find_claim j rr ≡ none
    → find_claim j (remove_claim k rr) ≡ none
unfolding find_claim remove_claim
find-remove_none j k [] h = refl
find-remove_none j k ((i, c) ∷ rr) h = ground (arith, find-remove_none j k rr)

remove-Distinct : (k : RetryKey) (rr : Registry) → Distinct rr → Distinct (remove_claim k rr)
unfolding remove_claim
remove-Distinct k [] d = tt
remove-Distinct k ((j, c) ∷ rr) d = ground (arith, remove-Distinct k rr, find-remove_none j k rr)

find-prune-none :
    (now : ℕ) (j : RetryKey) (rr : Registry)
    → find_claim j rr ≡ none
    → find_claim j (prune now rr) ≡ none
unfolding find_claim prune
find-prune-none now j [] h = refl
find-prune-none now j ((i, c) ∷ rr) h = ground (arith, find-prune-none now j rr)

prune-Distinct : (now : ℕ) (rr : Registry) → Distinct rr → Distinct (prune now rr)
unfolding prune
prune-Distinct now [] d = tt
prune-Distinct now ((j, c) ∷ rr) d = ground (arith, prune-Distinct now rr, find-prune-none now j rr)

-- The operations keep one record for each key.
pub registry-Distinct :
    (now : ℕ) (k : RetryKey) (rr : Registry)
    → Distinct rr
    → Distinct (note_claim_failure now k rr)
      × Distinct (clear_claim_retry k rr)
      × Distinct (prune now rr)
unfolding note_claim_failure clear_claim_retry set_claim
registry-Distinct now k rr d = (
  (find-remove_self k rr, remove-Distinct k rr d),
  remove-Distinct k rr d,
  prune-Distinct now rr d,
)

-- After a failure of an entry with `n` recorded ones, exactly its claims before the capped doubled
-- delay has passed are deferred; every other entry is deferred as it was.
pub note_claim_failure_deferred :
    (now later : ℕ) (k j : RetryKey) (rr : Registry)
    → claim_deferred later j (note_claim_failure now k rr) ≡ (
        if key_eq k j
        then ltb later (now + capped_doubling (attempts_of (find_claim k rr)))
        else claim_deferred later j rr)
unfolding claim_deferred note_claim_failure set_claim
note_claim_failure_deferred now later k j rr = elim (Bool-cases (key_eq k j)) [
  | inl e ↦ rw e (ground (arith, claim_delay_lem (attempts_of (find_claim k rr))))
  | inr e ↦ rw (e, find-remove_other j k rr e) refl
]

find-prune :
    (now later : ℕ) (k : RetryKey) (rr : Registry)
    → now ≤ later
    → Distinct rr
    → before_next later (find_claim k (prune now rr)) ≡ before_next later (find_claim k rr)
unfolding prune find_claim
find-prune now later k [] h d = refl
find-prune now later k ((j, c) ∷ rr) h d =
    ground (arith, find-prune now later k rr h d.1, key_eq→≡ j k, find-prune-none now k rr)

-- Pruning forgets no deferral: every later question has the answer that it had before.
pub prune_deferred :
    (now later : ℕ) (k : RetryKey) (rr : Registry)
    → now ≤ later
    → Distinct rr
    → claim_deferred later k (prune now rr) ≡ claim_deferred later k rr
unfolding claim_deferred
prune_deferred now later k rr h d = find-prune now later k rr h d

find-prune_passed :
    (now : ℕ) (k : RetryKey) (rr : Registry)
    → Distinct rr
    → before_next now (find_claim k rr) ≡ false
    → find_claim k (prune now rr) ≡ none
unfolding prune find_claim
find-prune_passed now k [] d h = refl
find-prune_passed now k ((j, c) ∷ rr) d h =
    ground (arith, find-prune_passed now k rr d.1, key_eq→≡ j k, find-prune-none now k rr)

find-prune_kept :
    (now : ℕ) (k : RetryKey) (rr : Registry)
    → before_next now (find_claim k rr) ≡ true
    → find_claim k (prune now rr) ≡ find_claim k rr
unfolding prune find_claim
find-prune_kept now k [] h = refl
find-prune_kept now k ((j, c) ∷ rr) h = ground (arith, find-prune_kept now k rr)

-- Backoff across a dispatch pass, for a registry with one record for each key, any times of the
-- pruning and of the failure, and a question asked at any time after the pruning. The count of an
-- entry's failures, and with it the doubling of the delay, goes on exactly where the entry's backoff
-- had not ended when the pass pruned the registry; where it had ended, the next failure counts as the
-- first, and defers for the base delay however often the entry failed before. Other entries are
-- deferred as if there had been neither pruning nor failure.
pub failure_after_prune :
    (pruned_at failed_at later : ℕ) (k j : RetryKey) (rr : Registry)
    → Distinct rr
    → pruned_at ≤ later
    → claim_deferred later j (note_claim_failure failed_at k (prune pruned_at rr)) ≡ (
        if key_eq k j
        then ltb later (
            failed_at
            + (if claim_deferred pruned_at k rr
                then capped_doubling (attempts_of (find_claim k rr))
                else retry_base_claim_delay))
        else claim_deferred later j rr)
unfolding claim_deferred
failure_after_prune pruned_at failed_at later k j rr d after =
    note_claim_failure_deferred failed_at later k j (prune pruned_at rr)
    ∙ rw (find-prune pruned_at later j rr after d)
        (elim (Bool-cases (before_next pruned_at (find_claim k rr))) [
          | inl held ↦ rw (held, find-prune_kept pruned_at k rr held) refl
          | inr passed ↦ rw (passed, find-prune_passed pruned_at k rr d passed) refl
        ])
