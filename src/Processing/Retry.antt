-- ===== src/Processing/Retry.antt =====
-- internal/processing/retry.go: the backoff of queued entries whose processing failed. Times and
-- durations are in nanoseconds; the registry is an association list with one record per key.
pub mod Backoff
pub mod Registry
use media_hub_oss.Prelude.{
  ℕ, zero, suc, ◌+◌, ◌-◌, ◌*◌, ◌%◌, ◌^◌, Bool, true, false, not, ◌&&◌, ◌||◌, Option, none, some,
  List, [], ◌∷◌, ltb, leb, ◌==◌, if◌then◌else◌,
}
use media_hub_oss.Prelude.Text.{Text, text_eq}

abbrev pub second : ℕ
second = 1_000_000_000

abbrev pub retry_base_claim_delay : ℕ
retry_base_claim_delay = 30 * second

abbrev pub retry_max_claim_delay : ℕ
retry_max_claim_delay = 300 * second

pub record RetryKey : Type 0 where
  pub db_id : Text
  pub entry_id : ℕ

pub record ClaimRetry : Type 0 where
  pub attempts : ℕ
  pub next_try : ℕ

abbrev pub Registry : Type 0
Registry = List (RetryKey × ClaimRetry)

unfoldable pub key_eq : RetryKey → RetryKey → Bool
key_eq j k = text_eq j.db_id k.db_id && j.entry_id == k.entry_id

unfoldable pub find_claim : RetryKey → Registry → Option ClaimRetry
find_claim k [] = none
find_claim k ((j, c) ∷ rr) = if key_eq j k then some c else find_claim k rr

unfoldable pub remove_claim : RetryKey → Registry → Registry
remove_claim k [] = []
remove_claim k ((j, c) ∷ rr) = if key_eq j k then remove_claim k rr else (j, c) ∷ remove_claim k rr

unfoldable pub set_claim : RetryKey → ClaimRetry → Registry → Registry
set_claim k c rr = (k, c) ∷ remove_claim k rr

-- `retryBaseClaimDelay << (attempts - 1)`, as the bit pattern of an int64, and its bounds: a
-- pattern from 2^63 on is a negative duration.
unfoldable pub claim_delay : ℕ → ℕ
claim_delay attempts =
    let delay = retry_base_claim_delay * 2 ^ (attempts - 1) % 2 ^ 64 in
    if ltb retry_max_claim_delay delay || (delay == 0 || leb (2 ^ 63) delay)
    then retry_max_claim_delay
    else delay

abbrev pub attempts_of : Option ClaimRetry → ℕ
attempts_of none = 0
attempts_of (some c) = c.attempts

unfoldable pub note_claim_failure : ℕ → RetryKey → Registry → Registry
unfolding set_claim find_claim
note_claim_failure now k rr =
    let attempts = attempts_of (find_claim k rr) + 1 in
    set_claim k (record { attempts = attempts; next_try = now + claim_delay attempts }) rr

unfoldable pub clear_claim_retry : RetryKey → Registry → Registry
unfolding remove_claim
clear_claim_retry k rr = remove_claim k rr

abbrev pub before_next : ℕ → Option ClaimRetry → Bool
before_next now none = false
before_next now (some c) = ltb now c.next_try

unfoldable pub claim_deferred : ℕ → RetryKey → Registry → Bool
unfolding find_claim
claim_deferred now k rr = before_next now (find_claim k rr)

unfoldable pub prune : ℕ → Registry → Registry
prune now [] = []
prune now ((j, c) ∷ rr) = if ltb now c.next_try then (j, c) ∷ prune now rr else prune now rr
