-- ===== src/Processing/Retry/Backoff.antt =====
-- The shift and the cap of the backoff delay in 64-bit arithmetic.
use native.Mathlib.Nat.{pow-suc, pow-le-pow_right}
use media_hub_oss.Prelude.{
  ℕ, zero, suc, ◌-◌, ◌*◌, ◌%◌, ◌^◌, ◌<◌, ◌≤◌, ◌≡◌, refl, arith, Bool, true, ◌&&◌, ◌==◌, ==_iff, min,
  inl, inr, ltb, Bool-cases, ltb→lt,
}
use media_hub_oss.Processing.Retry.{claim_delay, retry_base_claim_delay, retry_max_claim_delay}

-- 30 s after the first failure, doubling with each further one, and never more than 5 min.
abbrev pub capped_doubling : ℕ → ℕ
capped_doubling failures_before =
    min (retry_base_claim_delay * 2 ^ failures_before) retry_max_claim_delay

-- The delays after the first failures, one by one.
delays_agree : ℕ → Bool
delays_agree zero = true
delays_agree (suc n) = (claim_delay (suc n) == capped_doubling n) && delays_agree n

delays_agree_lem :
    (bound n : ℕ) → n < bound → delays_agree bound ≡ true → claim_delay (suc n) ≡ capped_doubling n
unfolding delays_agree
delays_agree_lem zero n below h = ground (arith, below)
delays_agree_lem (suc bound) n below h = elim (Bool-cases (n == bound)) [
  | inr other ↦ ground (arith, other, below, h, delays_agree_lem bound n)
  | inl same ↦
      let e : n ≡ bound = (==_iff n bound).0 same in
      rw e ((==_iff (claim_delay (suc bound)) (capped_doubling bound)).0 (ground (arith, h)))
]

early_delays : delays_agree 54 ≡ true
unfolding delays_agree claim_delay
early_delays = refl

shifted_out : (n : ℕ) → 53 < n → retry_base_claim_delay * 2 ^ n % 2 ^ 64 ≡ 0
shifted_out zero h = absurd (omega arith)
shifted_out (suc n) h = elim (Bool-cases (ltb 53 n)) [
  | inl more ↦ omega (arith, pow-suc 2 n, shifted_out n (ltb→lt 53 n more))
  | inr last ↦ let e : n ≡ 53 = ground arith in rw e refl
]

late_delay : (n : ℕ) → 53 < n → claim_delay (suc n) ≡ capped_doubling n
unfolding claim_delay
late_delay n h =
    let wrapped : retry_base_claim_delay * 2 ^ (suc n - 1) % 2 ^ 64 ≡ 0 =
      rw pred_suc (shifted_out n h) in
    let large : 2 ^ 4 ≤ 2 ^ n =
      pow-le-pow_right {n = 2} (omega arith) {i = 4} {j = n} (omega arith) in
    ground (arith, wrapped, large)
  where
    pred_suc : suc n - 1 ≡ n
    pred_suc = omega arith

-- The delay after any number of failures is the doubled base delay, capped: the shift of the int64
-- duration may drop bits or turn negative, and the cap still comes out right.
pub claim_delay_lem : (n : ℕ) → claim_delay (suc n) ≡ capped_doubling n
claim_delay_lem n = elim (Bool-cases (ltb n 54)) [
  | inl early ↦ delays_agree_lem 54 n (ltb→lt n 54 early) early_delays
  | inr late ↦ late_delay n (ground arith)
]
