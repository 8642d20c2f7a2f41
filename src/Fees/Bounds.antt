-- ===== src/Fees/Bounds.antt =====
-- The invariant of the fee cache: every target has a rate, at or above the relay minimum and
-- within 32 bits, so that the estimator's `unwrap` cannot fail.
use ln_node.Prelude.{
  ◌≡◌, refl, sym, ℕ, suc, ◌+◌, ◌≤◌, true, Bool-cases, inl, inr, String, Option, some, List, [], ◌∷◌,
  Result, ok, err, >>=-eq-ok, map_err, ok_or, arith, if◌then◌else◌,
}
use mathlib.Core.Option
use native.Mathlib.Nat.{add-zero}
use native.Mathlib.Numerals.{towards_suc}
use ln_node.Json.{Json}
use ln_node.Fees.{
  ConfirmationTarget, maximum_fee_estimate, urgent_on_chain_sweep,
  min_allowed_anchor_channel_remote_fee, min_allowed_non_anchor_channel_remote_fee,
  anchor_channel_fee, non_anchor_channel_fee, channel_close_minimum, output_spending_fee,
  conf_targets, same_target, confirmation_target_to_blocks,
}
use ln_node.Fees.Cache.{
  FeeCache, fallback_fees, u32_max, saturating_add, FeeError, call_failed, invalid_feerate,
  record_fee, Wake, slept, cancelled, get_est_sat_per_1000_weight, fetch_fee_estimate,
  update_targets, update_fees, refresh, update_fee_estimates,
}

-- The least rate that a target can have: the largest estimate has 2500 added to the minimum.
abbrev pub floor : ConfirmationTarget → ℕ
floor maximum_fee_estimate = 2753
floor _ = 253

abbrev pub HasRate : FeeCache → ConfirmationTarget → Type 0
HasRate cache t = (rate : ℕ) × (cache t ≡ some rate) × (floor t ≤ rate) × (rate ≤ u32_max)

abbrev pub IsBounded : FeeCache → Type 0
IsBounded cache = (t : ConfirmationTarget) → HasRate cache t

fallback_fees-IsBounded : IsBounded fallback_fees
unfolding fallback_fees
fallback_fees-IsBounded maximum_fee_estimate = (10000, refl, omega arith, omega arith)
fallback_fees-IsBounded urgent_on_chain_sweep = (5000, refl, omega arith, omega arith)
fallback_fees-IsBounded output_spending_fee = (4000, refl, omega arith, omega arith)
fallback_fees-IsBounded min_allowed_anchor_channel_remote_fee =
    (253, refl, omega arith, omega arith)
fallback_fees-IsBounded min_allowed_non_anchor_channel_remote_fee =
    (1000, refl, omega arith, omega arith)
fallback_fees-IsBounded anchor_channel_fee = (253, refl, omega arith, omega arith)
fallback_fees-IsBounded non_anchor_channel_fee = (3000, refl, omega arith, omega arith)
fallback_fees-IsBounded channel_close_minimum = (1000, refl, omega arith, omega arith)

same_target→eq : (s t : ConfirmationTarget) → same_target s t ≡ true → s ≡ t
same_target→eq maximum_fee_estimate t h = ground arith
same_target→eq _ t h = ground arith

abbrev written : ConfirmationTarget → ℕ → ℕ
written target rate =
    if same_target target maximum_fee_estimate then saturating_add rate 2500 else rate

written_bounds :
    (target : ConfirmationTarget) (rate : ℕ)
    → 253 ≤ rate
    → rate ≤ u32_max
    → (floor target ≤ written target rate) × (written target rate ≤ u32_max)
written_bounds maximum_fee_estimate rate lo hi = omega arith
written_bounds _ rate lo hi = omega arith

-- An inserted rate that is in range keeps the invariant.
record_fee-IsBounded :
    (target : ConfirmationTarget) (r : Result FeeError ℕ) (cache : FeeCache)
    → ((rate : ℕ) → r ≡ ok rate → (253 ≤ rate) × (rate ≤ u32_max))
    → IsBounded cache
    → IsBounded (record_fee target r cache)
unfolding record_fee
record_fee-IsBounded target (err e) cache fits b t = b t
record_fee-IsBounded target (ok rate) cache fits b t = elim (Bool-cases (same_target target t)) [
  | inl same ↦
      let (lo, hi) = fits rate refl in
      let e : t ≡ target = sym (same_target→eq target t same) in
      let (low, high) = written_bounds target rate lo hi in
      (written target rate, rw same, rw e low, high)
  | inr differ ↦ let (old, e, lo, hi) = b t in (old, rw differ e, lo, hi)
]

module _ (J : Json) (call : ℕ → String → List J.Value → Result String J.Value)
    (as_u32_bound : (x : J.F64) → J.as_u32 x ≤ u32_max) where
  fetch_bounds :
      (n : ℕ) (t : ConfirmationTarget) (rate : ℕ)
      → fetch_fee_estimate J call n t ≡ ok rate
      → (253 ≤ rate) × (rate ≤ u32_max)
  unfolding fetch_fee_estimate
  fetch_bounds n t rate h =
      let blocks = confirmation_target_to_blocks t in
      let answer = map_err call_failed (call n "estimatesmartfee" (J.of_u64 blocks ∷ [])) in
      let (response, _, read) = >>=-eq-ok answer _ h in
      let feerate : Result FeeError J.F64 =
        ok_or (Option.bind (J.get response "feerate") J.as_f64) invalid_feerate in
      let (fee_rate, _, e) = >>=-eq-ok feerate _ read in
      let x = J.div (J.mul fee_rate (J.literal 100000000)) (J.literal 4) in
      ground (arith, as_u32_bound x)

  update_targets-IsBounded :
      (n : ℕ) (targets : List ConfirmationTarget) (cache : FeeCache)
      → IsBounded cache
      → IsBounded (update_targets J call n targets cache)
  unfolding update_targets
  update_targets-IsBounded n [] cache b = b
  update_targets-IsBounded n (target ∷ targets) cache b =
      update_targets-IsBounded (suc n) targets _
        (record_fee-IsBounded target _ cache (fetch_bounds n target) b)

  refresh-IsBounded :
      (n : ℕ) (wakes : List Wake) (cache : FeeCache)
      → IsBounded cache
      → IsBounded (refresh J call n wakes cache)
  unfolding refresh update_fees
  refresh-IsBounded n [] cache b = b
  refresh-IsBounded n (slept ∷ wakes) cache b =
      refresh-IsBounded (n + 8) wakes _ (update_targets-IsBounded n conf_targets cache b)
  refresh-IsBounded n (cancelled ∷ wakes) cache b = b

  -- If `as u32` gives 32-bit numbers, then whatever bitcoind answers and however often the
  -- background task has run, the estimator finds a rate for every target (so its `unwrap` does not
  -- panic), at least 253 sat per 1000 weight, or 2753 for the maximum estimate, and within 32
  -- bits.
  pub get_est_bounds :
      (n : ℕ) (wakes : List Wake) (target : ConfirmationTarget)
      → (rate : ℕ) × (get_est_sat_per_1000_weight
            (update_fee_estimates J call n wakes fallback_fees)
            target
          ≡ some rate)
        × (floor target ≤ rate)
        × (rate ≤ u32_max)
  unfolding get_est_sat_per_1000_weight update_fee_estimates update_fees
  get_est_bounds n wakes =
      refresh-IsBounded (n + 8) wakes _
        (update_targets-IsBounded n conf_targets fallback_fees fallback_fees-IsBounded)

-- The position of a target in `CONF_TARGETS`, which is the number of its call in a round.
abbrev position : ConfirmationTarget → ℕ
position maximum_fee_estimate = 0
position urgent_on_chain_sweep = 1
position min_allowed_anchor_channel_remote_fee = 2
position min_allowed_non_anchor_channel_remote_fee = 3
position anchor_channel_fee = 4
position non_anchor_channel_fee = 5
position channel_close_minimum = 6
position output_spending_fee = 7

-- What one round leaves for a target: the new estimate, with the buffer on the largest, or the old
-- one where the fetch failed.
abbrev pub renewed : ConfirmationTarget → Result FeeError ℕ → Option ℕ → Option ℕ
renewed target (ok rate) old = some (written target rate)
renewed target (err e) old = old

record_fee_at :
    (target t : ConfirmationTarget) (r : Result FeeError ℕ) (cache : FeeCache)
    → record_fee target r cache t
      ≡ (if same_target target t then renewed target r (cache t) else cache t)
unfolding record_fee
record_fee_at target t r cache = ground arith

module _ (J : Json) (call : ℕ → String → List J.Value → Result String J.Value) where
  -- One round renews every target exactly once, each by its own call, and a failed call leaves the
  -- rate of its target and of no other.
  pub update_fees_lem :
      (n : ℕ) (cache : FeeCache) (target : ConfirmationTarget)
      → update_fees J call n cache target
        ≡ renewed target (fetch_fee_estimate J call (n + position target) target) (cache target)
  unfolding update_fees
  update_fees_lem n cache maximum_fee_estimate = simp (record_fee_at, add-zero)
  update_fees_lem n cache _ = simp (record_fee_at, towards_suc)
