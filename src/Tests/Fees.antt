-- ===== src/Tests/Fees.antt =====
-- The fee cache and the calls to bitcoind.
use mathlib.Core.Option
use ln_node.Prelude.{◌≡◌, refl, ℕ, ◌≤◌, String, some, [], ◌∷◌, ok, returned}
use ln_node.Fees.{maximum_fee_estimate, urgent_on_chain_sweep}
use ln_node.Fees.Cache.{
  slept, cancelled, fallback_fees, u32_max, get_est_sat_per_1000_weight, fetch_fee_estimate,
  record_fee, update_fees, update_fee_estimates,
}
use ln_node.Fees.Bounds.{floor, get_est_bounds}
use ln_node.Fees.Rpc.{get_best_block}
use ln_node.Tests.Samples.{json, as_u32_bound, answers, chain_answers}

-- A feerate of one bitcoin per kilobyte is 25,000,000 satoshis per 1000 weight, and 2500 on top.
first_round :
    (get_est_sat_per_1000_weight (update_fees json answers 0 fallback_fees) maximum_fee_estimate
      ≡ some 25002500)
    × (get_est_sat_per_1000_weight (update_fees json answers 0 fallback_fees) urgent_on_chain_sweep
        ≡ some 5000)
unfolding get_est_sat_per_1000_weight update_fees fetch_fee_estimate fallback_fees record_fee
    Option.bind
first_round = (refl, refl)

get_est_bounds_example :
    (rate : ℕ) × (get_est_sat_per_1000_weight
        (update_fee_estimates json answers 0 (slept ∷ cancelled ∷ []) fallback_fees)
        maximum_fee_estimate
      ≡ some rate)
    × (floor maximum_fee_estimate ≤ rate)
    × (rate ≤ u32_max)
get_est_bounds_example =
    get_est_bounds json answers as_u32_bound 0 (slept ∷ cancelled ∷ []) maximum_fee_estimate

-- A height of 2^32 + 5 is cut to 5.
cut_height :
    get_best_block json (λ (t : String). some t) chain_answers 0 ≡ returned (ok ("00ab", 5))
unfolding get_best_block Option.bind
cut_height = refl
