-- ===== src/Fees/Cache.antt =====
-- The fee cache (a `HashMap` behind a mutex, here a function) and what writes it. The answer of
-- bitcoind to a call may differ from call to call: `call n` answers the client's n-th call.
use ln_node.Prelude.{
  ℕ, suc, ◌+◌, ◌-◌, ◌^◌, min, max, String, Option, none, some, List, [], ◌∷◌, Result, ok, err,
  ◌>>=◌, map_err, ok_or, if◌then◌else◌,
}
use mathlib.Core.Option
use ln_node.Json.{Json}
use ln_node.Fees.{
  ConfirmationTarget, maximum_fee_estimate, conf_targets, same_target,
  confirmation_target_to_blocks, get_fallback_fee,
}

abbrev pub FeeCache : Type 0
FeeCache = ConfirmationTarget → Option ℕ

abbrev pub insert : ConfirmationTarget → ℕ → FeeCache → FeeCache
insert target rate cache t = if same_target target t then some rate else cache t

insert_all : List ConfirmationTarget → FeeCache → FeeCache
insert_all [] cache = cache
insert_all (target ∷ targets) cache =
    insert_all targets (insert target (get_fallback_fee target) cache)

-- The cache that `BitcoindRpcClient::new` makes.
unfoldable pub fallback_fees : FeeCache
unfolding insert_all get_fallback_fee
fallback_fees = insert_all conf_targets (λ _. none)

abbrev pub u32_max : ℕ
u32_max = 2 ^ 32 - 1

abbrev pub saturating_add : ℕ → ℕ → ℕ
saturating_add a b = min (a + b) u32_max

pub data FeeError : Type 0 where
  call_failed : String → FeeError
  invalid_feerate : FeeError

-- What the loop does with the result of one fetch.
unfoldable pub record_fee : ConfirmationTarget → Result FeeError ℕ → FeeCache → FeeCache
record_fee target (ok rate) cache =
    insert target
      (if same_target target maximum_fee_estimate then saturating_add rate 2500 else rate) cache
record_fee target (err e) cache = cache

-- How the background task's `select!` wakes up.
pub data Wake : Type 0 where
  slept cancelled : Wake

-- `get_est_sat_per_1000_weight`; `none` is the panic of its `unwrap`.
unfoldable pub get_est_sat_per_1000_weight : FeeCache → ConfirmationTarget → Option ℕ
get_est_sat_per_1000_weight cache target = cache target

module _ (J : Json) (call : ℕ → String → List J.Value → Result String J.Value) where
  unfoldable pub fetch_fee_estimate : ℕ → ConfirmationTarget → Result FeeError ℕ
  fetch_fee_estimate n target = do
    let blocks = confirmation_target_to_blocks target
    response ← map_err call_failed (call n "estimatesmartfee" (J.of_u64 blocks ∷ []))
    fee_rate ← ok_or (Option.bind (J.get response "feerate") J.as_f64) invalid_feerate
    let sat_per_1000_weight = J.as_u32 (J.div (J.mul fee_rate (J.literal 100000000)) (J.literal 4))
    ok (max sat_per_1000_weight 253)

  unfoldable pub update_targets : ℕ → List ConfirmationTarget → FeeCache → FeeCache
  update_targets n [] cache = cache
  update_targets n (target ∷ targets) cache =
      update_targets (suc n) targets (record_fee target (fetch_fee_estimate n target) cache)

  -- The closure `update_fees`, whose first call is the n-th.
  unfoldable pub update_fees : ℕ → FeeCache → FeeCache
  unfolding update_targets
  update_fees n cache = update_targets n conf_targets cache

  -- The `loop`, over the wakes of the `select!`. At the end of the list the task is still waiting.
  unfoldable pub refresh : ℕ → List Wake → FeeCache → FeeCache
  refresh n [] cache = cache
  refresh n (slept ∷ wakes) cache = refresh (n + 8) wakes (update_fees n cache)
  refresh n (cancelled ∷ wakes) cache = cache

  unfoldable pub update_fee_estimates : ℕ → List Wake → FeeCache → FeeCache
  unfolding refresh
  update_fee_estimates n wakes cache = refresh (n + 8) wakes (update_fees n cache)
