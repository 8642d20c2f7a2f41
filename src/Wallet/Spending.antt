-- ===== src/Wallet/Spending.antt =====
-- When the wallet builds a transaction, at which fee rate, and what it tells LDK of its outputs.
use mathlib.Core.List.{Mem, mem-map_of_mem}
use ln_node.Prelude.{
  ◌≡◌, ap, ℕ, ◌≤◌, Bool, true, false, some, ok, ◌>>=◌, >>=-eq-ok, map_err, map_err-eq-ok, returned,
  Bool-cases, Option-cases, inl, inr, arith,
}
use ln_node.Ldk.{ScriptBuf, Transaction}
use ln_node.Fees.{maximum_fee_estimate}
use ln_node.Fees.Cache.{FeeCache, get_est_sat_per_1000_weight}
use ln_node.Wallet.{
  BdkWallet, LocalOutput, bdk_error, spend, sign_and_extract, build_transaction, utxo_of,
  list_confirmed_utxos,
}

module _ (B : BdkWallet) where
  sign_and_extract-eq-ok :
      (s : B.State) (psbt : B.Psbt) (tx : Transaction)
      → sign_and_extract B s psbt ≡ ok tx
      → (signed : B.Psbt) × (B.sign psbt false s ≡ ok (signed, true))
        × (B.extract_tx signed ≡ ok tx)
  unfolding sign_and_extract
  sign_and_extract-eq-ok s psbt tx h =
      let ((signed, final), done, rest) = >>=-eq-ok (map_err bdk_error (B.sign psbt false s)) _ h in
      let signed_ok = map_err-eq-ok bdk_error _ done in
      elim (Bool-cases final) [
        | inl yes_final ↦ (
          signed,
          ground (arith, signed_ok, yes_final),
          map_err-eq-ok bdk_error _ (ground (arith, rest, yes_final)),
        )
        | inr not_final ↦ absurd (ground (arith, rest, not_final))
      ]

  spend-eq-ok :
      (dest : ScriptBuf) (amount fee_rate : ℕ) (s s' : B.State) (tx : Transaction)
      → spend B dest amount fee_rate s ≡ (ok tx, s')
      → (psbt : B.Psbt) × (B.build dest amount fee_rate s ≡ (ok psbt, s'))
        × (sign_and_extract B s' psbt ≡ ok tx)
  unfolding spend
  spend-eq-ok dest amount fee_rate s s' tx h =
      let left : B.State = (B.build dest amount fee_rate s).1 in
      let state : left ≡ s' = ap (λ r. r.1) h in
      let result : (map_err bdk_error (B.build dest amount fee_rate s).0
            >>= sign_and_extract B left)
          ≡ ok tx =
        ap (λ r. r.0) h in
      let (psbt, built, signed) =
        >>=-eq-ok (map_err bdk_error (B.build dest amount fee_rate s).0) _ result in
      (psbt, ground (arith, map_err-eq-ok bdk_error _ built, state), rw (← state) signed)

  -- A transaction that is returned was signed to the end: bdk built it for the amount, which the
  -- confirmed balance covers, the destination and the largest fee estimate, called it final, and
  -- extracted it.
  pub build_transaction-final :
      (amount : ℕ) (dest : ScriptBuf) (fees : FeeCache) (poisoned : Bool) (s s' : B.State)
      (tx : Transaction)
      → build_transaction B amount dest fees poisoned s ≡ returned (ok tx, s')
      → (fee_rate : ℕ) × (psbt : B.Psbt) × (signed : B.Psbt) × (amount ≤ (B.balance s).confirmed)
        × (get_est_sat_per_1000_weight fees maximum_fee_estimate ≡ some fee_rate)
        × (B.build dest amount fee_rate s ≡ (ok psbt, s'))
        × (B.sign psbt false s' ≡ ok (signed, true))
        × (B.extract_tx signed ≡ ok tx)
  unfolding build_transaction
  build_transaction-final amount dest fees poisoned s s' tx h =
      elim (Option-cases (get_est_sat_per_1000_weight fees maximum_fee_estimate)) [
        | inl missing ↦ absurd (ground (arith, h, missing))
        | inr (fee_rate, found) ↦
            let (psbt, built, rest) =
              spend-eq-ok dest amount fee_rate s s' tx (ground (arith, h, found)) in
            let (signed, final, extracted) = sign_and_extract-eq-ok s' psbt tx rest in
            (fee_rate, psbt, signed, ground (arith, h, found), found, built, final, extracted)
      ]

  -- An unspent output of the wallet that is not confirmed is among those that
  -- `list_confirmed_utxos` gives to LDK.
  pub list_confirmed_utxos-unconfirmed :
      (s : B.State) (u : LocalOutput)
      → Mem u (B.list_unspent s)
      → u.is_confirmed ≡ false
      → Mem (utxo_of B u) (list_confirmed_utxos B s)
  unfolding list_confirmed_utxos
  list_confirmed_utxos-unconfirmed s u m h = mem-map_of_mem (utxo_of B) m
