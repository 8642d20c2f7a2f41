-- ===== src/Wallet.antt =====
-- src/onchain_wallet.rs: what `WalletManager` does with the bdk wallet, which is an interface. The
-- mutex makes each method one step on the wallet's state. `poisoned`: a task has panicked with the
-- mutex held, so that `lock().unwrap()` panics.
pub mod Spending
pub mod Startup
pub mod Signing
use ln_node.Prelude.{
  ℕ, zero, suc, ◌+◌, Bool, true, false, String, Option, none, some, List, map, Result, ok, err,
  ◌>>=◌, map_err, Outcome, returned, panicked, ltb, if◌then◌else◌,
}
use ln_node.Kv.{Bytes}
use ln_node.Ldk.{ScriptBuf, Transaction}
use ln_node.Fees.{maximum_fee_estimate}
use ln_node.Fees.Cache.{FeeCache, get_est_sat_per_1000_weight}

-- bdk's `Balance`, in satoshis.
pub record OnchainBalance : Type 0 where
  pub trusted_pending : ℕ
  pub untrusted_pending : ℕ
  pub confirmed : ℕ

-- bdk's `LocalOutput`, by the fields that are read and its place in the chain.
pub record LocalOutput : Type 0 where
  pub outpoint : Bytes
  pub txout : Bytes
  pub is_confirmed : Bool

pub data KeychainKind : Type 0 where
  external internal : KeychainKind

pub record BdkWallet : Type 1 where
  pub State : Type 0
  pub Psbt : Type 0
  pub balance : State → OnchainBalance
  pub list_unspent : State → List LocalOutput
  pub next_unused_address : KeychainKind → State → ScriptBuf × State
  -- `build_tx`, `add_recipient`, `fee_rate`, `finish`: destination, amount, satoshis per kwu.
  pub build : ScriptBuf → ℕ → ℕ → State → Result String Psbt × State
  -- `sign`, with `trust_witness_utxo`; the signed psbt and whether it is final.
  pub sign : Psbt → Bool → State → Result String (Psbt × Bool)
  pub extract_tx : Psbt → Result String Transaction

-- LDK's `Utxo`.
pub record Utxo : Type 0 where
  pub outpoint : Bytes
  pub output : Bytes
  pub satisfaction_weight : ℕ

pub data WalletError : Type 0 where
  not_enough_funds : ℕ → WalletError
  bdk_error : String → WalletError
  could_not_sign : WalletError

module _ (B : BdkWallet) where
  sign_and_extract : B.State → B.Psbt → Result WalletError Transaction
  sign_and_extract s psbt = do
    signed ← map_err bdk_error (B.sign psbt false s)
    if signed.1 then map_err bdk_error (B.extract_tx signed.0) else err could_not_sign

  spend : ScriptBuf → ℕ → ℕ → B.State → Result WalletError Transaction × B.State
  spend dest amount fee_rate s =
      let (built, s') = B.build dest amount fee_rate s in
      (map_err bdk_error built >>= sign_and_extract s', s')

  unfoldable pub build_transaction :
      ℕ → ScriptBuf → FeeCache → Bool → B.State → Outcome (Result WalletError Transaction × B.State)
  unfolding spend sign_and_extract
  build_transaction amount dest fee_estimator poisoned s =
      if poisoned
      then panicked
      else if ltb (B.balance s).confirmed amount
      then returned (err (not_enough_funds amount), s)
      else elim (get_est_sat_per_1000_weight fee_estimator maximum_fee_estimate) [
        | none ↦ panicked
        | some fee_rate ↦ returned (spend dest amount fee_rate s)
      ]

  -- The methods below are what follows their `lock().unwrap()`; whoever calls them finds the mutex
  -- not poisoned, or panics.
  unfoldable pub next_address : B.State → ScriptBuf × B.State
  next_address s = B.next_unused_address external s

  unfoldable pub get_destination_script : B.State → ScriptBuf × B.State
  get_destination_script s = B.next_unused_address external s

  -- `try_into` makes LDK's `ShutdownScript` of a script, and is unwrapped.
  unfoldable pub get_shutdown_scriptpubkey :
      {ShutdownScript : Type 0}
      → (ScriptBuf → Option ShutdownScript)
      → B.State
      → Outcome (ShutdownScript × B.State)
  get_shutdown_scriptpubkey try_into s =
      let (script, s') = B.next_unused_address external s in
      elim (try_into script) [ none ↦ panicked | some shutdown ↦ returned (shutdown, s') ]

  unfoldable pub get_change_script : B.State → ScriptBuf × B.State
  get_change_script s = B.next_unused_address internal s

  abbrev pub utxo_of : LocalOutput → Utxo
  utxo_of utxo = record {
    outpoint = utxo.outpoint;
    output = utxo.txout;
    satisfaction_weight = 4 + 108;
  }

  unfoldable pub list_confirmed_utxos : B.State → List Utxo
  list_confirmed_utxos s = map utxo_of (B.list_unspent s)

  -- Its errors carry nothing.
  unfoldable pub sign_psbt : B.Psbt → B.State → Result (Unit {0}) Transaction
  sign_psbt psbt s = do
    signed ← map_err (λ _. tt) (B.sign psbt true s)
    if signed.1 then map_err (λ _. tt) (B.extract_tx signed.0) else err tt
