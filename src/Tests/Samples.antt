-- ===== src/Tests/Samples.antt =====
-- A channel manager that keeps its channels and a log of what it was asked, a bdk wallet that keeps
-- its balance, and JSON values, all small enough to run.
use ln_node.Prelude.{
  ℕ, zero, suc, ◌+◌, ◌*◌, ◌/◌, ◌^◌, ◌≤◌, true, false, String, Option, none, some, List, [], ◌∷◌,
  Result, ok, err, ◌==◌, string_eq, min, arith, if◌then◌else◌,
}
use ln_node.Kv.{Bytes}
use ln_node.Kv.Memory.{memory_store}
use ln_node.Json.{Json}
use ln_node.Storage.{Payment, outbound, pending, PeerInfo, tcp_ip_v4}
use ln_node.Ldk.{ChannelManager, ChannelDetails}
use ln_node.Fees.Cache.{fallback_fees, u32_max}
use ln_node.Wallet.{BdkWallet, OnchainBalance, LocalOutput}
use ln_node.World.{World}

-- What the sample manager was asked.
pub data Asked : Type 0 where
  created closed force_closed accepted funded claimed failed paid invoiced : Bytes → Asked

pub record Managed : Type 0 where
  pub channels : List ChannelDetails
  pub log : List Asked

pub record SampleInvoice : Type 0 where
  pub hash : Bytes
  pub amount : Option ℕ

abbrev pub asks : {A : Type 0} → A → Asked → Managed → A × Managed
asks a q m = (a, record m { log = q ∷ m.log })

abbrev pub manager : ChannelManager
manager = record {
  State = Managed;
  Bolt11Invoice = SampleInvoice;
  amount_milli_satoshis = λ i. i.amount;
  payment_hash = λ i. i.hash;
  list_channels = λ m. m.channels;
  create_channel = λ peer value push id m. asks (ok (id ∷ [])) (created peer) m;
  close_channel = λ id peer m. asks (ok tt) (closed id) m;
  force_close_broadcasting_latest_txn = λ id peer text m. asks (ok tt) (force_closed id) m;
  accept_inbound_channel = λ id peer user m. asks (ok tt) (accepted id) m;
  funding_transaction_generated = λ id peer tx m. asks (ok tt) (funded tx) m;
  claim_funds = λ preimage m. record m { log = claimed preimage ∷ m.log };
  fail_htlc_backwards = λ hash m. record m { log = failed hash ∷ m.log };
  pay_for_bolt11_invoice = λ invoice id amount m. asks (ok tt) (paid id) m;
  create_bolt11_invoice =
      λ amount m. asks (ok (record { hash = 7 ∷ []; amount = amount })) (invoiced []) m;
}

abbrev pub channel : ℕ → ℕ → ChannelDetails
channel id msat = record {
  channel_id = id ∷ [];
  counterparty = 2 ∷ id ∷ [];
  funding_txo = none;
  short_channel_id = none;
  channel_value_satoshis = 500000;
  unspendable_punishment_reserve = none;
  outbound_capacity_msat = msat;
  inbound_capacity_msat = 1999;
  confirmations_required = none;
  is_outbound = true;
  is_channel_ready = true;
  is_usable = true;
  is_announced = false;
}

abbrev pub outputs : List LocalOutput
outputs =
    record { outpoint = 1 ∷ []; txout = 9 ∷ []; is_confirmed = true }
    ∷ record { outpoint = 2 ∷ []; txout = 8 ∷ []; is_confirmed = false }
    ∷ []

abbrev pub wallet : BdkWallet
wallet = record {
  State = OnchainBalance;
  Psbt = Bytes;
  balance = λ s. s;
  list_unspent = λ s. outputs;
  next_unused_address = λ kind s. (5 ∷ [], s);
  build = λ dest amount fee s. (ok (amount ∷ fee ∷ dest), s);
  sign = λ psbt trust s. ok (psbt, true);
  extract_tx = λ psbt. ok psbt;
}

abbrev pub funds : ℕ → OnchainBalance
funds sat = record { trusted_pending = 1; untrusted_pending = 2; confirmed = sat }

abbrev pub world : ℕ → World memory_store manager wallet
world sat = record {
  node_store = [];
  channel_manager = record { channels = channel 1 2500 ∷ channel 2 3999 ∷ []; log = [] };
  bdk_wallet = funds sat;
  wallet_poisoned = false;
  fee_cache = fallback_fees;
}

abbrev pub sample_payment : Payment
sample_payment = record {
  payment_id = 4 ∷ 2 ∷ [];
  payment_hash = 4 ∷ 2 ∷ [];
  payment_preimage = none;
  direction = outbound;
  amount_msat = some 21000;
  fee_paid_msat = none;
  status = pending;
}

abbrev pub sample_peer : PeerInfo
sample_peer = record { node_id = 2 ∷ 7 ∷ []; address = tcp_ip_v4 (127 ∷ 0 ∷ 0 ∷ 1 ∷ []) 9735 }

-- Values of JSON: a number stands for itself in every reading.
pub data Value : Type 0 where
  number : ℕ → Value
  text : String → Value
  -- An answer to `getblockchaininfo`.
  info : String → ℕ → Value

abbrev field : Value → String → Value
field (info hash blocks) key = if key == "blocks" then number blocks else text hash
field (number n) key = number n
field (text s) key = text s

abbrev as_text : Value → Option String
as_text (number n) = none
as_text (text s) = some s
as_text (info hash blocks) = none

abbrev as_number : Value → Option ℕ
as_number (number n) = some n
as_number (text s) = none
as_number (info hash blocks) = none

abbrev pub json : Json
json = record {
  Value = Value;
  F64 = ℕ;
  get = λ v key. some (field v key);
  index = field;
  as_str = as_text;
  as_u64 = as_number;
  as_f64 = as_number;
  of_str = text;
  of_u64 = number;
  of_bool = λ b. number 0;
  null = number 0;
  array = λ vs. number 0;
  object = λ fields. number 0;
  mul = λ a b. a * b;
  div = λ a b. a / b;
  literal = λ n. n;
  as_u32 = λ n. min n u32_max;
}

pub as_u32_bound : (x : ℕ) → min x u32_max ≤ u32_max
as_u32_bound x = omega arith

-- bitcoind, which answers the first fee call and refuses the others.
abbrev pub answers : ℕ → String → List Value → Result String Value
answers zero method params = ok (number 1)
answers (suc n) method params = err "busy"

abbrev pub chain_answers : ℕ → String → List Value → Result String Value
chain_answers n method params = ok (info "00ab" (2 ^ 32 + 5))
