-- ===== src/Node/Channels.antt =====
-- `ChannelInfo`, `open_channel`, `close_channel`, `list_channels` and `balance`.
use mathlib.Core.List.{Mem, mem-cons_self, mem-cons_of_mem}
use ln_node.Prelude.{
  ◌≡◌, refl, ◌≢◌, ℕ, ◌+◌, ◌*◌, ◌/◌, ◌%◌, ◌^◌, ◌≤◌, ◌<◌, Bool, Option, none, some, List, [], ◌∷◌,
  map, ◌⊎◌, Result, err, map_err, ◌==◌, nat_eq, list_eq, All, length, Bool-cases, inl, inr, arith,
  if◌then◌else◌,
}
use ln_node.Kv.{Bytes, KvStore}
use ln_node.Storage.{PublicKey}
use ln_node.Ldk.{
  ChannelId, ApiError, api_misuse_error, channel_unavailable, other_api_error, ChannelDetails,
  ChannelManager, ScriptBuf,
}
use ln_node.Wallet.{BdkWallet, next_address}
use ln_node.World.{World}
use ln_node.Node.{
  NodeError, not_connected, could_not_open_channel, channel_does_not_exist, could_not_close_channel,
}

pub record ChannelInfo : Type 0 where
  pub channel_id : ChannelId
  pub counterparty : PublicKey
  pub funding_txo : Option Bytes
  pub short_channel_id : Option ℕ
  pub channel_value_sat : ℕ
  pub local_reserve : Option ℕ
  pub outbound_capacity_sat : ℕ
  pub inbound_capacity_sat : ℕ
  pub confirmations_required : Option ℕ
  pub is_outbound : Bool
  pub is_channel_ready : Bool
  pub is_usable : Bool
  pub is_announced : Bool

-- `From<&ChannelDetails>`; an outpoint is by its bytes in both forms.
unfoldable pub channel_info : ChannelDetails → ChannelInfo
channel_info value = record {
  channel_id = value.channel_id;
  counterparty = value.counterparty;
  funding_txo = value.funding_txo;
  short_channel_id = value.short_channel_id;
  channel_value_sat = value.channel_value_satoshis;
  local_reserve = value.unspendable_punishment_reserve;
  outbound_capacity_sat = value.outbound_capacity_msat / 1000;
  inbound_capacity_sat = value.inbound_capacity_msat / 1000;
  confirmations_required = value.confirmations_required;
  is_outbound = value.is_outbound;
  is_channel_ready = value.is_channel_ready;
  is_usable = value.is_usable;
  is_announced = value.is_announced;
}

abbrev pub open_error : ApiError → NodeError
open_error (api_misuse_error e) = could_not_open_channel (some e)
open_error (channel_unavailable e) = could_not_open_channel (some e)
open_error other_api_error = could_not_open_channel none

abbrev pub close_error : ApiError → NodeError
close_error (api_misuse_error e) = could_not_close_channel (some e)
close_error (channel_unavailable e) = could_not_close_channel (some e)
close_error other_api_error = could_not_close_channel none

-- `iter().find(…)`
find_channel : ChannelId → List ChannelDetails → Option ChannelDetails
find_channel id [] = none
find_channel id (c ∷ cs) = if c.channel_id == id then some c else find_channel id cs

-- A sum of u64; it wraps in a release build.
abbrev pub u64_mod : ℕ
u64_mod = 2 ^ 64

unfoldable pub sum_u64 : List ℕ → ℕ
sum_u64 [] = 0
sum_u64 (x ∷ xs) = (x + sum_u64 xs) % u64_mod

pub record Balance : Type 0 where
  pub onchain_confirmed : ℕ
  pub onchain_pending : ℕ
  pub lightning : ℕ

abbrev outbound_sat : ChannelDetails → ℕ
outbound_sat c = c.outbound_capacity_msat / 1000

-- The millisatoshis of all channels, exactly.
abbrev pub total_msat : List ChannelDetails → ℕ
total_msat [] = 0
total_msat (c ∷ cs) = c.outbound_capacity_msat + total_msat cs

sum_bounds :
    (cs : List ChannelDetails)
    → total_msat cs < u64_mod
    → let sat = sum_u64 (map outbound_sat cs) in
      (sat * 1000 ≤ total_msat cs) × (total_msat cs ≤ sat * 1000 + 999 * length cs)
unfolding sum_u64
sum_bounds [] h = omega arith
sum_bounds (c ∷ cs) h = omega (arith, sum_bounds cs (omega arith))

abbrev pub IsAbsent : ChannelId → List ChannelDetails → Type 0
IsAbsent id = All (λ c. c.channel_id ≢ id)

find_channel-cases :
    (id : ChannelId) (cs : List ChannelDetails)
    → ((c : ChannelDetails) × (find_channel id cs ≡ some c) × (c.channel_id ≡ id) × Mem c cs)
      ⊎ ((find_channel id cs ≡ none) × IsAbsent id cs)
unfolding find_channel
find_channel-cases id [] = inr (refl, tt)
find_channel-cases id (c ∷ cs) = elim (Bool-cases (c.channel_id == id)) [
  | inl same ↦ inl (c, rw same, (list_eq.beq_iff c.channel_id id).0 same, mem-cons_self)
  | inr differ ↦ elim (find_channel-cases id cs) [
    | inl (d, found, e, m) ↦ inl (d, rw differ found, e, mem-cons_of_mem c m)
    | inr (none_left, absent) ↦
        inr
          (rw differ none_left, ((λ e. cc (differ, (list_eq.beq_iff c.channel_id id).1 e)), absent))
  ]
]

module _ (S : KvStore) (M : ChannelManager) (B : BdkWallet) where
  -- `connected`: whether the peer manager has the peer; `user_channel_id`: the random u128.
  unfoldable pub open_channel :
      (PublicKey → Bool)
      → ℕ
      → PublicKey
      → ℕ
      → ℕ
      → World S M B
      → Result NodeError ChannelId × World S M B
  open_channel connected user_channel_id peer_pubkey channel_value_sats push_msat w =
      if connected peer_pubkey
      then (let (opened, manager) =
            M.create_channel peer_pubkey channel_value_sats push_msat user_channel_id
              w.channel_manager in
          (map_err open_error opened, record w { channel_manager = manager }))
      else (err (not_connected peer_pubkey), w)

  unfoldable pub close_channel : ChannelId → World S M B → Result NodeError (Unit {0}) × World S M B
  unfolding find_channel
  close_channel channel_id w = elim (find_channel channel_id (M.list_channels w.channel_manager)) [
    | none ↦ (err (channel_does_not_exist channel_id), w)
    | some channel ↦
        let (closed, manager) = M.close_channel channel_id channel.counterparty w.channel_manager in
        (map_err close_error closed, record w { channel_manager = manager })
  ]

  unfoldable pub list_channels : World S M B → List ChannelInfo
  list_channels w = map channel_info (M.list_channels w.channel_manager)

  -- `Node::new_onchain_address`
  abbrev pub new_onchain_address : World S M B → ScriptBuf × World S M B
  new_onchain_address w =
      let (address, wallet) = next_address B w.bdk_wallet in
      (address, record w { bdk_wallet = wallet })

  unfoldable pub balance : World S M B → Balance
  balance w = record {
    onchain_confirmed = (B.balance w.bdk_wallet).confirmed;
    onchain_pending =
        (B.balance w.bdk_wallet).untrusted_pending + (B.balance w.bdk_wallet).trusted_pending;
    lightning = sum_u64 (map outbound_sat (M.list_channels w.channel_manager));
  }

  -- The lightning balance is the channels' total, rounded down by less than one satoshi for each
  -- channel, if the total fits 64 bits.
  pub balance-lightning_bounds :
      (w : World S M B)
      → total_msat (M.list_channels w.channel_manager) < u64_mod
      → ((balance w).lightning * 1000 ≤ total_msat (M.list_channels w.channel_manager))
        × (total_msat (M.list_channels w.channel_manager)
            ≤ (balance w).lightning * 1000 + 999 * length (M.list_channels w.channel_manager))
  unfolding balance
  balance-lightning_bounds w h = sum_bounds (M.list_channels w.channel_manager) h

  -- Closing a channel asks LDK to close a listed channel of that id with that channel's own
  -- counterparty, and passes its answer on; where no listed channel has the id it fails, and LDK
  -- is not asked.
  pub close_channel-cases :
      (id : ChannelId) (w : World S M B)
      → ((c : ChannelDetails) × (c.channel_id ≡ id)
          × Mem c (M.list_channels w.channel_manager)
          × (close_channel id w ≡ (
            map_err close_error (M.close_channel id c.counterparty w.channel_manager).0,
            record w { channel_manager = (M.close_channel id c.counterparty w.channel_manager).1 },
          )))
        ⊎ (IsAbsent id (M.list_channels w.channel_manager)
            × (close_channel id w ≡ (err (channel_does_not_exist id), w)))
  unfolding close_channel
  close_channel-cases id w = elim (find_channel-cases id (M.list_channels w.channel_manager)) [
    | inl (c, found, same, listed) ↦ inl (c, same, listed, ground (arith, found))
    | inr (missing, absent) ↦ inr (absent, ground (arith, missing))
  ]
