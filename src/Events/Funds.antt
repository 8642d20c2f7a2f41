-- ===== src/Events/Funds.antt =====
-- What the handler does with incoming payments.
use ln_node.Prelude.{Option, ◌≡◌, ℕ, Bool, true, false, none, some, Result, returned, arith}
use ln_node.Kv.{Bytes, KvStore}
use ln_node.Storage.Codec.{Formats}
use ln_node.Ldk.{ChannelManager}
use ln_node.Wallet.{BdkWallet}
use ln_node.World.{World}
use ln_node.Events.{
  Event, ReplayEvent, funding_generation_ready, open_channel_request, channel_pending,
  payment_claimable, bolt11_invoice_payment, other_purpose, handle_event,
}

-- The two events that make or take on a channel.
abbrev pub makes_channel : Event → Bool
makes_channel (funding_generation_ready id counterparty value script) = true
makes_channel (open_channel_request id counterparty funding anchors) = true
makes_channel _ = false

-- What the channel manager is told of an event: to claim a payment of an own invoice, whose preimage
-- it gives, to fail a payment of any other kind, and of other events nothing.
abbrev pub told_of : (M : ChannelManager) → Event → M.State → M.State
told_of M (payment_claimable hash (bolt11_invoice_payment (some preimage))) m =
    M.claim_funds preimage m
told_of M (payment_claimable hash other_purpose) m = M.fail_htlc_backwards hash m
told_of M _ m = m

module _ (S : KvStore) (F : Formats) (M : ChannelManager) (B : BdkWallet) (info : Bool)
    (bump : Bytes → B.State → Option B.State) (minimum : ℕ) where
  -- Where the handler returns from any event but the two that make or take on a channel: the
  -- channel manager has claimed a payment only if the event is of that payment, of an own invoice
  -- and with its preimage; it has failed one only if the event is of that payment and not of an
  -- invoice; and it is otherwise unchanged, also where an invoice's preimage is not known.
  pub channel_manager-handle_event :
      (e : Event) (w : World S M B) (r : Result ReplayEvent (Unit {0})) (w' : World S M B)
      → makes_channel e ≡ false
      → handle_event S F M B info bump minimum e w ≡ returned (r, w')
      → w'.channel_manager ≡ told_of M e w.channel_manager
  unfolding handle_event
  channel_manager-handle_event (channel_pending id) w r w' q h = ground arith
  channel_manager-handle_event (payment_claimable hash (bolt11_invoice_payment none)) w r w' q h =
      ground (arith, h)
  channel_manager-handle_event _ w r w' q h = ground arith
