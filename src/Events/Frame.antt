-- ===== src/Events/Frame.antt =====
-- Which events write the payment store, that none is replayed, and when the handler panics.
use ln_node.Prelude.{
  Option, ◌≡◌, ◌≢◌, ℕ, Bool, true, false, none, some, Result, ok, returned, panicked, Result-cases,
  inl, inr, arith,
}
use ln_node.Kv.{Bytes, KvStore}
use ln_node.Storage.{Payment, PaymentId}
use ln_node.Storage.Codec.{Formats}
use ln_node.Storage.Store.{get_payment}
use ln_node.Ldk.{ChannelManager}
use ln_node.Fees.{maximum_fee_estimate}
use ln_node.Fees.Cache.{get_est_sat_per_1000_weight}
use ln_node.Wallet.{BdkWallet, build_transaction}
use ln_node.World.{World}
use ln_node.Events.{
  Event, ReplayEvent, payment_sent, payment_failed, payment_path_successful, is_some, handle_event,
  channel_pending,
}

-- The two events on which the handler updates a stored payment.
abbrev pub settles : Event → Bool
settles (payment_sent id preimage hash fee) = true
settles (payment_failed id hash reason) = true
settles _ = false

-- What LDK documents of the events of its current versions: the fields that it calls optional for
-- old records only are there.
abbrev pub IsCurrent : Event → Type 0
IsCurrent (payment_sent id preimage hash fee) = (is_some id ≡ true) × (is_some fee ≡ true)
IsCurrent (payment_failed id hash reason) = is_some reason ≡ true
IsCurrent (payment_path_successful id hash) = is_some hash ≡ true
IsCurrent _ = Unit

module _ (S : KvStore) (F : Formats) (M : ChannelManager) (B : BdkWallet) (info : Bool)
    (bump : Bytes → B.State → Option B.State) (minimum : ℕ) where
  -- Where the handler returns, it does not ask LDK to deliver the event again, not even if it
  -- could not build a transaction or write the store.
  pub handle_event-no_replay :
      (e : Event) (w : World S M B) (r : Result ReplayEvent (Unit {0})) (w' : World S M B)
      → handle_event S F M B info bump minimum e w ≡ returned (r, w')
      → r ≡ ok tt
  unfolding handle_event
  handle_event-no_replay (channel_pending id) w r w' h = ground arith
  handle_event-no_replay _ w r w' h = ground arith

  -- Where the handler returns from any event but `PaymentSent` and `PaymentFailed`, the payment
  -- store is unchanged: also after the events of a received payment.
  pub node_store-handle_event :
      (e : Event) (w : World S M B) (r : Result ReplayEvent (Unit {0})) (w' : World S M B)
      → settles e ≡ false
      → handle_event S F M B info bump minimum e w ≡ returned (r, w')
      → w'.node_store ≡ w.node_store
  unfolding handle_event
  node_store-handle_event (channel_pending id) w r w' q h = ground arith
  node_store-handle_event _ w r w' q h = ground arith

  -- The payment that a `PaymentSent` is of has an amount.
  abbrev pub IsSized : Event → World S M B → Type 0
  IsSized (payment_sent (some id) preimage hash fee) w =
      (p : Payment) → get_payment S F id w.node_store ≡ ok p → is_some p.amount_msat ≡ true
  IsSized _ w = Unit

  pub handle_event_lives :
      (e : Event) (w : World S M B)
      → IsCurrent e
      → IsSized e w
      → w.wallet_poisoned ≡ false
      → get_est_sat_per_1000_weight w.fee_cache maximum_fee_estimate ≢ none
      → handle_event S F M B info bump minimum e w ≢ panicked
  unfolding handle_event build_transaction
  handle_event_lives (channel_pending id) w current sized sane fees h = ground arith
  handle_event_lives (payment_sent (some id) preimage hash fee) w current sized sane fees h =
      elim (Result-cases (get_payment S F id w.node_store)) [
        | inl (p, stored) ↦ ground (arith, h, stored, sized p stored)
        | inr (e, missing) ↦ ground (arith, h, missing)
      ]
  handle_event_lives (payment_failed id (some hash) reason) w current sized sane fees h =
      ground arith
  handle_event_lives _ w current sized sane fees h = ground arith

  all-IsSized :
      (e : Event) (w : World S M B)
      → ((id : PaymentId) (p : Payment)
          → get_payment S F id w.node_store ≡ ok p
          → is_some p.amount_msat ≡ true)
      → IsSized e w
  all-IsSized (payment_sent (some id) preimage hash fee) w sized = sized id
  all-IsSized (payment_sent none preimage hash fee) w sized = tt
  all-IsSized (channel_pending id) w sized = tt
  all-IsSized _ w sized = tt

  -- The handler does not panic on an event of a current LDK, if the stored payments have
  -- amounts, the wallet's mutex is not poisoned and the fee cache has the largest estimate.
  handle_event-returns :
      (e : Event) (w : World S M B)
      → IsCurrent e
      → ((id : PaymentId) (p : Payment)
          → get_payment S F id w.node_store ≡ ok p
          → is_some p.amount_msat ≡ true)
      → w.wallet_poisoned ≡ false
      → w.wallet_poisoned ≡ false
      → get_est_sat_per_1000_weight w.fee_cache maximum_fee_estimate ≢ none
      → handle_event S F M B info bump minimum e w ≢ panicked
  handle_event-returns e w current sized sane fees =
      handle_event_lives e w current (all-IsSized e w sized) fees
