-- ===== src/Events/Payments.antt =====
-- What the payment events leave in the store.
use ln_node.Prelude.{
  ◌≡◌, ℕ, Bool, Option, some, ok, returned, ◌==◌, nat_eq, list_eq, arith, if◌then◌else◌,
}
use ln_node.Kv.{Bytes, KvStore, IsLawful}
use ln_node.Storage.{PaymentId, PaymentHash, PaymentPreimage, Payment, succeeded, failed}
use ln_node.Storage.Codec.{Formats, IsFaithful}
use ln_node.Storage.Store.{get_payment, add_payment, update_payment}
use ln_node.Storage.Store.Payments.{get_payment-add_payment}
use ln_node.Ldk.{ChannelManager}
use ln_node.Wallet.{BdkWallet}
use ln_node.World.{World}
use ln_node.Events.{payment_sent, payment_failed, handle_event}

-- The record after a payment went out, and after it failed.
abbrev pub settled : Payment → PaymentPreimage → Option ℕ → Payment
settled p preimage fee = record p {
  status = succeeded;
  payment_preimage = some preimage;
  fee_paid_msat = fee;
}

abbrev pub given_up : Payment → Payment
given_up p = record p { status = failed }

module _ (S : KvStore) (F : Formats) (M : ChannelManager) (B : BdkWallet) (info : Bool)
    (bump : Bytes → B.State → Option B.State) (min_channel_value_sat : ℕ) (L : IsLawful S)
    (W : IsFaithful F) where
  -- Over a lawful store and faithful formats, a payment that is stored with its amount is, after
  -- `PaymentSent` with a fee, stored as succeeded with the preimage and the fee, and no other
  -- payment changes, if the write succeeds.
  pub payment_sent-settled :
      (id : PaymentId) (preimage : PaymentPreimage) (hash : PaymentHash) (fee amount : ℕ)
      (p : Payment) (w : World S M B)
      → get_payment S F id w.node_store ≡ ok p
      → p.amount_msat ≡ some amount
      → (update_payment S F (settled p preimage (some fee)) w.node_store).0 ≡ ok tt
      → (w' : World S M B) × (handle_event S F M B info bump min_channel_value_sat
            (payment_sent (some id) preimage hash (some fee))
            w
          ≡ returned (ok tt, w'))
        × ((other : PaymentId)
            → get_payment S F other w'.node_store ≡ (
                if p.payment_id == other
                then ok (settled p preimage (some fee))
                else get_payment S F other w.node_store))
  unfolding handle_event update_payment
  payment_sent-settled id preimage hash fee amount p w stored sized written = (
    record w { node_store = (add_payment S F (settled p preimage (some fee)) w.node_store).1 },
    ground (arith, stored, sized),
    λ other.
        get_payment-add_payment S F L W (settled p preimage (some fee)) other w.node_store written,
  )

  -- Over a lawful store and faithful formats, a stored payment is, after `PaymentFailed` with its
  -- hash and a reason, stored as failed and otherwise as it was, and no other payment changes, if
  -- the write succeeds.
  pub payment_failed-given_up :
      (id : PaymentId) (hash : PaymentHash) (reason : Bytes) (p : Payment) (w : World S M B)
      → get_payment S F id w.node_store ≡ ok p
      → (update_payment S F (given_up p) w.node_store).0 ≡ ok tt
      → (w' : World S M B) × (handle_event S F M B info bump min_channel_value_sat
            (payment_failed id (some hash) (some reason))
            w
          ≡ returned (ok tt, w'))
        × ((other : PaymentId)
            → get_payment S F other w'.node_store ≡ (
                if p.payment_id == other
                then ok (given_up p)
                else get_payment S F other w.node_store))
  unfolding handle_event update_payment
  payment_failed-given_up id hash reason p w stored written = (
    record w { node_store = (add_payment S F (given_up p) w.node_store).1 },
    ground (arith, stored),
    λ other. get_payment-add_payment S F L W (given_up p) other w.node_store written,
  )
