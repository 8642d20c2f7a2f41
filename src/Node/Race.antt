-- ===== src/Node/Race.antt =====
-- The payment's event and the write of its record race.
use ln_node.Prelude.{
  ◌≡◌, refl, ap, ◌∙◌, ok?, ok?-eq-some, panicked, ℕ, Bool, true, Option, some, ok, returned, ◌==◌,
  nat_eq, list_eq, eq_self, arith,
}
use ln_node.Kv.{Bytes, KvStore, IsLawful}
use ln_node.Storage.{PaymentHash, PaymentPreimage, Payment}
use ln_node.Storage.Codec.{Formats, IsFaithful}
use ln_node.Storage.Store.{add_payment, update_payment}
use ln_node.Ldk.{ChannelManager}
use ln_node.Wallet.{BdkWallet}
use ln_node.World.{World}
use ln_node.Events.{Event, payment_sent, handle_event}
use ln_node.Events.Payments.{settled, payment_sent-settled}
use ln_node.Node.Payments.{
  or, sent_payment, pay_bolt11_invoice, get_payment, get_payment-pay_bolt11_invoice,
}

-- LDK's event for a payment that went out.
abbrev pub sent_event : PaymentHash → PaymentPreimage → ℕ → Event
sent_event id preimage fee = payment_sent (some id) preimage id (some fee)

module _ (S : KvStore) (F : Formats) (M : ChannelManager) (B : BdkWallet) (info : Bool)
    (bump : Bytes → B.State → Option B.State) (minimum : ℕ) (L : IsLawful S)
    (W : IsFaithful F) where
  -- The handler on an event, where it does not panic.
  abbrev pub handled : Event → World S M B → World S M B
  handled e w = elim (handle_event S F M B info bump minimum e w) [
    | panicked ↦ w
    | returned (_, w') ↦ w'
  ]

  abbrev pub nothing : World S M B → World S M B
  nothing w = w

  -- Over a lawful store whose writes succeed and faithful formats, let LDK take on the payment of
  -- an invoice whose amount is known. If LDK's `PaymentSent` is handled after `pay_bolt11_invoice`
  -- has returned, the payment is found as succeeded with its preimage and fee. If it is handled
  -- between LDK's acceptance and the write of the record, the payment is found as pending
  -- afterwards.
  pub payment_sent_races :
      (invoice : M.Bolt11Invoice) (amount_msat : Option ℕ) (w : World S M B) (amount fee : ℕ)
      (preimage : PaymentPreimage)
      → or (M.amount_milli_satoshis invoice) amount_msat ≡ some amount
      → (M.pay_for_bolt11_invoice invoice (M.payment_hash invoice) amount_msat w.channel_manager).0
        ≡ ok tt
      → ((p : Payment) (s : S.State) → (add_payment S F p s).0 ≡ ok tt)
      → (get_payment S F M B (M.payment_hash invoice) (
            handled
              (sent_event (M.payment_hash invoice) preimage fee)
              (pay_bolt11_invoice S F M B invoice amount_msat nothing w).1)
          ≡ some (settled (sent_payment (M.payment_hash invoice) amount) preimage (some fee)))
        × (get_payment S F M B
              (M.payment_hash invoice)
              (pay_bolt11_invoice S F M B invoice amount_msat
                (handled (sent_event (M.payment_hash invoice) preimage fee))
                w).1
            ≡ some (sent_payment (M.payment_hash invoice) amount))
  unfolding get_payment update_payment
  payment_sent_races invoice amount_msat w amount fee preimage sized taken writes =
      let id = M.payment_hash invoice in
      let p = sent_payment id amount in
      let same : (id == id) ≡ true = eq_self id in
      let w1 : World S M B = (pay_bolt11_invoice S F M B invoice amount_msat nothing w).1 in
      let event : Event = payment_sent (some id) preimage id (some fee) in
      let first =
        get_payment-pay_bolt11_invoice S F M B L W invoice amount_msat nothing w amount sized taken
          (writes _ _) in
      let second =
        get_payment-pay_bolt11_invoice S F M B L W invoice amount_msat (handled event) w amount
          sized taken (writes _ _) in
      let found : get_payment S F M B id w1 ≡ some p = first.1 id ∙ rw same in
      let (w2, e, after) =
        payment_sent-settled S F M B info bump minimum L W id preimage id fee amount p w1
          (ok?-eq-some _ found) refl (writes _ _) in
      let gone : handled event w1 ≡ w2 = ground (arith, e) in
      (rw gone (ap ok? (after id) ∙ rw same), second.1 id ∙ rw same)
