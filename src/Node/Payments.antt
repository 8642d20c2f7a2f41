-- ===== src/Node/Payments.antt =====
-- `pay_bolt11_invoice`, `create_bolt11_invoice` and `get_payment`. The two that write call LDK first
-- and the store afterwards, with no lock held in between: `meanwhile` is what the node's other
-- tasks do to the shared state there.
use ln_node.Prelude.{
  ◌≡◌, ap, ℕ, Bool, true, false, Option, none, some, Result, ok, err, ok?, ◌==◌, nat_eq, list_eq,
  arith, if◌then◌else◌,
}
use ln_node.Kv.{KvStore, IsLawful}
use ln_node.Storage.{PaymentId, PaymentHash, Payment, inbound, outbound, pending}
use ln_node.Storage.Codec.{Formats, IsFaithful}
use ln_node.Storage.Store.{add_payment}
use ln_node.Storage.Store as Store
use ln_node.Storage.Store.Payments.{get_payment-add_payment}
use ln_node.Ldk.{ChannelManager, InvoiceError, sign_error, creation_error}
use ln_node.Wallet.{BdkWallet}
use ln_node.World.{World}
use ln_node.Node.{
  NodeError, amount_not_specified, could_not_make_payment, could_not_create_invoice, store_error,
}

-- `Option::or`.
abbrev pub or : {A : Type 0} → Option A → Option A → Option A
or none b = b
or (some a) b = some a

-- The record of a payment that LDK has taken on.
abbrev pub sent_payment : PaymentHash → ℕ → Payment
sent_payment hash amount = record {
  payment_hash = hash;
  payment_preimage = none;
  payment_id = hash;
  direction = outbound;
  amount_msat = some amount;
  fee_paid_msat = none;
  status = pending;
}

-- The record of an invoice that was made.
abbrev pub expected_payment : PaymentHash → Option ℕ → Payment
expected_payment hash amount = record {
  payment_hash = hash;
  payment_preimage = none;
  payment_id = hash;
  direction = inbound;
  amount_msat = amount;
  fee_paid_msat = none;
  status = pending;
}

abbrev pub invoice_error : InvoiceError → NodeError
invoice_error sign_error = could_not_create_invoice none
invoice_error (creation_error text) = could_not_create_invoice (some text)

-- Whether an error comes from the payment store.
abbrev pub from_store : NodeError → Bool
from_store (store_error e) = true
from_store _ = false

module _ (S : KvStore) (F : Formats) (M : ChannelManager) (B : BdkWallet) where
  -- `self.node_store.add_payment(payment)?; Ok(a)`
  record_payment : {A : Type 0} → Payment → A → World S M B → Result NodeError A × World S M B
  record_payment payment a w =
      let (stored, node_store) = add_payment S F payment w.node_store in
      (
        elim stored [ ok _ ↦ ok a | err e ↦ err (store_error e) ],
        record w { node_store = node_store },
      )

  unfoldable pub pay_bolt11_invoice :
      M.Bolt11Invoice
      → Option ℕ
      → (World S M B → World S M B)
      → World S M B
      → Result NodeError PaymentId × World S M B
  unfolding record_payment
  pay_bolt11_invoice invoice amount_msat meanwhile w =
      elim (or (M.amount_milli_satoshis invoice) amount_msat) [
        | none ↦ (err amount_not_specified, w)
        | some amount ↦
            let payment_id = M.payment_hash invoice in
            let (sent, manager) =
              M.pay_for_bolt11_invoice invoice payment_id amount_msat w.channel_manager in
            let w' : World S M B = record w { channel_manager = manager } in
            elim sent [
              | err e ↦ (err (could_not_make_payment e), w')
              | ok _ ↦ record_payment (sent_payment payment_id amount) payment_id (meanwhile w')
            ]
      ]

  unfoldable pub create_bolt11_invoice :
      Option ℕ
      → (World S M B → World S M B)
      → World S M B
      → Result NodeError M.Bolt11Invoice × World S M B
  unfolding record_payment
  create_bolt11_invoice amount_msat meanwhile w =
      let (made, manager) = M.create_bolt11_invoice amount_msat w.channel_manager in
      let w' : World S M B = record w { channel_manager = manager } in
      elim made [
        | err e ↦ (err (invoice_error e), w')
        | ok invoice ↦
            record_payment (expected_payment (M.payment_hash invoice) amount_msat) invoice
              (meanwhile w')
      ]

  unfoldable pub get_payment : PaymentId → World S M B → Option Payment
  get_payment payment_id w = ok? (Store.get_payment S F payment_id w.node_store)

  -- The state in which LDK has just taken on the payment.
  abbrev pub after_send : M.Bolt11Invoice → Option ℕ → World S M B → World S M B
  after_send invoice amount_msat w = record w {
    channel_manager =
        (M.pay_for_bolt11_invoice invoice (M.payment_hash invoice) amount_msat w.channel_manager).1;
  }

  -- The state in which LDK has just made the invoice.
  abbrev pub after_make : Option ℕ → World S M B → World S M B
  after_make amount_msat w = record w {
    channel_manager = (M.create_bolt11_invoice amount_msat w.channel_manager).1;
  }

  -- A payment that fails for any reason but the store's own leaves the stored payments as they
  -- were, whatever the other tasks would do.
  pub node_store-pay_bolt11_invoice :
      (invoice : M.Bolt11Invoice) (amount_msat : Option ℕ) (meanwhile : World S M B → World S M B)
      (w : World S M B) (e : NodeError)
      → (pay_bolt11_invoice invoice amount_msat meanwhile w).0 ≡ err e
      → from_store e ≡ false
      → (pay_bolt11_invoice invoice amount_msat meanwhile w).1.node_store ≡ w.node_store
  unfolding pay_bolt11_invoice
  node_store-pay_bolt11_invoice invoice amount_msat meanwhile w e h other = ground arith

module _ (S : KvStore) (F : Formats) (M : ChannelManager) (B : BdkWallet) (L : IsLawful S)
    (W : IsFaithful F) where
  get_payment-record_payment :
      (p : Payment) (w : World S M B) (id : PaymentId)
      → (add_payment S F p w.node_store).0 ≡ ok tt
      → get_payment S F M B id (record w { node_store = (add_payment S F p w.node_store).1 })
        ≡ (if p.payment_id == id then some p else get_payment S F M B id w)
  unfolding get_payment
  get_payment-record_payment p w id h =
      rw (get_payment-add_payment S F L W p id w.node_store h) (ground arith)

  -- Over a lawful store and faithful formats, a payment that LDK takes on is recorded as outbound
  -- and pending under the invoice's hash, with the invoice's amount, or the given one where the
  -- invoice has none; the other payments are as the other tasks left them, if the write succeeds.
  pub get_payment-pay_bolt11_invoice :
      (invoice : M.Bolt11Invoice) (amount_msat : Option ℕ) (meanwhile : World S M B → World S M B)
      (w : World S M B) (amount : ℕ)
      → or (M.amount_milli_satoshis invoice) amount_msat ≡ some amount
      → (M.pay_for_bolt11_invoice invoice (M.payment_hash invoice) amount_msat w.channel_manager).0
        ≡ ok tt
      → (add_payment S F
          (sent_payment (M.payment_hash invoice) amount)
          (meanwhile (after_send S F M B invoice amount_msat w)).node_store).0
        ≡ ok tt
      → ((pay_bolt11_invoice S F M B invoice amount_msat meanwhile w).0
          ≡ ok (M.payment_hash invoice))
        × ((other : PaymentId)
            → get_payment S F M B other
                (pay_bolt11_invoice S F M B invoice amount_msat meanwhile w).1
              ≡ (if M.payment_hash invoice == other
                  then some (sent_payment (M.payment_hash invoice) amount)
                  else get_payment S F M B other
                      (meanwhile (after_send S F M B invoice amount_msat w))))
  unfolding pay_bolt11_invoice
  get_payment-pay_bolt11_invoice invoice amount_msat meanwhile w amount sized taken written =
      let id = M.payment_hash invoice in
      let between = meanwhile (after_send S F M B invoice amount_msat w) in
      let p = sent_payment id amount in
      let e : pay_bolt11_invoice S F M B invoice amount_msat meanwhile w
          ≡ (ok id, record between { node_store = (add_payment S F p between.node_store).1 }) =
        ground (arith, sized, taken, written) in
      (ap (λ r. r.0) e, λ other. rw e (get_payment-record_payment p between other written))

  -- Over a lawful store and faithful formats, an invoice that is made is recorded as inbound and
  -- pending under its hash, with the amount asked for; the other payments are as the other tasks
  -- left them, if the write succeeds.
  pub get_payment-create_bolt11_invoice :
      (amount_msat : Option ℕ) (meanwhile : World S M B → World S M B) (w : World S M B)
      (invoice : M.Bolt11Invoice)
      → (M.create_bolt11_invoice amount_msat w.channel_manager).0 ≡ ok invoice
      → (add_payment S F
          (expected_payment (M.payment_hash invoice) amount_msat)
          (meanwhile (after_make S F M B amount_msat w)).node_store).0
        ≡ ok tt
      → ((create_bolt11_invoice S F M B amount_msat meanwhile w).0 ≡ ok invoice)
        × ((other : PaymentId)
            → get_payment S F M B other (create_bolt11_invoice S F M B amount_msat meanwhile w).1
              ≡ (if M.payment_hash invoice == other
                  then some (expected_payment (M.payment_hash invoice) amount_msat)
                  else get_payment S F M B other (meanwhile (after_make S F M B amount_msat w))))
  unfolding create_bolt11_invoice
  get_payment-create_bolt11_invoice amount_msat meanwhile w invoice made written =
      let id = M.payment_hash invoice in
      let between = meanwhile (after_make S F M B amount_msat w) in
      let p = expected_payment id amount_msat in
      let e : create_bolt11_invoice S F M B amount_msat meanwhile w
          ≡ (ok invoice, record between { node_store = (add_payment S F p between.node_store).1 }) =
        ground (arith, made, written) in
      (ap (λ r. r.0) e, λ other. rw e (get_payment-record_payment p between other written))
