-- ===== src/Node/Lifecycle/Writes.antt =====
-- What each operation and each event writes to the payments of the store.
use ln_node.Prelude.{
  ◌≡◌, refl, ℕ, Bool, true, Option, none, some, Result, ok, returned, Result-cases, Option-cases,
  inl, inr, ◌⊎◌, nat_eq, list_eq, arith,
}
use ln_node.Kv.{Bytes, KvStore}
use ln_node.Storage.{PaymentId, Payment, succeeded, failed}
use ln_node.Storage.Codec.{Formats}
use ln_node.Storage.Store.{get_payment, add_payment, update_payment}
use ln_node.Ldk.{ChannelManager}
use ln_node.Wallet.{BdkWallet}
use ln_node.World.{World}
use ln_node.Events.{Event, ReplayEvent, payment_sent, payment_failed, is_some, handle_event}
use ln_node.Events.Payments.{settled, given_up}
use ln_node.Events.Frame.{node_store-handle_event}
use ln_node.Node.Payments.{
  or, sent_payment, expected_payment, pay_bolt11_invoice, create_bolt11_invoice,
}

module _ (S : KvStore) (F : Formats) (M : ChannelManager) (B : BdkWallet) (info : Bool)
    (bump : Bytes → B.State → Option B.State) (minimum : ℕ) where
  -- An event's update of a stored payment: it succeeds, with a preimage, or fails, and keeps what it
  -- was made with.
  pub record Updates (s : S.State) (t : S.State) : Type 0 where
    pub old : Payment
    pub fresh : Payment
    pub at_id : PaymentId
    pub found : get_payment S F at_id s ≡ ok old
    pub written : t ≡ (add_payment S F fresh s).1
    pub same_id : fresh.payment_id ≡ old.payment_id
    pub same_hash : fresh.payment_hash ≡ old.payment_hash
    pub same_direction : fresh.direction ≡ old.direction
    pub same_amount : fresh.amount_msat ≡ old.amount_msat
    pub ended :
        (fresh.status ≡ failed)
        ⊎ ((fresh.status ≡ succeeded) × (is_some fresh.payment_preimage ≡ true))

  pub node_store-event_cases :
      (e : Event) (w w' : World S M B) (r : Result ReplayEvent (Unit {0}))
      → handle_event S F M B info bump minimum e w ≡ returned (r, w')
      → (w'.node_store ≡ w.node_store) ⊎ Updates w.node_store w'.node_store
  unfolding handle_event update_payment
  node_store-event_cases (payment_sent none preimage hash fee) w w' r h = absurd (ground arith)
  node_store-event_cases (payment_sent (some id) preimage hash fee) w w' r h =
      elim (Result-cases (get_payment S F id w.node_store)) [
        | inl (p, stored) ↦ inr (record {
          old = p;
          fresh = settled p preimage fee;
          at_id = id;
          found = stored;
          written = ground (arith, h, stored);
          same_id = refl;
          same_hash = refl;
          same_direction = refl;
          same_amount = refl;
          ended = inr (refl, refl);
        })
        | inr (e, missing) ↦ inl (ground (arith, h, missing))
      ]
  node_store-event_cases (payment_failed id none reason) w w' r h = inl (ground (arith, h))
  node_store-event_cases (payment_failed id (some hash) reason) w w' r h =
      elim (Result-cases (get_payment S F id w.node_store)) [
        | inl (p, stored) ↦ inr (record {
          old = p;
          fresh = given_up p;
          at_id = id;
          found = stored;
          written = ground (arith, h, stored);
          same_id = refl;
          same_hash = refl;
          same_direction = refl;
          same_amount = refl;
          ended = inl refl;
        })
        | inr (e, missing) ↦ inl (ground (arith, h, missing))
      ]
  node_store-event_cases e w w' r h =
      inl (node_store-handle_event S F M B info bump minimum e w r w' refl h)

module _ (S : KvStore) (F : Formats) (M : ChannelManager) (B : BdkWallet) where
  -- What a payment leaves in the store: nothing, or its record.
  pub node_store-pay_cases :
      (invoice : M.Bolt11Invoice) (amount_msat : Option ℕ) (w between : World S M B)
      → let t = (pay_bolt11_invoice S F M B invoice amount_msat (λ _. between) w).1.node_store in
        (t ≡ w.node_store)
        ⊎ ((amount : ℕ) × (t
              ≡ (add_payment S F
                  (sent_payment (M.payment_hash invoice) amount)
                  between.node_store).1))
  unfolding pay_bolt11_invoice
  node_store-pay_cases invoice amount_msat w between =
      elim (Option-cases (or (M.amount_milli_satoshis invoice) amount_msat)) [
        | inl unknown ↦ inl (ground (arith, unknown))
        | inr (amount, sized) ↦
            elim (Result-cases
              (M.pay_for_bolt11_invoice invoice (M.payment_hash invoice) amount_msat
                w.channel_manager).0) [
                  | inl (_, sent) ↦ inr (amount, ground (arith, sized, sent))
                  | inr (e, refused) ↦ inl (ground (arith, sized, refused))
                ]
      ]

  pub node_store-make_cases :
      (amount_msat : Option ℕ) (w between : World S M B)
      → let t = (create_bolt11_invoice S F M B amount_msat (λ _. between) w).1.node_store in
        (t ≡ w.node_store)
        ⊎ ((invoice : M.Bolt11Invoice) × ((M.create_bolt11_invoice amount_msat w.channel_manager).0
              ≡ ok invoice)
            × (t
                ≡ (add_payment S F
                    (expected_payment (M.payment_hash invoice) amount_msat)
                    between.node_store).1))
  unfolding create_bolt11_invoice
  node_store-make_cases amount_msat w between =
      elim (Result-cases (M.create_bolt11_invoice amount_msat w.channel_manager).0) [
        | inl (invoice, made) ↦ inr (invoice, made, ground (arith, made))
        | inr (e, refused) ↦ inl (ground (arith, refused))
      ]
