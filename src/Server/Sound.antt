-- ===== src/Server/Sound.antt =====
-- The server among the node's other tasks: each answer is made of steps of the node.
use ln_node.Prelude.{
  ◌≡◌, ap, ℕ, String, Bool, Option, none, some, string_eq, Result-cases, Option-cases, inl, inr,
  arith,
}
use ln_node.Kv.{Bytes, KvStore}
use ln_node.Storage.Codec.{Formats}
use ln_node.Ldk.{ChannelManager}
use ln_node.Wallet.{BdkWallet}
use ln_node.World.{World}
use ln_node.Json.{Json}
use ln_node.Node.Channels.{open_channel, close_channel, close_channel-cases}
use ln_node.Node.Payments.{or, pay_bolt11_invoice, create_bolt11_invoice, after_send, after_make}
use ln_node.Node.Lifecycle.{Steps, here, elsewhere, pays, makes}
use ln_node.Server.{
  Texts, Surroundings, Served, array_32, on_new_address, on_node_pubkey, on_balance,
  on_open_channel, on_list_channels, on_close_channel, on_send_payment, on_receive, on_get_payment,
  on_connect, dispatch, respond,
}
use ln_node.Server.Answers.{Goes, unwrap-Goes, dispatch-Goes}

module _ (S : KvStore) (F : Formats) (M : ChannelManager) (B : BdkWallet) (J : Json) (T : Texts M J)
    (around : Surroundings S M B) (info : Bool) (bump : Bytes → B.State → Option B.State)
    (minimum : ℕ)
    -- What the other tasks do meanwhile are steps of the node.
    (others : (w : World S M B) → Steps S F M B info bump minimum w (around.meanwhile w)) where
  abbrev Reaches : World S M B → World S M B → Type 0
  Reaches = Steps S F M B info bump minimum

  pay-Steps :
      (invoice : M.Bolt11Invoice) (amount_msat : Option ℕ) (w : World S M B)
      → Reaches w (pay_bolt11_invoice S F M B invoice amount_msat around.meanwhile w).1
  pay-Steps invoice amount_msat w =
      let between = around.meanwhile (after_send S F M B invoice amount_msat w) in
      let same : (pay_bolt11_invoice S F M B invoice amount_msat (λ _. between) w).1
          ≡ (pay_bolt11_invoice S F M B invoice amount_msat around.meanwhile w).1 =
        unfold pay_bolt11_invoice in
        elim (Option-cases (or (M.amount_milli_satoshis invoice) amount_msat)) [
          | inl unknown ↦ ground (arith, unknown)
          | inr (amount, sized) ↦
              elim (Result-cases
                (M.pay_for_bolt11_invoice invoice (M.payment_hash invoice) amount_msat
                  w.channel_manager).0) [
                    | inl (_, sent) ↦ ground (arith, sized, sent)
                    | inr (e, refused) ↦ ground (arith, sized, refused)
                  ]
        ] in
      rw (← same) (pays here invoice amount_msat between (others _))

  make-Steps :
      (amount_msat : Option ℕ) (w : World S M B)
      → Reaches w (create_bolt11_invoice S F M B amount_msat around.meanwhile w).1
  make-Steps amount_msat w =
      let between = around.meanwhile (after_make S F M B amount_msat w) in
      let same : (create_bolt11_invoice S F M B amount_msat (λ _. between) w).1
          ≡ (create_bolt11_invoice S F M B amount_msat around.meanwhile w).1 =
        unfold create_bolt11_invoice in
        elim (Result-cases (M.create_bolt11_invoice amount_msat w.channel_manager).0) [
          | inl (_, made) ↦ ground (arith, made)
          | inr (e, refused) ↦ ground (arith, refused)
        ] in
      rw (← same) (makes here amount_msat between (others _))

  -- An answer that does not write to the store.
  spares :
      (k : World S M B → Served J (World S M B))
      → Goes (λ w w'. w'.node_store ≡ w.node_store) k
      → Goes Reaches k
  spares k f w w' v h = elsewhere here w' (f w w' v h)

  abbrev Spares : (World S M B → Served J (World S M B)) → Type 0
  Spares = Goes (λ w w'. w'.node_store ≡ w.node_store)

  new_address-Spares : Spares (on_new_address S F M B J T around)
  unfolding on_new_address
  new_address-Spares w w' v h = ground (arith, h)

  node_pubkey-Spares : Spares (on_node_pubkey S F M B J T around)
  unfolding on_node_pubkey
  node_pubkey-Spares w w' v h = ground (arith, h)

  balance-Spares : Spares (on_balance S F M B J T around)
  unfolding on_balance
  balance-Spares w w' v h = ground (arith, h)

  list_channels-Spares : Spares (on_list_channels S F M B J T around)
  unfolding on_list_channels
  list_channels-Spares w w' v h = ground (arith, h)

  open_channel-Spares :
      (pubkey : String) (amount : ℕ) → Spares (on_open_channel S F M B J T around pubkey amount)
  unfolding on_open_channel
  open_channel-Spares pubkey amount = unwrap-Goes (T.parse_pubkey pubkey) _ λ peer w w' v h.
      let result = open_channel S M B around.connected around.user_channel_id peer amount 0 w in
      let same : result.1.node_store ≡ w.node_store = unfold open_channel in ground arith in
      elim (Result-cases result.0) [
        | inl (_, opened) ↦ ground (arith, h, opened, same)
        | inr (e, refused) ↦ ground (arith, h, refused, same)
      ]

  close_channel-Spares : (text : String) → Spares (on_close_channel S F M B J T around text)
  unfolding on_close_channel
  close_channel-Spares text = unwrap-Goes (T.hex_decode text) _ λ bytes.
      unwrap-Goes (array_32 bytes) _ λ id w w' v h.
        let result = close_channel S M B id w in
        let same : result.1.node_store ≡ w.node_store = elim (close_channel-cases S M B id w) [
          | inl (c, e, m, done) ↦ ap (λ r. r.1.node_store) done
          | inr (absent, done) ↦ ap (λ r. r.1.node_store) done
        ] in
        elim (Result-cases result.0) [
          | inl (_, closed) ↦ ground (arith, h, closed, same)
          | inr (e, refused) ↦ ground (arith, h, refused, same)
        ]

  get_payment-Spares : (text : String) → Spares (on_get_payment S F M B J T around text)
  unfolding on_get_payment
  get_payment-Spares text =
      unwrap-Goes (T.hex_decode text) _
        λ bytes. unwrap-Goes (array_32 bytes) _ λ id w w' v h. ground arith

  connect-Spares : (k a : String) → Spares (on_connect S F M B J T around k a)
  unfolding on_connect
  connect-Spares k a =
      unwrap-Goes (T.parse_pubkey k) _
        λ peer. unwrap-Goes (T.parse_socket_addr a) _ λ addr w w' v h. ground arith

  send_payment-Reaches : (text : String) → Goes Reaches (on_send_payment S F M B J T around text)
  unfolding on_send_payment
  send_payment-Reaches text = unwrap-Goes (T.parse_invoice text) _ λ invoice w w' v h.
      let result = pay_bolt11_invoice S F M B invoice none around.meanwhile w in
      let same : result.1 ≡ w' = elim (Result-cases result.0) [
        | inl (id, paid) ↦ ground (arith, h, paid)
        | inr (e, refused) ↦ ground (arith, h, refused)
      ] in
      rw (← same) (pay-Steps invoice none w)

  receive-Reaches : (amount_msat : ℕ) → Goes Reaches (on_receive S F M B J T around amount_msat)
  unfolding on_receive
  receive-Reaches amount_msat w w' v h =
      let result = create_bolt11_invoice S F M B (some amount_msat) around.meanwhile w in
      let same : result.1 ≡ w' = elim (Result-cases result.0) [
        | inl (invoice, made) ↦ ground (arith, h, made)
        | inr (e, refused) ↦ absurd (ground (arith, h, refused))
      ] in
      rw (← same) (make-Steps (some amount_msat) w)

  dispatch-Reaches : (m : String) (r : J.Value) → Goes Reaches (dispatch S F M B J T around m r)
  dispatch-Reaches m r = dispatch-Goes S F M B J T around m r (record {
    node_pubkey = spares _ node_pubkey-Spares;
    new_address = λ _. spares _ new_address-Spares;
    balance = spares _ balance-Spares;
    open_channel = λ _ k n. spares _ (open_channel-Spares k n);
    list_channels = spares _ list_channels-Spares;
    close_channel = λ _ k. spares _ (close_channel-Spares k);
    send_payment = λ _. send_payment-Reaches;
    receive = λ _. receive-Reaches;
    get_payment = λ k. spares _ (get_payment-Spares k);
    connect = λ k a. spares _ (connect-Spares k a);
    unknown = spares _ λ w w' v h. ground (arith, h);
  })

  pub respond-Reaches : (r : J.Value) → Goes Reaches (respond S F M B J T around r)
  unfolding respond
  respond-Reaches r =
      unwrap-Goes (J.as_str (J.index r "method")) _ λ method. dispatch-Reaches method r
