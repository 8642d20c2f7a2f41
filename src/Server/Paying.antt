-- ===== src/Server/Paying.antt =====
-- A payment that is sent by one request and looked up by the next.
use ln_node.Prelude.{
  ◌≡◌, refl, ◌∙◌, ℕ, String, none, some, ok, length, nat_eq, list_eq, string_eq, eq_self, arith,
}
use ln_node.Kv.{Bytes, KvStore, IsLawful}
use ln_node.Storage.{Payment}
use ln_node.Storage.Codec.{Formats, IsFaithful}
use ln_node.Storage.Store.{add_payment}
use ln_node.Ldk.{ChannelManager}
use ln_node.Wallet.{BdkWallet}
use ln_node.World.{World}
use ln_node.Json.{Json}
use ln_node.Json.Records.{payment_value}
use ln_node.Node.Payments.{
  sent_payment, pay_bolt11_invoice, get_payment, get_payment-pay_bolt11_invoice,
}
use ln_node.Server.{
  Texts, Surroundings, answered, param, field, on_send_payment, on_get_payment, dispatch, respond,
}
use ln_node.Server.Protocol.{respond_method}

module _ (S : KvStore) (F : Formats) (M : ChannelManager) (B : BdkWallet) (J : Json) (T : Texts M J)
    (around : Surroundings S M B) where
  respond-send_payment :
      (r : J.Value) (text : String) (w : World S M B)
      → J.as_str (J.index r "method") ≡ some "send_payment"
      → J.as_str (param S F M B J T around r "invoice") ≡ some text
      → respond S F M B J T around r w ≡ on_send_payment S F M B J T around text w
  unfolding dispatch
  respond-send_payment r text w m p =
      respond_method S F M B J T around r "send_payment" w m ∙ rw p refl

  respond-get_payment :
      (r : J.Value) (text : String) (w : World S M B)
      → J.as_str (J.index r "method") ≡ some "get_payment"
      → J.as_str (param S F M B J T around r "payment_id") ≡ some text
      → respond S F M B J T around r w ≡ on_get_payment S F M B J T around text w
  unfolding dispatch
  respond-get_payment r text w m p =
      respond_method S F M B J T around r "get_payment" w m ∙ rw p refl

  -- Over a lawful store whose writes succeed and faithful formats, where hex is read back as it
  -- was written: if the invoice of a request to send a payment is readable and has an amount, and
  -- LDK takes it on, the answer is the payment's id in hex, which is the payment's hash. If that
  -- has 32 bytes, a following request for the payment of that id is answered with the outgoing,
  -- pending payment of that amount, whatever the other tasks did before it was recorded.
  pub send_payment-get_payment :
      (L : IsLawful S) (W : IsFaithful F)
      (writes : (p : Payment) (s : S.State) → (add_payment S F p s).0 ≡ ok tt)
      (hex : (b : Bytes) → T.hex_decode (T.hex_encode b) ≡ some b) (sending asking : J.Value)
      (text : String) (invoice : M.Bolt11Invoice) (amount : ℕ) (w : World S M B)
      → let id = M.payment_hash invoice in
        J.as_str (J.index sending "method") ≡ some "send_payment"
        → J.as_str (param S F M B J T around sending "invoice") ≡ some text
        → T.parse_invoice text ≡ some invoice
        → M.amount_milli_satoshis invoice ≡ some amount
        → (M.pay_for_bolt11_invoice invoice id none w.channel_manager).0 ≡ ok tt
        → length id ≡ 32
        → J.as_str (J.index asking "method") ≡ some "get_payment"
        → J.as_str (param S F M B J T around asking "payment_id") ≡ some (T.hex_encode id)
        → (w' : World S M B) × (respond S F M B J T around sending w
            ≡ answered (field S F M B J T around "payment_id" (T.hex_encode id)) w')
          × (respond S F M B J T around asking w'
              ≡ answered (payment_value J (sent_payment id amount)) w')
  unfolding on_send_payment on_get_payment
  send_payment-get_payment L W writes hex sending asking text invoice amount w ms ps parsed sized
        taken size ma pa =
      let id = M.payment_hash invoice in
      let paid = pay_bolt11_invoice S F M B invoice none around.meanwhile w in
      let (done, stored) =
        get_payment-pay_bolt11_invoice S F M B L W invoice none around.meanwhile w amount
          (rw sized refl) taken (writes _ _) in
      let found : get_payment S F M B id paid.1 ≡ some (sent_payment id amount) =
        ground (arith, stored id, eq_self id) in
      (
        paid.1,
        respond-send_payment sending text w ms ps ∙ ground (arith, parsed, done),
        respond-get_payment asking (T.hex_encode id) paid.1 ma pa
            ∙ ground (arith, hex id, size, found),
      )
