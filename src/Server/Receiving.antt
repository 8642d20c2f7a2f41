-- ===== src/Server/Receiving.antt =====
-- An invoice that the client asks for, from its amount in satoshis to the stored payment.
use ln_node.Prelude.{
  ◌≡◌, ◌∙◌, ap, ℕ, ◌*◌, ◌^◌, ◌<◌, some, ok, nat_eq, list_eq, ◌==◌, if◌then◌else◌, arith,
}
use ln_node.Kv.{KvStore, IsLawful}
use ln_node.Storage.{Payment, PaymentId}
use ln_node.Storage.Codec.{Formats, IsFaithful}
use ln_node.Storage.Store.{add_payment}
use ln_node.Ldk.{ChannelManager}
use ln_node.Wallet.{BdkWallet}
use ln_node.World.{World}
use ln_node.Json.{Json, IsJson}
use ln_node.Cli.{receive, millisatoshis, request}
use ln_node.Node.Payments.{
  expected_payment, create_bolt11_invoice, get_payment, after_make,
  get_payment-create_bolt11_invoice,
}
use ln_node.Server.{Texts, Surroundings, answered, field, on_receive, respond}
use ln_node.Server.Protocol.{respond-request}

millisatoshis_exact : (amount : ℕ) → amount * 1000 < 2 ^ 64 → millisatoshis amount ≡ amount * 1000
millisatoshis_exact amount h = omega (arith, h)

module _ (S : KvStore) (F : Formats) (M : ChannelManager) (B : BdkWallet) (J : Json) (T : Texts M J)
    (around : Surroundings S M B) where
  on_receive-recorded :
      (L : IsLawful S) (W : IsFaithful F)
      (writes : (p : Payment) (s : S.State) → (add_payment S F p s).0 ≡ ok tt) (msat : ℕ)
      (w : World S M B) (invoice : M.Bolt11Invoice)
      → (M.create_bolt11_invoice (some msat) w.channel_manager).0 ≡ ok invoice
      → (w' : World S M B) × (on_receive S F M B J T around msat w
          ≡ answered (field S F M B J T around "invoice" (T.show_invoice invoice)) w')
        × ((id : PaymentId)
            → get_payment S F M B id w' ≡ (
                if M.payment_hash invoice == id
                then some (expected_payment (M.payment_hash invoice) (some msat))
                else get_payment S F M B id (around.meanwhile (after_make S F M B (some msat) w))))
  unfolding on_receive
  on_receive-recorded L W writes msat w invoice made =
      let (done, stored) =
        get_payment-create_bolt11_invoice S F M B L W (some msat) around.meanwhile w invoice made
          (writes _ _) in
      (
        (create_bolt11_invoice S F M B (some msat) around.meanwhile w).1,
        ground (arith, done),
        stored,
      )

  -- Over a lawful store whose writes succeed and faithful formats, where a JSON value is read back
  -- as it was built: if the client asks for an invoice over an amount in satoshis, less than 2^64
  -- in millisatoshis, and LDK makes one over exactly that many millisatoshis, the answer shows it,
  -- and an inbound pending payment of that amount is stored under its hash; the other payments are
  -- as the other tasks left them.
  pub receive-recorded :
      (L : IsLawful S) (W : IsFaithful F)
      (writes : (p : Payment) (s : S.State) → (add_payment S F p s).0 ≡ ok tt) (R : IsJson J)
      (amount : ℕ) (w : World S M B) (invoice : M.Bolt11Invoice)
      → amount * 1000 < 2 ^ 64
      → (M.create_bolt11_invoice (some (amount * 1000)) w.channel_manager).0 ≡ ok invoice
      → (w' : World S M B) × (respond S F M B J T around (request J (receive amount)) w
          ≡ answered (field S F M B J T around "invoice" (T.show_invoice invoice)) w')
        × ((id : PaymentId)
            → get_payment S F M B id w' ≡ (
                if M.payment_hash invoice == id
                then some (expected_payment (M.payment_hash invoice) (some (amount * 1000)))
                else get_payment S F M B id
                    (around.meanwhile (after_make S F M B (some (amount * 1000)) w))))
  receive-recorded L W writes R amount w invoice fits made =
      let (w', answer, stored) = on_receive-recorded L W writes (amount * 1000) w invoice made in
      (
        w',
        respond-request S F M B J T around R (receive amount) w
            ∙ (ap (λ msat. on_receive S F M B J T around msat w) (millisatoshis_exact amount fits)
                ∙ answer),
        stored,
      )
