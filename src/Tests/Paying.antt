-- ===== src/Tests/Paying.antt =====
-- Requests of the client: a payment of an invoice with a hash of 32 bytes that is sent and looked up,
-- an invoice, and channels.
use ln_node.Prelude.{
  ◌≡◌, refl, ℕ, zero, suc, some, [], ◌∷◌, ◌==◌, nat_eq, list_eq, if◌then◌else◌, arith,
}
use ln_node.Kv.{Bytes}
use ln_node.Kv.Memory.{memory_store as memory, memory_store-IsLawful as lawful}
use ln_node.World.{World}
use ln_node.Json.Records.{payment_value}
use ln_node.Node.Payments.{sent_payment, expected_payment, get_payment, after_make}
use ln_node.Server.Closing.{Closes, respond-Closes}
use ln_node.Cli.{close_channel, receive, request, millisatoshis}
use ln_node.Storage.{PaymentId}
use ln_node.Server.Receiving.{receive-recorded}
use ln_node.Server.{Texts, answered, field, respond}
use ln_node.Server.Paying.{send_payment-get_payment}
use ln_node.Tests.Formats.{
  plain_formats as plain, plain_formats-IsFaithful as faithful, hex_decode, hex_round,
}
use ln_node.Tests.Samples.{manager, wallet, world, SampleInvoice}
use ln_node.Tests.Lifecycle.{writes}
use ln_node.Tests.Server.{Tree, text, entry, null, value_at, trees, trees-IsJson, texts, around}

abbrev copies : ℕ → ℕ → Bytes
copies zero b = []
copies (suc n) b = b ∷ copies n b

abbrev hash : Bytes
hash = copies 32 9

abbrev invoice : SampleInvoice
invoice = record { hash = hash; amount = some 21000 }

abbrev hex_texts : Texts manager trees
hex_texts = record texts {
  hex_encode = plain.hex_encode;
  hex_decode = hex_decode;
  parse_invoice = λ s. some invoice;
}

abbrev sending : Tree
sending =
    entry "method" (text "send_payment") (entry "params" (entry "invoice" (text "lnbc") null) null)

abbrev asking : Tree
asking =
    entry "method" (text "get_payment")
      (entry "params" (entry "payment_id" (text (plain.hex_encode hash)) null) null)

send_payment-get_payment_example :
    (w' : World memory manager wallet) × (respond memory plain manager wallet trees hex_texts around
        sending
        (world 0)
      ≡ answered
          (field memory plain manager wallet trees hex_texts around "payment_id"
            (plain.hex_encode hash))
          w')
    × (respond memory plain manager wallet trees hex_texts around asking w'
        ≡ answered (payment_value trees (sent_payment hash 21000)) w')
send_payment-get_payment_example =
    send_payment-get_payment memory plain manager wallet trees hex_texts around lawful faithful
      writes hex_round sending asking "lnbc" invoice 21000 (world 0) (unfold value_at in refl)
      (unfold value_at in refl) refl refl refl refl (unfold value_at in refl)
      (unfold value_at in refl)

receive-recorded_example :
    (w' : World memory manager wallet) × (respond memory plain manager wallet trees texts around
        (request trees (receive 21))
        (world 0)
      ≡ answered (field memory plain manager wallet trees texts around "invoice" "lnbc1") w')
    × ((id : PaymentId)
        → get_payment memory plain manager wallet id w' ≡ (
            if (7 ∷ []) == id
            then some (expected_payment (7 ∷ []) (some 21000))
            else get_payment memory plain manager wallet id
                (after_make memory plain manager wallet (some 21000) (world 0))))
receive-recorded_example =
    receive-recorded memory plain manager wallet trees texts around lawful faithful writes
      trees-IsJson 21 (world 0) (record { hash = 7 ∷ []; amount = some 21000 }) (omega arith) refl

-- An amount of which the millisatoshis do not fit 64 bits.
wrapped : millisatoshis 18446744073709552 ≡ 384
wrapped = refl

-- An id of 32 bytes, of no channel.
respond-Closes_example :
    Closes memory plain manager wallet trees hex_texts around (plain.hex_encode hash) (world 0) (
      respond memory plain manager wallet trees hex_texts around
        (request trees (close_channel (plain.hex_encode hash)))
        (world 0))
respond-Closes_example =
    respond-Closes memory plain manager wallet trees hex_texts around trees-IsJson
      (plain.hex_encode hash) (world 0)
