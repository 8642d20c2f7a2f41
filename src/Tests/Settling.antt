-- ===== src/Tests/Settling.antt =====
-- A payment that succeeds after an invoice was made.
use ln_node.Prelude.{◌≡◌, refl, true, none, some, [], ◌∷◌, ok, returned}
use ln_node.Kv.Memory.{memory_store as memory, memory_store-IsLawful as lawful, get}
use ln_node.Storage.{Payment, outbound, succeeded}
use ln_node.Storage.Codec.{read_payment, encode_payment}
use ln_node.Storage.Store.{get_payment, add_payment}
use ln_node.Events.{payment_sent, handle_event}
use ln_node.Node.Payments.{
  sent_payment, after_send, after_make, pay_bolt11_invoice, create_bolt11_invoice,
}
use ln_node.Node.Lifecycle.{here, pays, makes, IsValid}
use ln_node.Node.Lifecycle.Invariant.{Steps-IsValid}
use ln_node.Node.Lifecycle.Progress.{Spares, Has}
use ln_node.Node.Lifecycle.Settling.{sent_payment-settles}
use ln_node.Tests.Formats.{plain_formats as plain, plain_formats-IsFaithful as faithful}
use ln_node.Tests.Samples.{manager, wallet}
use ln_node.Tests.Lifecycle.{
  bump, writes, writes_peer, before, before-IsValid, Node, Reaches, invoice,
}

abbrev paid : Node
paid =
    (pay_bolt11_invoice memory plain manager wallet invoice none
      (λ _. after_send memory plain manager wallet invoice none before) before).1

paid-IsValid : IsValid memory plain manager wallet true bump 100000 paid.node_store
paid-IsValid =
    Steps-IsValid memory plain manager wallet true bump 100000 lawful faithful writes writes_peer
      (pays here invoice none (after_send memory plain manager wallet invoice none before) here)
      before-IsValid

recorded : get_payment memory plain (5 ∷ []) paid.node_store ≡ ok (sent_payment (5 ∷ []) 21000)
unfolding get_payment add_payment plain get pay_bolt11_invoice encode_payment read_payment
recorded = refl

-- An invoice over 5000 is made meanwhile.
abbrev made : Node
made =
    (create_bolt11_invoice memory plain manager wallet (some 5000)
      (λ _. after_make memory plain manager wallet (some 5000) paid) paid).1

abbrev makes_one : Reaches paid made
makes_one = makes here (some 5000) (after_make memory plain manager wallet (some 5000) paid) here

made-Spares : Spares memory plain manager wallet true bump 100000 (5 ∷ []) makes_one
made-Spares = (tt, (tt, λ i e same. cc (e, same)))

sent_payment-settles_example :
    (w' : Node) × (q : Payment) × (handle_event memory plain manager wallet true bump 100000
        (payment_sent (some (5 ∷ [])) (9 ∷ []) (5 ∷ []) (some 7))
        made
      ≡ returned (ok tt, w'))
    × (get_payment memory plain (5 ∷ []) w'.node_store ≡ ok q)
    × (q.status ≡ succeeded)
    × (q.payment_preimage ≡ some (9 ∷ []))
    × (q.fee_paid_msat ≡ some 7)
    × (q.amount_msat ≡ some 21000)
    × (q.direction ≡ outbound)
    × ((w'' : Node) (more : Reaches w' w'')
        → Spares memory plain manager wallet true bump 100000 (5 ∷ []) more
        → Has memory plain manager wallet true bump 100000 lawful faithful writes writes_peer
            (5 ∷ [])
            q
            w''.node_store)
sent_payment-settles_example =
    sent_payment-settles memory plain manager wallet true bump 100000 lawful faithful writes
      writes_peer (5 ∷ []) 21000 7 (9 ∷ []) paid made makes_one paid-IsValid recorded made-Spares
