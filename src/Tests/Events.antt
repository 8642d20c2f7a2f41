-- ===== src/Tests/Events.antt =====
-- The event handler over the sample node.
use ln_node.Prelude.{
  Option, ◌≡◌, refl, true, some, [], ◌∷◌, ok, returned, panicked, ◌==◌, nat_eq, list_eq,
  if◌then◌else◌,
}
use ln_node.Kv.{Bytes}
use ln_node.Kv.Memory.{memory_store as memory, memory_store-IsLawful as lawful, get}
use ln_node.Storage.{PaymentId}
use ln_node.Storage.Codec.{read_payment, encode_payment}
use ln_node.Storage.Store.{get_payment, add_payment, update_payment}
use ln_node.World.{World}
use ln_node.Events.{
  Event, Handled, payment_sent, payment_failed, payment_claimed, payment_claimable,
  bolt11_invoice_payment, open_channel_request, handle_event,
}
use ln_node.Events.Payments.{settled, given_up, payment_sent-settled, payment_failed-given_up}
use ln_node.Events.Funds.{channel_manager-handle_event}
use ln_node.Events.Panics.{Panics}
use ln_node.Events.Frame.{node_store-handle_event}
use ln_node.Tests.Formats.{plain_formats as plain, plain_formats-IsFaithful as faithful}
use ln_node.Tests.Samples.{manager, wallet, world, sample_payment, accepted, force_closed, claimed}

abbrev bump : Bytes → wallet.State → Option wallet.State
bump event s = some s

abbrev handle :
    Event → World memory manager wallet → Handled memory plain manager wallet true bump 100000
handle = handle_event memory plain manager wallet true bump 100000

-- The sample payment is stored.
abbrev paying : World memory manager wallet
paying = record (world 5000) { node_store = (add_payment memory plain sample_payment []).1 }

paying_finds : get_payment memory plain (4 ∷ 2 ∷ []) paying.node_store ≡ ok sample_payment
unfolding get_payment add_payment plain get encode_payment read_payment
paying_finds = refl

payment_sent-settled_example :
    (w' : World memory manager wallet) × (handle
        (payment_sent (some (4 ∷ 2 ∷ [])) (9 ∷ []) (4 ∷ 2 ∷ []) (some 7))
        paying
      ≡ returned (ok tt, w'))
    × ((other : PaymentId)
        → get_payment memory plain other w'.node_store ≡ (
            if sample_payment.payment_id == other
            then ok (settled sample_payment (9 ∷ []) (some 7))
            else get_payment memory plain other paying.node_store))
payment_sent-settled_example =
    payment_sent-settled memory plain manager wallet true bump 100000 lawful faithful (4 ∷ 2 ∷ [])
      (9 ∷ []) (4 ∷ 2 ∷ []) 7 21000 sample_payment paying paying_finds refl
      (unfold update_payment add_payment in refl)

payment_failed-given_up_example :
    (w' : World memory manager wallet) × (handle
        (payment_failed (4 ∷ 2 ∷ []) (some (4 ∷ 2 ∷ [])) (some []))
        paying
      ≡ returned (ok tt, w'))
    × ((other : PaymentId)
        → get_payment memory plain other w'.node_store ≡ (
            if sample_payment.payment_id == other
            then ok (given_up sample_payment)
            else get_payment memory plain other paying.node_store))
payment_failed-given_up_example =
    payment_failed-given_up memory plain manager wallet true bump 100000 lawful faithful
      (4 ∷ 2 ∷ []) (4 ∷ 2 ∷ []) [] sample_payment paying paying_finds
      (unfold update_payment add_payment in refl)

-- With 5000 satoshis an anchor channel is rejected, and accepted right after.
accepted_after_rejection :
    handle (open_channel_request (3 ∷ []) (2 ∷ []) 20000 true) (world 5000)
    ≡ returned (
      ok tt,
      record (world 5000) {
        channel_manager = record (world 5000).channel_manager {
          log = accepted (3 ∷ []) ∷ force_closed (3 ∷ []) ∷ [];
        };
      },
    )
unfolding handle_event
accepted_after_rejection = refl

-- Where the wallet's lock is poisoned, a request for a channel with anchors makes the handler panic.
poisoned_panics :
    handle
      (open_channel_request (3 ∷ []) (2 ∷ []) 20000 true)
      (record (world 50000) { wallet_poisoned = true })
    ≡ panicked
unfolding handle_event
poisoned_panics = refl

claimed_runs : handle (payment_claimed (4 ∷ 2 ∷ []) 21000) paying ≡ returned (ok tt, paying)
unfolding handle_event
claimed_runs = refl

node_store-handle_event_example : paying.node_store ≡ paying.node_store
node_store-handle_event_example =
    node_store-handle_event memory plain manager wallet true bump 100000
      (payment_claimed (4 ∷ 2 ∷ []) 21000) paying (ok tt) paying refl claimed_runs

abbrev incoming : Event
incoming = payment_claimable (4 ∷ 2 ∷ []) (bolt11_invoice_payment (some (9 ∷ [])))

abbrev after_claim : World memory manager wallet
after_claim = record paying {
  channel_manager = record paying.channel_manager { log = claimed (9 ∷ []) ∷ [] };
}

claim_runs : handle incoming paying ≡ returned (ok tt, after_claim)
unfolding handle_event
claim_runs = refl

channel_manager-handle_event_example :
    after_claim.channel_manager ≡ manager.claim_funds (9 ∷ []) paying.channel_manager
channel_manager-handle_event_example =
    channel_manager-handle_event memory plain manager wallet true bump 100000 incoming paying
      (ok tt) after_claim refl claim_runs
