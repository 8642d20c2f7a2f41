-- ===== src/Tests/Lifecycle.antt =====
-- A payment whose success is reported before its record is written, and what holds after it.
use ln_node.Prelude.{
  Option, ◌≡◌, ◌≢◌, refl, Bool-cases, inl, inr, ◌==◌, nat_eq, list_eq, true, none, some, [], ◌∷◌,
  ok, returned, arith,
}
use ln_node.Kv.{Bytes}
use ln_node.Kv.Memory.{memory_store as memory, memory_store-IsLawful as lawful, get}
use ln_node.Storage.{Payment, PaymentId, PeerInfo}
use ln_node.Storage.Codec.{read_payment, encode_payment}
use ln_node.Storage.Store.{get_payment, add_payment, add_peer}
use ln_node.Storage.Store.Payments.{get_payment-add_payment}
use ln_node.World.{World}
use ln_node.Events.{Event, payment_sent, handle_event}
use ln_node.Node.Payments.{after_send, pay_bolt11_invoice}
use ln_node.Node.Lifecycle.{Steps, here, handles, pays, IsSound, IsValid}
use ln_node.Node.Lifecycle.Invariant.{Steps-IsValid}
use ln_node.Node.Lifecycle.Progress.{Has, Steps-IsLater}
use ln_node.Tests.Formats.{plain_formats as plain, plain_formats-IsFaithful as faithful}
use ln_node.Tests.Samples.{manager, wallet, world, sample_payment, SampleInvoice}

abbrev pub bump : Bytes → wallet.State → Option wallet.State
bump event s = some s

pub writes : (p : Payment) (s : memory.State) → (add_payment memory plain p s).0 ≡ ok tt
unfolding add_payment
writes p s = refl

pub writes_peer : (p : PeerInfo) (s : memory.State) → (add_peer memory plain p s).0 ≡ ok tt
unfolding add_peer
writes_peer p s = refl

abbrev pub Node : Type 0
Node = World memory manager wallet

abbrev pub Reaches : Node → Node → Type 0
Reaches = Steps memory plain manager wallet true bump 100000

abbrev pub invoice : SampleInvoice
invoice = record { hash = 5 ∷ []; amount = some 21000 }

-- The sample payment is stored.
abbrev pub before : Node
before = record (world 0) { node_store = (add_payment memory plain sample_payment []).1 }

abbrev accepted : Node
accepted = after_send memory plain manager wallet invoice none before

abbrev reported : Event
reported = payment_sent (some (5 ∷ [])) (9 ∷ []) (5 ∷ []) (some 7)

too_early :
    handle_event memory plain manager wallet true bump 100000 reported accepted
    ≡ returned (ok tt, accepted)
unfolding handle_event get_payment add_payment plain get
too_early = refl

abbrev after : Node
after = (pay_bolt11_invoice memory plain manager wallet invoice none (λ _. accepted) before).1

abbrev run : Reaches before after
run = pays here invoice none accepted (handles here reported (ok tt) accepted too_early)

abbrev Valid : memory.State → Type 0
Valid = IsValid memory plain manager wallet true bump 100000

nothing_stored : (id : PaymentId) (p : Payment) → get_payment memory plain id [] ≢ ok p
unfolding get_payment get
nothing_stored id p h = cc h

sample-IsSound : IsSound memory plain manager wallet true bump 100000 (4 ∷ 2 ∷ []) sample_payment
sample-IsSound = record {
  keyed = refl;
  hashed = refl;
  sized = λ _. refl;
  proven = λ e. absurd (cc e);
  unproven = λ _. (refl, refl);
}

pub before-IsValid : Valid before.node_store
before-IsValid id p found =
    let stored =
      get_payment-add_payment memory plain lawful faithful sample_payment id []
        (writes sample_payment []) in
    elim (Bool-cases (sample_payment.payment_id == id)) [
      | inl same ↦
          let e : sample_payment.payment_id ≡ id =
            (list_eq.beq_iff sample_payment.payment_id id).0 same in
          let f : sample_payment ≡ p = ground (arith, stored, same, found) in
          rw (← e) (rw (← f) sample-IsSound)
      | inr differ ↦ absurd (nothing_stored id p (ground (arith, stored, differ, found)))
    ]

Steps-IsValid_example : Valid after.node_store
Steps-IsValid_example =
    Steps-IsValid memory plain manager wallet true bump 100000 lawful faithful writes writes_peer
      run before-IsValid

before_finds : get_payment memory plain (4 ∷ 2 ∷ []) before.node_store ≡ ok sample_payment
unfolding get_payment add_payment plain get encode_payment read_payment
before_finds = refl

Steps-IsLater_example :
    Has memory plain manager wallet true bump 100000 lawful faithful writes writes_peer
      (4 ∷ 2 ∷ [])
      sample_payment
      after.node_store
Steps-IsLater_example =
    Steps-IsLater memory plain manager wallet true bump 100000 lawful faithful writes writes_peer
      (4 ∷ 2 ∷ []) sample_payment run (tt, (tt, λ e. cc e)) before-IsValid before_finds
