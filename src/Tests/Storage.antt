-- ===== src/Tests/Storage.antt =====
-- The payment store over the store in memory.
use ln_node.Prelude.{◌≡◌, refl, ◌≢◌, [], ◌∷◌, ok, err, nat_eq, list_eq}
use ln_node.Kv.Memory.{memory_store as memory, Entries, get, erase, keys}
use ln_node.Storage.Codec.{
  read_payment, encode_payment, read-encode_payment, read_peer, encode_peer,
}
use ln_node.Storage.Store.{
  bad_payment, get_payment, add_payment, remove_payment, add_peer, list_payments, list_peers,
}
use ln_node.Tests.Formats.{plain_formats as plain, plain_formats-IsFaithful as faithful}
use ln_node.Tests.Samples.{sample_payment, sample_peer}

read-encode_payment_example :
    read_payment plain (encode_payment plain sample_payment) ≡ ok sample_payment
read-encode_payment_example = read-encode_payment plain faithful sample_payment

abbrev stored : Entries
stored = (add_payment memory plain sample_payment []).1

-- A run: the payment is found, and after its removal it is not.
found_then_gone :
    (get_payment memory plain (4 ∷ 2 ∷ []) stored ≡ ok sample_payment)
    × (get_payment memory plain (4 ∷ 2 ∷ []) (remove_payment memory plain (4 ∷ 2 ∷ []) stored).1
        ≢ ok sample_payment)
unfolding get_payment add_payment remove_payment plain get erase encode_payment read_payment
found_then_gone = (refl, λ e. cc e)

-- A store whose one payment is not an encoded payment.
abbrev spoilt : Entries
spoilt = ("payments", "", "x", 5 ∷ 0 ∷ []) ∷ []

spoilt_fails : list_payments memory plain (λ _. spoilt) ≡ err bad_payment
unfolding list_payments plain get keys read_payment
spoilt_fails = refl

abbrev with_peer : Entries
with_peer = (add_peer memory plain sample_peer []).1

peers_listed : list_peers memory plain (λ _. with_peer) ≡ ok (sample_peer ∷ [])
unfolding list_peers add_peer plain get keys encode_peer read_peer
peers_listed = refl

payments_listed : list_payments memory plain (λ _. stored) ≡ ok (sample_payment ∷ [])
unfolding list_payments add_payment plain get keys encode_payment read_payment
payments_listed = refl
