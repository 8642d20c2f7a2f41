-- ===== src/Storage/Store.antt =====
-- `NodeStore` of src/storage.rs over the key-value store. Each method takes the store's state and
-- gives the new one; `list_payments` and `list_peers` take the lock anew for each key, so they see
-- the state `at n` at their n-th acquisition (a constant function where nobody interferes).
pub mod Payments
pub mod Listing
pub mod Peers
pub mod Refinement
use mathlib.Core.Bool.{Bool-discrete}
use mathlib.Core.List.{filter}
use ln_node.Prelude.{
  ℕ, zero, suc, String, List, [], ◌∷◌, Result, ok, err, ◌>>=◌, map_err, true, if◌then◌else◌,
}
use ln_node.Kv.{Bytes, IoError, invalid_data, KvStore}
use ln_node.Storage.{PaymentId, PublicKey, Payment, PaymentStatus, PeerInfo, same_status}
use ln_node.Storage.Codec.{Formats, encode_payment, read_payment, encode_peer, read_peer}

abbrev pub payments_primary_namespace : String
payments_primary_namespace = "payments"

abbrev pub payments_secondary_namespace : String
payments_secondary_namespace = ""

abbrev pub peers_primary_namespace : String
peers_primary_namespace = "peers"

abbrev pub peers_secondary_namespace : String
peers_secondary_namespace = ""

abbrev pub bad_payment : IoError
bad_payment = record { kind = invalid_data; message = "Could not deserialize payment" }

abbrev pub bad_peer : IoError
bad_peer = record { kind = invalid_data; message = "Could not deserialize peer info" }

-- The `filter` of `list_payments_by_status`.
unfoldable pub with_status : PaymentStatus → List Payment → List Payment
with_status status = filter (λ p. Bool-discrete (same_status p.status status) true)

module _ (S : KvStore) (F : Formats) where
  pub payment_at : S.State → String → Result IoError Bytes
  payment_at s key = S.read s payments_primary_namespace payments_secondary_namespace key

  pub peer_at : S.State → String → Result IoError Bytes
  peer_at s key = S.read s peers_primary_namespace peers_secondary_namespace key

  pub decode_payment : Bytes → Result IoError Payment
  decode_payment bytes = map_err (λ _. bad_payment) (read_payment F bytes)

  pub decode_peer : Bytes → Result IoError PeerInfo
  decode_peer bytes = map_err (λ _. bad_peer) (read_peer F bytes)

  unfoldable pub add_payment : Payment → S.State → Result IoError (Unit {0}) × S.State
  add_payment payment s =
      S.write s payments_primary_namespace payments_secondary_namespace
        (F.hex_encode payment.payment_id) (encode_payment F payment)

  unfoldable pub update_payment : Payment → S.State → Result IoError (Unit {0}) × S.State
  update_payment payment s = add_payment payment s

  unfoldable pub get_payment : PaymentId → S.State → Result IoError Payment
  unfolding payment_at decode_payment
  get_payment payment_id s = do bytes ← payment_at s (F.hex_encode payment_id); decode_payment bytes

  pub read_payments : (ℕ → S.State) → ℕ → List String → Result IoError (List Payment)
  read_payments at i [] = ok []
  read_payments at i (key ∷ keys) = elim (payment_at (at i) key) [
    | ok bytes ↦ do
      payment ← decode_payment bytes
      payments ← read_payments at (suc i) keys
      ok (payment ∷ payments)
    | err _ ↦ read_payments at (suc i) keys
  ]

  unfoldable pub list_payments : (ℕ → S.State) → Result IoError (List Payment)
  unfolding read_payments payment_at decode_payment read_payment
  list_payments at = do
    keys ← S.list (at 0) payments_primary_namespace payments_secondary_namespace
    read_payments at 1 keys

  unfoldable pub remove_payment : PaymentId → S.State → Result IoError (Unit {0}) × S.State
  remove_payment payment_id s =
      S.remove s payments_primary_namespace payments_secondary_namespace (F.hex_encode payment_id)
        true

  unfoldable pub list_payments_by_status :
      PaymentStatus → (ℕ → S.State) → Result IoError (List Payment)
  list_payments_by_status status at = do
    all_payments ← list_payments at
    ok (with_status status all_payments)

  unfoldable pub add_peer : PeerInfo → S.State → Result IoError (Unit {0}) × S.State
  add_peer peer s =
      S.write s peers_primary_namespace peers_secondary_namespace (F.hex_encode peer.node_id)
        (encode_peer F peer)

  unfoldable pub remove_peer : PublicKey → S.State → Result IoError (Unit {0}) × S.State
  remove_peer pubkey s =
      S.remove s peers_primary_namespace peers_secondary_namespace (F.hex_encode pubkey) true

  pub read_peers : (ℕ → S.State) → ℕ → List String → Result IoError (List PeerInfo)
  read_peers at i [] = ok []
  read_peers at i (key ∷ keys) = elim (peer_at (at i) key) [
    | ok bytes ↦ do peer ← decode_peer bytes; peers ← read_peers at (suc i) keys; ok (peer ∷ peers)
    | err e ↦ err e
  ]

  unfoldable pub list_peers : (ℕ → S.State) → Result IoError (List PeerInfo)
  unfolding read_peers peer_at decode_peer read_peer
  list_peers at = do
    keys ← S.list (at 0) peers_primary_namespace peers_secondary_namespace
    read_peers at 1 keys
