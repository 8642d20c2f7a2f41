-- ===== src/Storage/Codec.antt =====
-- The serialised form of a payment and of a peer: the `Writeable` and `Readable` of src/storage.rs,
-- over LDK's TLV macros and hex, which are an interface here.
use ln_node.Prelude.{
  ◌≡◌, refl, ℕ, ◌<◌, String, Option, none, some, List, [], ◌∷◌, map, Result, ok, err, ◌>>=◌, ◌==◌,
  nat_eq, lookup, arith, if◌then◌else◌,
}
use ln_node.Kv.{Bytes}
use ln_node.Storage.{
  PublicKey, SocketAddress, PaymentDirection, inbound, outbound, PaymentStatus, pending, succeeded,
  failed, Payment, PeerInfo,
}

pub data DecodeError : Type 0 where
  invalid_value : DecodeError
  unknown_required_feature : DecodeError
  other_error : ℕ → DecodeError

-- LDK's `Writeable` and `Readable` of one type.
pub record Codec (A : Type 0) : Type 0 where
  pub write : A → Bytes
  pub read : Bytes → Result DecodeError A

abbrev pub RoundTrips : {A : Type 0} → Codec A → Type 0
RoundTrips {A} c = (a : A) → c.read (c.write a) ≡ ok a

-- What storage.rs takes from LDK and from the crate hex. `write_tlv_fields` is the macro of that
-- name, given the number and the bytes of each field; `read_tlv_fields` is
-- `_init_and_read_len_prefixed_tlv_fields`, given the expected numbers: the bytes found under each.
pub record Formats : Type 0 where
  pub write_tlv_fields : List (ℕ × Bytes) → Bytes
  pub read_tlv_fields : List ℕ → Bytes → Result DecodeError (ℕ → Option Bytes)
  pub hex_encode : Bytes → String
  pub array : Codec Bytes
  pub preimage : Codec (Option Bytes)
  pub amount : Codec (Option ℕ)
  pub variant : Codec ℕ
  pub public_key : Codec PublicKey
  pub socket_address : Codec SocketAddress

-- Field numbers grow strictly, as the TLV format demands.
abbrev pub IsAscending : List ℕ → Type 0
IsAscending [] = Unit
IsAscending (a ∷ []) = Unit
IsAscending (a ∷ b ∷ l) = (a < b) × IsAscending (b ∷ l)

abbrev pub field_number : ℕ × Bytes → ℕ
field_number f = f.0

pub record IsFaithful (F : Formats) : Type 0 where
  pub read-write_fields :
      (fields : List (ℕ × Bytes))
      → IsAscending (map field_number fields)
      → F.read_tlv_fields (map field_number fields) (F.write_tlv_fields fields)
        ≡ ok (λ n. lookup n fields)
  pub hex_encode-injective : (a b : Bytes) → F.hex_encode a ≡ F.hex_encode b → a ≡ b
  pub array_round : RoundTrips F.array
  pub preimage_round : RoundTrips F.preimage
  pub amount_round : RoundTrips F.amount
  pub variant_round : RoundTrips F.variant
  pub public_key_round : RoundTrips F.public_key
  pub socket_address_round : RoundTrips F.socket_address

-- The variant numbers of the two `impl_writeable_tlv_based_enum!`.
direction_number : PaymentDirection → ℕ
direction_number inbound = 0
direction_number outbound = 2

direction_of_number : ℕ → Result DecodeError PaymentDirection
direction_of_number n =
    if n == 0 then ok inbound else if n == 2 then ok outbound else err unknown_required_feature

status_number : PaymentStatus → ℕ
status_number pending = 0
status_number succeeded = 2
status_number failed = 4

status_of_number : ℕ → Result DecodeError PaymentStatus
status_of_number n =
    if n == 0
    then ok pending
    else if n == 2
    then ok succeeded
    else if n == 4
    then ok failed
    else err unknown_required_feature

-- `.0.ok_or(DecodeError::InvalidValue)?` after the field's own `read`.
abbrev required : {A : Type 0} → Codec A → Option Bytes → Result DecodeError A
required c none = err invalid_value
required c (some d) = c.read d

module _ (F : Formats) where
  payment_fields : Payment → List (ℕ × Bytes)
  unfolding direction_number status_number
  payment_fields p =
      (0, F.array.write p.payment_id)
      ∷ (2, F.array.write p.payment_hash)
      ∷ (4, F.preimage.write p.payment_preimage)
      ∷ (6, F.variant.write (direction_number p.direction))
      ∷ (8, F.amount.write p.amount_msat)
      ∷ (10, F.amount.write p.fee_paid_msat)
      ∷ (12, F.variant.write (status_number p.status))
      ∷ []

  unfoldable pub encode_payment : Payment → Bytes
  unfolding payment_fields
  encode_payment p = F.write_tlv_fields (payment_fields p)

  unfoldable pub read_payment : Bytes → Result DecodeError Payment
  unfolding direction_of_number status_of_number
  read_payment bytes = do
    found ← F.read_tlv_fields (0 ∷ 2 ∷ 4 ∷ 6 ∷ 8 ∷ 10 ∷ 12 ∷ []) bytes
    payment_id ← required F.array (found 0)
    payment_hash ← required F.array (found 2)
    payment_preimage ← required F.preimage (found 4)
    direction ← required F.variant (found 6) >>= direction_of_number
    amount_msat ← required F.amount (found 8)
    fee_paid_msat ← required F.amount (found 10)
    status ← required F.variant (found 12) >>= status_of_number
    ok (record {
      payment_id = payment_id;
      payment_hash = payment_hash;
      payment_preimage = payment_preimage;
      direction = direction;
      amount_msat = amount_msat;
      fee_paid_msat = fee_paid_msat;
      status = status;
    })

  peer_fields : PeerInfo → List (ℕ × Bytes)
  peer_fields p = (0, F.public_key.write p.node_id) ∷ (2, F.socket_address.write p.address) ∷ []

  unfoldable pub encode_peer : PeerInfo → Bytes
  unfolding peer_fields
  encode_peer p = F.write_tlv_fields (peer_fields p)

  unfoldable pub read_peer : Bytes → Result DecodeError PeerInfo
  read_peer bytes = do
    found ← F.read_tlv_fields (0 ∷ 2 ∷ []) bytes
    node_id ← required F.public_key (found 0)
    address ← required F.socket_address (found 2)
    ok (record { node_id = node_id; address = address })

direction-number : (d : PaymentDirection) → direction_of_number (direction_number d) ≡ ok d
unfolding direction_number direction_of_number
direction-number inbound = refl
direction-number outbound = refl

status-number : (s : PaymentStatus) → status_of_number (status_number s) ≡ ok s
unfolding status_number status_of_number
status-number pending = refl
status-number succeeded = refl
status-number failed = refl

module _ (F : Formats) (L : IsFaithful F) where
  -- If the formats of the single fields are faithful, reading what was written gives back the
  -- payment, every field included.
  pub read-encode_payment : (p : Payment) → read_payment F (encode_payment F p) ≡ ok p
  unfolding read_payment encode_payment
  read-encode_payment p = rw (L.read-write_fields (payment_fields F p) (omega arith)) (
      simp (
        L.array_round, L.preimage_round, L.amount_round, L.variant_round, direction-number,
        status-number,
      ))

  -- If the formats of the single fields are faithful, reading what was written gives back the
  -- peer's key and address.
  pub read-encode_peer : (p : PeerInfo) → read_peer F (encode_peer F p) ≡ ok p
  unfolding read_peer encode_peer
  read-encode_peer p =
      rw (L.read-write_fields (peer_fields F p) (omega arith))
        (simp (L.public_key_round, L.socket_address_round))
