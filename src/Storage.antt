-- ===== src/Storage.antt =====
-- src/storage.rs: payments and peers, their encoding, and the store that keeps them.
pub mod Codec
pub mod Store
use ln_node.Prelude.{ℕ, Bool, true, false, String, List, Option}
use ln_node.Kv.{Bytes}

-- LDK's `PaymentId`, `PaymentHash`, `PaymentPreimage` ([u8; 32]), and secp256k1's `PublicKey` by
-- the 33 bytes of its `serialize`.
abbrev pub PaymentId : Type 0
PaymentId = Bytes

abbrev pub PaymentHash : Type 0
PaymentHash = Bytes

abbrev pub PaymentPreimage : Type 0
PaymentPreimage = Bytes

abbrev pub PublicKey : Type 0
PublicKey = Bytes

-- LDK's `SocketAddress`: the two variants that the program matches, and the others.
pub data SocketAddress : Type 0 where
  tcp_ip_v4 : Bytes → ℕ → SocketAddress
  tcp_ip_v6 : Bytes → ℕ → SocketAddress
  other_address : Bytes → SocketAddress

pub data PaymentDirection : Type 0 where
  inbound outbound : PaymentDirection

pub data PaymentStatus : Type 0 where
  pending succeeded failed : PaymentStatus

pub record Payment : Type 0 where
  pub payment_id : PaymentId
  pub payment_hash : PaymentHash
  pub payment_preimage : Option PaymentPreimage
  pub direction : PaymentDirection
  pub amount_msat : Option ℕ
  pub fee_paid_msat : Option ℕ
  pub status : PaymentStatus

pub record PeerInfo : Type 0 where
  pub node_id : PublicKey
  pub address : SocketAddress

-- `std::mem::discriminant(a) == std::mem::discriminant(b)` on statuses.
abbrev pub same_status : PaymentStatus → PaymentStatus → Bool
same_status pending pending = true
same_status succeeded succeeded = true
same_status failed failed = true
same_status _ _ = false
