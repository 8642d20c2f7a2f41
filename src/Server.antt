-- ===== src/Server.antt =====
-- src/server.rs: the answer of `UnixSocketServer` to one request; Exchange has its
-- loop. Texts that other crates parse and print, and the values that serde makes, are an interface.
pub mod Answers
pub mod Protocol
pub mod Closing
pub mod Opening
pub mod Panics
pub mod Paying
pub mod Receiving
pub mod Reads
pub mod Sound
use ln_node.Prelude.{
  ℕ, String, Bool, Option, none, some, List, [], ◌∷◌, map, Result, ok, err, length, ◌==◌, nat_eq,
  string_eq, if◌then◌else◌,
}
use ln_node.Kv.{Bytes, KvStore}
use ln_node.Storage.{PublicKey, Payment}
use ln_node.Storage.Codec.{Formats}
use ln_node.Ldk.{ChannelManager, ScriptBuf}
use ln_node.Wallet.{BdkWallet}
use ln_node.World.{World}
use ln_node.Json.{Json}
use ln_node.Json.Records.{payment_value, channel_value}
use ln_node.Node.{NodeError}
use ln_node.Node.Channels.{
  new_onchain_address, ChannelInfo, open_channel, close_channel, list_channels, balance,
}
use ln_node.Node.Payments.{pay_bolt11_invoice, create_bolt11_invoice, get_payment}
use ln_node.Node.Peers.{SocketAddr, ConnectError, Outbound, connect_to_peer}

pub record Texts (M : ChannelManager) (J : Json) : Type 0 where
  pub hex_encode : Bytes → String
  pub hex_decode : String → Option Bytes
  pub parse_pubkey : String → Option PublicKey
  pub parse_invoice : String → Option M.Bolt11Invoice
  pub parse_socket_addr : String → Option SocketAddr
  pub show_invoice : M.Bolt11Invoice → String
  pub show_address : ScriptBuf → String
  -- The message of an error, and the server's text with that message at its end.
  pub show_error : NodeError → String
  pub show_connect_error : ConnectError → String
  pub append : String → String → String
  pub pubkey_value : PublicKey → J.Value
  pub btc_value : ℕ → J.Value
  pub sat_value : ℕ → J.Value
  pub outpoint_value : Bytes → J.Value

-- What comes of a request: an answer, the panic of an `unwrap`, which ends the server's task, or
-- no answer while `connect` waits.
pub data Served (J : Json) (W : Type 0) : Type 0 where
  answered : J.Value → W → Served J W
  panicked : Served J W
  waiting : Served J W

abbrev pub unwrap : {J : Json} {W A : Type 0} → Option A → (A → Served J W) → Served J W
unwrap none k = panicked
unwrap (some a) k = k a

-- `try_into` an array of 32 bytes.
abbrev pub array_32 : Bytes → Option Bytes
array_32 b = if length b == 32 then some b else none

-- What the server meets while it serves one request: the node's key, whether a peer is connected then, the random id of a
-- new channel, the network, and what the node's other tasks do between two locks.
pub record Surroundings (S : KvStore) (M : ChannelManager) (B : BdkWallet) : Type 0 where
  pub node_id : PublicKey
  pub connected : PublicKey → Bool
  pub user_channel_id : ℕ
  pub outbound : Outbound
  pub meanwhile : World S M B → World S M B

module _ (S : KvStore) (F : Formats) (M : ChannelManager) (B : BdkWallet) (J : Json) (T : Texts M J)
    (around : Surroundings S M B) where
  abbrev pub Answer : Type 0
  Answer = World S M B → Served J (World S M B)

  abbrev pub field : String → String → J.Value
  field key text = J.object ((key, J.of_str text) ∷ [])

  unfoldable pub on_node_pubkey : Answer
  on_node_pubkey w = answered (J.object (("result", T.pubkey_value around.node_id) ∷ [])) w

  -- The wallet's `lock().unwrap()` panics where its mutex is poisoned, here and for the balance.
  unfoldable pub on_new_address : Answer
  on_new_address w =
      if w.wallet_poisoned
      then panicked
      else let (address, w') = new_onchain_address S M B w in
        answered (field "result" (T.show_address address)) w'

  unfoldable pub on_balance : Answer
  on_balance w =
      let b = balance S M B w in
      if w.wallet_poisoned
      then panicked
      else answered
          (J.object (
            (
              "onchain",
              J.object (
                  ("confirmed", T.btc_value b.onchain_confirmed)
                  ∷ ("pending", T.sat_value b.onchain_pending)
                  ∷ []),
            )
            ∷ ("lightning", T.sat_value b.lightning)
            ∷ []))
          w

  unfoldable pub on_open_channel : String → ℕ → Answer
  on_open_channel pubkey amount w = unwrap (T.parse_pubkey pubkey) λ peer.
      let (opened, w') =
        open_channel S M B around.connected around.user_channel_id peer amount 0 w in
      elim opened [
        | ok _ ↦ answered (field "result" "Channel opened") w'
        | err e ↦ answered (field "Error" (T.show_error e)) w'
      ]

  unfoldable pub on_list_channels : Answer
  on_list_channels w =
      answered
        (J.object (
          (
            "channels",
            J.array (
                map (channel_value J T.hex_encode T.pubkey_value T.outpoint_value)
                  (list_channels S M B w)),
          )
          ∷ []))
        w

  unfoldable pub on_close_channel : String → Answer
  on_close_channel text w = unwrap (T.hex_decode text) λ bytes. unwrap (array_32 bytes) λ chan_id.
      let (closed, w') = close_channel S M B chan_id w in
      elim closed [
        | ok _ ↦ answered (field "result" "Channel closed") w'
        | err e ↦
            answered (field "result" (T.append "Could not close channel " (T.show_error e))) w'
      ]

  unfoldable pub on_send_payment : String → Answer
  on_send_payment text w = unwrap (T.parse_invoice text) λ invoice.
      let (paid, w') = pay_bolt11_invoice S F M B invoice none around.meanwhile w in
      elim paid [
        | ok payment_id ↦ answered (field "payment_id" (T.hex_encode payment_id)) w'
        | err e ↦
            answered (field "result" (T.append "Could not make payment: " (T.show_error e))) w'
      ]

  unfoldable pub on_receive : ℕ → Answer
  on_receive amount_msat w =
      let (made, w') = create_bolt11_invoice S F M B (some amount_msat) around.meanwhile w in
      elim made [
        | ok bolt11 ↦ answered (field "invoice" (T.show_invoice bolt11)) w'
        | err _ ↦ panicked
      ]

  unfoldable pub on_get_payment : String → Answer
  on_get_payment text w = unwrap (T.hex_decode text) λ bytes. unwrap (array_32 bytes) λ payment_id.
      elim (get_payment S F M B payment_id w) [
        | some payment ↦ answered (payment_value J payment) w
        | none ↦ answered (field "result" "Payment not found") w
      ]

  unfoldable pub on_connect : String → String → Answer
  on_connect pubkey address w = unwrap (T.parse_pubkey pubkey) λ peer.
      unwrap (T.parse_socket_addr address) λ addr.
        elim (connect_to_peer around.outbound peer addr) [
          | none ↦ waiting
          | some (ok _) ↦ answered (field "result" "Connected to peer") w
          | some (err e) ↦
              answered
                (field "result" (T.append "Could not connect to peer " (T.show_connect_error e))) w
        ]

  abbrev pub param : J.Value → String → J.Value
  param request key = J.index (J.index request "params") key

  abbrev text_param : J.Value → String → (String → Answer) → Answer
  text_param request key k w = unwrap (J.as_str (param request key)) λ text. k text w

  abbrev number_param : J.Value → String → (ℕ → Answer) → Answer
  number_param request key k w = unwrap (J.as_u64 (param request key)) λ n. k n w

  -- The `match` on the method.
  unfoldable pub dispatch : String → J.Value → Answer
  dispatch method request =
      if method == "node_pubkey"
      then on_node_pubkey
      else if method == "new_address"
      then on_new_address
      else if method == "balance"
      then on_balance
      else if method == "open_channel"
      then text_param request "pubkey"
          (λ pubkey. number_param request "amount" (λ amount. on_open_channel pubkey amount))
      else if method == "list_channels"
      then on_list_channels
      else if method == "close_channel"
      then text_param request "channel_id" on_close_channel
      else if method == "send_payment"
      then text_param request "invoice" on_send_payment
      else if method == "receive"
      then number_param request "amount" on_receive
      else if method == "get_payment"
      then text_param request "payment_id" on_get_payment
      else if method == "connect"
      then text_param request "pubkey"
          (λ pubkey. text_param request "address" (λ address. on_connect pubkey address))
      else (λ w. answered (field "error" "Unknown method") w)

  unfoldable pub respond : J.Value → Answer
  unfolding dispatch
  respond request w =
      unwrap (J.as_str (J.index request "method")) λ method. dispatch method request w
