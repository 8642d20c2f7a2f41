-- ===== src/Exchange/Answers.antt =====
-- What the answers to the client's commands are.
use ln_node.Prelude.{
  ◌≡◌, refl, ℕ, String, Option, none, some, List, inl, inr, Result-cases, Option-cases, Bool-cases,
}
use mathlib.Core.Path.{subst}
use ln_node.Kv.{KvStore}
use ln_node.Storage.Codec.{Formats}
use ln_node.Ldk.{ChannelManager}
use ln_node.Wallet.{BdkWallet}
use ln_node.World.{World}
use ln_node.Json.{Json}
use ln_node.Cli.{
  Commands, node_pubkey, new_address, balance, open_channel, list_channels, close_channel,
  send_payment, receive, connect, millisatoshis,
}
use ln_node.Server.{
  unwrap, array_32, Texts, Surroundings, Served, answered, on_node_pubkey, on_new_address,
  on_balance, on_open_channel, on_list_channels, on_close_channel, on_send_payment, on_receive,
  on_connect,
}
use ln_node.Server.Protocol.{executed}
use ln_node.Node.Channels.{open_channel as open_channel_of, close_channel as close_channel_of}
use ln_node.Node.Payments.{pay_bolt11_invoice, create_bolt11_invoice}
use ln_node.Node.Peers.{connect_to_peer}

-- Every answer to a command is an object.
abbrev pub Object : (J : Json) → J.Value → Type 0
Object J v = (fields : List (String × J.Value)) × (v ≡ J.object fields)

module _ {J : Json} {A : Type 0} where
  abbrev pub AllObject : Served J A → Type 0
  AllObject (answered v w) = Object J v
  AllObject _ = Unit

  pub answered-Object :
      {served : Served J A} {v : J.Value} {w : A}
      → AllObject served
      → served ≡ answered v w
      → Object J v
  answered-Object o e = subst AllObject e o

  unwrap-AllObject :
      {B : Type 0} (o : Option B) (k : B → Served J A)
      → ((b : B) → AllObject (k b))
      → AllObject (unwrap o k)
  unwrap-AllObject none k f = tt
  unwrap-AllObject (some b) k f = f b

module _ (S : KvStore) (F : Formats) (M : ChannelManager) (B : BdkWallet) (J : Json) (T : Texts M J)
    (around : Surroundings S M B) where
  on_receive-AllObject : (n : ℕ) (w : World S M B) → AllObject (on_receive S F M B J T around n w)
  unfolding on_receive
  on_receive-AllObject n w =
      elim (Result-cases (create_bolt11_invoice S F M B (some n) around.meanwhile w).0) [
        | inl (_, e) ↦ rw (AllObject, e) (_, refl)
        | inr (_, e) ↦ rw (AllObject, e) tt
      ]

  pub executed-AllObject :
      (c : Commands) (w : World S M B) → AllObject (executed S F M B J T around c w)
  unfolding on_node_pubkey on_new_address on_balance on_list_channels on_open_channel
      on_close_channel on_send_payment on_receive on_connect
  executed-AllObject node_pubkey w = (_, refl)
  executed-AllObject new_address w = elim (Bool-cases w.wallet_poisoned) [
    | inl e ↦ rw e tt
    | inr e ↦ rw e (_, refl)
  ]
  executed-AllObject balance w = elim (Bool-cases w.wallet_poisoned) [
    | inl e ↦ rw e tt
    | inr e ↦ rw e (_, refl)
  ]
  executed-AllObject list_channels w = (_, refl)
  executed-AllObject (open_channel pubkey amount) w =
      unwrap-AllObject (T.parse_pubkey pubkey) _ λ peer.
        elim (Result-cases
          (open_channel_of S M B around.connected around.user_channel_id peer amount 0 w).0) [
            | inl (_, e) ↦ rw e (_, refl)
            | inr (_, e) ↦ rw e (_, refl)
          ]
  executed-AllObject (close_channel channel_id) w =
      unwrap-AllObject (T.hex_decode channel_id) _ λ bytes.
        unwrap-AllObject (array_32 bytes) _ λ id.
          elim (Result-cases (close_channel_of S M B id w).0) [
            | inl (_, e) ↦ rw e (_, refl)
            | inr (_, e) ↦ rw e (_, refl)
          ]
  executed-AllObject (send_payment invoice) w =
      unwrap-AllObject (T.parse_invoice invoice) _ λ bolt11.
        elim (Result-cases (pay_bolt11_invoice S F M B bolt11 none around.meanwhile w).0) [
          | inl (_, e) ↦ rw e (_, refl)
          | inr (_, e) ↦ rw e (_, refl)
        ]
  executed-AllObject (receive amount) w = on_receive-AllObject (millisatoshis amount) w
  executed-AllObject (connect pubkey address) w = unwrap-AllObject (T.parse_pubkey pubkey) _ λ peer.
      unwrap-AllObject (T.parse_socket_addr address) _ λ addr.
        elim (Option-cases (connect_to_peer around.outbound peer addr)) [
          | inl e ↦ rw e tt
          | inr (r, e) ↦ elim (Result-cases r) [
            | inl (_, f) ↦ rw (e, f) (_, refl)
            | inr (_, f) ↦ rw (e, f) (_, refl)
          ]
        ]
