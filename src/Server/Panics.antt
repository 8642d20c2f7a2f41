-- ===== src/Server/Panics.antt =====
-- Which of the client's requests make src/server.rs panic.
use ln_node.Prelude.{◌≡◌, ◌≢◌, ℕ, String, true, none, some, err, ok, length}
use ln_node.Kv.{Bytes, KvStore, IoError}
use ln_node.Storage.Codec.{Formats}
use ln_node.Storage.Store.{add_payment}
use ln_node.Ldk.{ChannelManager, InvoiceError}
use ln_node.Wallet.{BdkWallet}
use ln_node.World.{World}
use ln_node.Json.{Json}
use ln_node.Cli.{
  Commands, new_address, balance, open_channel, close_channel, send_payment, receive, connect,
  millisatoshis,
}
use ln_node.Node.Channels.{open_channel as open_channel_of, close_channel as close_channel_of}
use ln_node.Node.Payments.{create_bolt11_invoice, expected_payment, after_make}
use ln_node.Server.{Texts, Surroundings}

module _ (S : KvStore) (F : Formats) (M : ChannelManager) (B : BdkWallet) (J : Json) (T : Texts M J)
    (around : Surroundings S M B) where
  -- The causes: the wallet's lock is poisoned, an argument cannot be read, or an invoice is not made
  -- or not recorded.
  pub data Panics (w : World S M B) : Commands → Type 0 where
    address_locked : w.wallet_poisoned ≡ true → Panics w new_address
    balance_locked : w.wallet_poisoned ≡ true → Panics w balance
    no_key :
        (pubkey : String) (amount : ℕ)
        → T.parse_pubkey pubkey ≡ none
        → Panics w (open_channel pubkey amount)
    no_hex : (id : String) → T.hex_decode id ≡ none → Panics w (close_channel id)
    bad_size :
        (id : String) (bytes : Bytes)
        → T.hex_decode id ≡ some bytes
        → length bytes ≢ 32
        → Panics w (close_channel id)
    no_invoice : (text : String) → T.parse_invoice text ≡ none → Panics w (send_payment text)
    not_made :
        (amount : ℕ) (e : InvoiceError)
        → (M.create_bolt11_invoice (some (millisatoshis amount)) w.channel_manager).0 ≡ err e
        → Panics w (receive amount)
    not_recorded :
        (amount : ℕ) (invoice : M.Bolt11Invoice) (e : IoError)
        → (M.create_bolt11_invoice (some (millisatoshis amount)) w.channel_manager).0 ≡ ok invoice
        → (add_payment S F
            (expected_payment (M.payment_hash invoice) (some (millisatoshis amount)))
            (around.meanwhile (after_make S F M B (some (millisatoshis amount)) w)).node_store).0
          ≡ err e
        → Panics w (receive amount)
    no_peer :
        (pubkey address : String) → T.parse_pubkey pubkey ≡ none → Panics w (connect pubkey address)
    no_address :
        (pubkey address : String)
        → T.parse_socket_addr address ≡ none
        → Panics w (connect pubkey address)
