-- ===== src/Server/Opening.antt =====
-- A channel that the client asks for.
use ln_node.Prelude.{◌≡◌, ℕ, true, false, String, none, some, ok, err, Result}
use ln_node.Kv.{KvStore}
use ln_node.Storage.{PublicKey}
use ln_node.Storage.Codec.{Formats}
use ln_node.Ldk.{ChannelId, ApiError, ChannelManager}
use ln_node.Wallet.{BdkWallet}
use ln_node.World.{World}
use ln_node.Json.{Json}
use ln_node.Cli.{open_channel}
use ln_node.Node.{NodeError, not_connected}
use ln_node.Node.Channels.{open_error, open_channel as open_channel_of}
use ln_node.Server.{Texts, Surroundings, Served, answered, panicked, field}

module _ (S : KvStore) (F : Formats) (M : ChannelManager) (B : BdkWallet) (J : Json) (T : Texts M J)
    (around : Surroundings S M B) where
  -- What LDK is asked for.
  abbrev pub ask : PublicKey → ℕ → World S M B → Result ApiError ChannelId × World S M B
  ask peer amount w =
      let (answer, manager) =
        M.create_channel peer amount 0 around.user_channel_id w.channel_manager in
      (answer, record w { channel_manager = manager })

  abbrev pub error : NodeError → J.Value
  error e = field S F M B J T around "Error" (T.show_error e)

  -- The outcomes of a request to open a channel: the key of the peer is not one, the peer is not
  -- connected, or LDK is asked, for a channel of that amount with nothing pushed to the peer, and
  -- refuses or agrees.
  pub data Opens (pubkey : String) (amount : ℕ) (w : World S M B)
      : Served J (World S M B) → Type 0 where
    unreadable : T.parse_pubkey pubkey ≡ none → Opens pubkey amount w panicked
    unconnected :
        (peer : PublicKey)
        → T.parse_pubkey pubkey ≡ some peer
        → around.connected peer ≡ false
        → Opens pubkey amount w (answered (error (not_connected peer)) w)
    refused :
        (peer : PublicKey) (e : ApiError)
        → T.parse_pubkey pubkey ≡ some peer
        → around.connected peer ≡ true
        → (ask peer amount w).0 ≡ err e
        → Opens pubkey amount w (answered (error (open_error e)) (ask peer amount w).1)
    opened :
        (peer : PublicKey) (id : ChannelId)
        → T.parse_pubkey pubkey ≡ some peer
        → around.connected peer ≡ true
        → (ask peer amount w).0 ≡ ok id
        → Opens pubkey amount w
            (answered (field S F M B J T around "result" "Channel opened") (ask peer amount w).1)
