-- ===== src/Server/Protocol.antt =====
-- What the client sends is what the server understands.
use ln_node.Prelude.{◌≡◌, refl, ◌∙◌, String, some, List, [], ◌∷◌, lookup, string_eq, arith}
use ln_node.Kv.{KvStore}
use ln_node.Storage.Codec.{Formats}
use ln_node.Ldk.{ChannelManager}
use ln_node.Wallet.{BdkWallet}
use ln_node.World.{World}
use ln_node.Json.{Json, IsJson}
use ln_node.Cli.{
  Commands, node_pubkey, new_address, balance, open_channel, list_channels, close_channel,
  send_payment, receive, connect, millisatoshis, plain, with_params, request,
}
use ln_node.Server.{
  Texts, Surroundings, Answer, on_node_pubkey, on_new_address, on_balance, on_open_channel,
  on_list_channels, on_close_channel, on_send_payment, on_receive, on_connect, dispatch, respond,
}

-- The two forms of a request, read back.
module _ (J : Json) (L : IsJson J) where
  method-plain : (m : String) → J.as_str (J.index (plain J m) "method") ≡ some m
  unfolding plain
  method-plain m =
      rw (L.index-object (("method", J.of_str m) ∷ []) "method" {v = J.of_str m} refl)
        (L.as_str-of_str m)

  method-with_params :
      (m : String) (ps : List (String × J.Value))
      → J.as_str (J.index (with_params J m ps) "method") ≡ some m
  unfolding with_params
  method-with_params m ps =
      rw
        (L.index-object (("method", J.of_str m) ∷ ("params", J.object ps) ∷ []) "method"
          {v = J.of_str m} refl)
        (L.as_str-of_str m)

  param-with_params :
      (m : String) (ps : List (String × J.Value)) (key : String) (v : J.Value)
      → lookup key ps ≡ some v
      → J.index (J.index (with_params J m ps) "params") key ≡ v
  unfolding with_params
  param-with_params m ps key v h =
      rw
        (L.index-object (("method", J.of_str m) ∷ ("params", J.object ps) ∷ []) "params"
          {v = J.object ps} refl)
        (L.index-object ps key h)

module _ (S : KvStore) (F : Formats) (M : ChannelManager) (B : BdkWallet) (J : Json) (T : Texts M J)
    (around : Surroundings S M B) where
  -- The server's operation for a command, on the command's own arguments.
  abbrev pub executed : Commands → Answer S F M B J T around
  executed node_pubkey = on_node_pubkey S F M B J T around
  executed new_address = on_new_address S F M B J T around
  executed balance = on_balance S F M B J T around
  executed (open_channel pubkey amount) = on_open_channel S F M B J T around pubkey amount
  executed list_channels = on_list_channels S F M B J T around
  executed (close_channel channel_id) = on_close_channel S F M B J T around channel_id
  executed (send_payment invoice) = on_send_payment S F M B J T around invoice
  executed (receive amount) = on_receive S F M B J T around (millisatoshis amount)
  executed (connect pubkey address) = on_connect S F M B J T around pubkey address

  pub respond_method :
      (r : J.Value) (m : String) (w : World S M B)
      → J.as_str (J.index r "method") ≡ some m
      → respond S F M B J T around r w ≡ dispatch S F M B J T around m r w
  unfolding respond
  respond_method r m w h = ground (arith, h)

  -- If a JSON value is read back as it was built: for every command, what the server makes of the
  -- client's request is its operation for that command on the command's arguments; for an invoice,
  -- on the amount in millisatoshis.
  pub respond-request :
      (L : IsJson J) (c : Commands) (w : World S M B)
      → respond S F M B J T around (request J c) w ≡ executed c w
  unfolding dispatch request
  respond-request L node_pubkey w = respond_method _ _ w (method-plain J L "node_pubkey")
  respond-request L new_address w = respond_method _ _ w (method-plain J L "new_address")
  respond-request L balance w = respond_method _ _ w (method-plain J L "balance")
  respond-request L list_channels w = respond_method _ _ w (method-plain J L "list_channels")
  respond-request L (open_channel pubkey amount) w =
      let ps : List (String × J.Value) =
        ("pubkey", J.of_str pubkey) ∷ ("amount", J.of_u64 amount) ∷ [] in
      respond_method (request J (open_channel pubkey amount)) "open_channel" w
        (method-with_params J L "open_channel" ps)
      ∙ rw (
        param-with_params J L "open_channel" ps "pubkey" (J.of_str pubkey) refl,
        param-with_params J L "open_channel" ps "amount" (J.of_u64 amount) refl,
        L.as_str-of_str pubkey,
        L.as_u64-of_u64 amount,
      )
  respond-request L (close_channel channel_id) w =
      let ps : List (String × J.Value) = ("channel_id", J.of_str channel_id) ∷ [] in
      respond_method (request J (close_channel channel_id)) "close_channel" w
        (method-with_params J L "close_channel" ps)
      ∙ rw (
        param-with_params J L "close_channel" ps "channel_id" (J.of_str channel_id) refl,
        L.as_str-of_str channel_id,
      )
  respond-request L (send_payment invoice) w =
      let ps : List (String × J.Value) = ("invoice", J.of_str invoice) ∷ [] in
      respond_method (request J (send_payment invoice)) "send_payment" w
        (method-with_params J L "send_payment" ps)
      ∙ rw (
        param-with_params J L "send_payment" ps "invoice" (J.of_str invoice) refl,
        L.as_str-of_str invoice,
      )
  respond-request L (receive amount) w =
      let ps : List (String × J.Value) = ("amount", J.of_u64 (millisatoshis amount)) ∷ [] in
      respond_method (request J (receive amount)) "receive" w (method-with_params J L "receive" ps)
      ∙ rw (
        param-with_params J L "receive" ps "amount" (J.of_u64 (millisatoshis amount)) refl,
        L.as_u64-of_u64 (millisatoshis amount),
      )
  respond-request L (connect pubkey address) w =
      let ps : List (String × J.Value) =
        ("pubkey", J.of_str pubkey) ∷ ("address", J.of_str address) ∷ [] in
      respond_method (request J (connect pubkey address)) "connect" w
        (method-with_params J L "connect" ps)
      ∙ rw (
        param-with_params J L "connect" ps "pubkey" (J.of_str pubkey) refl,
        param-with_params J L "connect" ps "address" (J.of_str address) refl,
        L.as_str-of_str pubkey,
        L.as_str-of_str address,
      )
