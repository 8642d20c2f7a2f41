-- ===== src/Server/Closing.antt =====
-- A channel that the client asks to close.
use mathlib.Core.List.{Mem}
use ln_node.Prelude.{
  ◌≡◌, String, none, some, ok, err, Result, inl, inr, Option-cases, Result-cases, ap, arith,
}
use ln_node.Kv.{Bytes, KvStore}
use ln_node.Storage.Codec.{Formats}
use ln_node.Ldk.{ApiError, ChannelDetails, ChannelManager}
use ln_node.Wallet.{BdkWallet}
use ln_node.World.{World}
use ln_node.Json.{Json, IsJson}
use ln_node.Cli.{close_channel, request}
use ln_node.Node.{NodeError, channel_does_not_exist}
use ln_node.Node.Channels.{close_error, IsAbsent, close_channel-cases}
use ln_node.Server.{
  Texts, Surroundings, Served, answered, panicked, array_32, field, on_close_channel, respond,
}
use ln_node.Server.Protocol.{respond-request}

module _ (S : KvStore) (F : Formats) (M : ChannelManager) (B : BdkWallet) (J : Json) (T : Texts M J)
    (around : Surroundings S M B) where
  -- What LDK is asked.
  abbrev pub ask : ChannelDetails → Bytes → World S M B → Result ApiError (Unit {0}) × World S M B
  ask channel id w =
      let (answer, manager) = M.close_channel id channel.counterparty w.channel_manager in
      (answer, record w { channel_manager = manager })

  abbrev pub could_not : NodeError → J.Value
  could_not e =
      field S F M B J T around "result" (T.append "Could not close channel " (T.show_error e))

  -- The outcomes of a request to close a channel: the id is not hex or not of 32 bytes, no channel
  -- of the node has it, or LDK is asked to close one that has, with that channel's own peer, and
  -- refuses or agrees.
  pub data Closes (text : String) (w : World S M B) : Served J (World S M B) → Type 0 where
    unreadable : T.hex_decode text ≡ none → Closes text w panicked
    wrong_size :
        (bytes : Bytes)
        → T.hex_decode text ≡ some bytes
        → array_32 bytes ≡ none
        → Closes text w panicked
    absent :
        (id : Bytes)
        → T.hex_decode text ≡ some id
        → IsAbsent id (M.list_channels w.channel_manager)
        → Closes text w (answered (could_not (channel_does_not_exist id)) w)
    refused :
        (id : Bytes) (channel : ChannelDetails) (e : ApiError)
        → T.hex_decode text ≡ some id
        → channel.channel_id ≡ id
        → Mem channel (M.list_channels w.channel_manager)
        → (ask channel id w).0 ≡ err e
        → Closes text w (answered (could_not (close_error e)) (ask channel id w).1)
    closed :
        (id : Bytes) (channel : ChannelDetails)
        → T.hex_decode text ≡ some id
        → channel.channel_id ≡ id
        → Mem channel (M.list_channels w.channel_manager)
        → (ask channel id w).0 ≡ ok tt
        → Closes text w
            (answered (field S F M B J T around "result" "Channel closed") (ask channel id w).1)

  array_32-same : (bytes id : Bytes) → array_32 bytes ≡ some id → id ≡ bytes
  array_32-same bytes id h = ground (arith, h)

  on_close_channel-Closes :
      (text : String) (w : World S M B) → Closes text w (on_close_channel S F M B J T around text w)
  unfolding on_close_channel
  on_close_channel-Closes text w =
      let answer : Served J (World S M B) = on_close_channel S F M B J T around text w in
      elim (Option-cases (T.hex_decode text)) [
        | inl unread ↦ rw (on_close_channel, unread) (unreadable unread)
        | inr (bytes, read) ↦ elim (Option-cases (array_32 bytes)) [
          | inl short ↦
              let e : answer ≡ panicked = ground (arith, read, short) in
              rw e (wrong_size bytes read short)
          | inr (id, sized) ↦
              let same = array_32-same bytes id sized in
              let decoded : T.hex_decode text ≡ some id = rw same read in
              elim (close_channel-cases S M B id w) [
                | inr (missing, failed) ↦
                    let e : answer ≡ answered (could_not (channel_does_not_exist id)) w =
                      ground (arith, read, sized, ap (λ r. r.0) failed, ap (λ r. r.1) failed) in
                    rw e (absent id decoded missing)
                | inl (c, its, listed, asked) ↦ elim (Result-cases (ask c id w).0) [
                  | inr (x, denied) ↦
                      let e : answer ≡ answered (could_not (close_error x)) (ask c id w).1 =
                        ground
                          (arith, read, sized, denied, ap (λ r. r.0) asked, ap (λ r. r.1) asked) in
                      rw e (refused id c x decoded its listed denied)
                  | inl (_, agreed) ↦
                      let e : answer
                          ≡ answered (field S F M B J T around "result" "Channel closed")
                              (ask c id w).1 =
                        ground
                          (arith, read, sized, agreed, ap (λ r. r.0) asked, ap (λ r. r.1) asked) in
                      rw e (closed id c decoded its listed agreed)
                ]
              ]
        ]
      ]

  -- If a JSON value is read back as it was built: a request of the client to close a channel has
  -- one of five outcomes. The server panics if the id is not hex or not of 32 bytes; it answers
  -- with an error, and nothing changes, if no channel of the node has the id; else it asks LDK to
  -- close one that has, with that channel's own peer, and answers with LDK's error or with
  -- success.
  pub respond-Closes :
      (L : IsJson J) (text : String) (w : World S M B)
      → Closes text w (respond S F M B J T around (request J (close_channel text)) w)
  respond-Closes L text w =
      rw (respond-request S F M B J T around L (close_channel text) w)
        (on_close_channel-Closes text w)
