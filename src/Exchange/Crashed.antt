-- ===== src/Exchange/Crashed.antt =====
-- A request that ends the service of src/server.rs.
use ln_node.Prelude.{◌≡◌, refl, ap, none, some, List, [], ◌∷◌, ◌++◌, inl, inr, Option-cases, arith}
use ln_node.Kv.{KvStore}
use ln_node.Storage.Codec.{Formats}
use ln_node.Ldk.{ChannelManager}
use ln_node.Wallet.{BdkWallet}
use ln_node.World.{World}
use ln_node.Json.{Json}
use ln_node.Server.{Texts, Surroundings, panicked, respond}
use ln_node.Server.Answers.{Served-cases}
use ln_node.Exchange.{
  Wire, Stream, read_value, write_response, serve_stream, Connection, connected, silent, failed,
  shut_down, others, listening, crashed, start_streams,
}

module _ (S : KvStore) (F : Formats) (M : ChannelManager) (B : BdkWallet) (J : Json) (T : Texts M J)
    (W : Wire J) (X : Stream W.Byte) where
  -- No request with a text as its method can be read of these bytes.
  abbrev pub IsMalformed : List W.Byte → Type 0
  IsMalformed bytes =
      (request : J.Value)
      → read_value W X 4096 bytes ≡ some request
      → J.as_str (J.index request "method") ≡ none

  serve_stream_malformed :
      (around : Surroundings S M B) (bytes : List W.Byte) (w : World S M B)
      → IsMalformed bytes
      → serve_stream S F M B J T around W X bytes w ≡ (panicked, [])
  unfolding serve_stream respond write_response
  serve_stream_malformed around bytes w bad = elim (Option-cases (read_value W X 4096 bytes)) [
    | inl unread ↦ rw (serve_stream, unread) refl
    | inr (request, read) ↦ rw (serve_stream, read, respond, bad request read) refl
  ]

  -- Bytes that are no JSON, or a request whose method is missing or no text, end the service, as
  -- long as it still listens when they come: the answers are those given before, the server's task
  -- has panicked, and the connections that follow get nothing.
  pub start_streams_malformed :
      (before after : List (Connection S F M B J T W X)) (around : Surroundings S M B)
      (bytes : List W.Byte) (w w' : World S M B)
      → (start_streams S F M B J T W X before w).1 ≡ listening w'
      → IsMalformed bytes
      → start_streams S F M B J T W X (before ++ connected around bytes ∷ after) w
        ≡ ((start_streams S F M B J T W X before w).0, crashed)
  unfolding start_streams
  start_streams_malformed [] after around bytes w w' h bad =
      rw (start_streams, serve_stream_malformed around bytes w bad) refl
  start_streams_malformed (shut_down ∷ before) after around bytes w w' h bad = absurd (cc h)
  start_streams_malformed (silent ∷ before) after around bytes w w' h bad = absurd (cc h)
  start_streams_malformed (failed ∷ before) after around bytes w w' h bad =
      start_streams_malformed before after around bytes w w' h bad
  start_streams_malformed (others change ∷ before) after around bytes w w' h bad =
      start_streams_malformed before after around bytes (change w) w' h bad
  start_streams_malformed (connected a b ∷ before) after around bytes w w' h bad =
      elim (Served-cases (serve_stream S F M B J T a W X b w).0) [
        | inl (v, u, done) ↦
            let rest =
              start_streams_malformed before after around bytes u w' (ground (arith, h, done))
                bad in
            ground (arith, done, ap (λ r. r.0) rest, ap (λ r. r.1) rest)
        | inr (inl crash) ↦ absurd (ground (arith, h, crash))
        | inr (inr wait) ↦ absurd (ground (arith, h, wait))
      ]
