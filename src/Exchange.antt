-- ===== src/Exchange.antt =====
-- The bytes between src/bin/lncli.rs and src/server.rs: the client's write and single read, and the
-- server's. The socket and serde_json's texts are interfaces.
pub mod Answers
pub mod Messages
pub mod Crashed
pub mod Sound
pub mod Whole
use ln_node.Prelude.{
  ◌≡◌, ℕ, Bool, true, false, String, Option, none, some, List, [], ◌∷◌, ◌++◌, Result, ok, err,
  length, ◌≤◌, ◌<◌,
}
use ln_node.Kv.{KvStore}
use ln_node.Storage.Codec.{Formats}
use ln_node.Ldk.{ChannelManager}
use ln_node.Wallet.{BdkWallet}
use ln_node.World.{World}
use ln_node.Json.{Json}
use ln_node.Cli.{
  Commands, node_pubkey, new_address, balance, open_channel, list_channels, close_channel,
  send_payment, receive, connect, request,
}
use ln_node.Server.{Texts, Surroundings, Served, answered, panicked, waiting, unwrap, respond}

-- serde_json's text of a value, as bytes, and its reading of one.
pub record Wire (J : Json) : Type 1 where
  pub Byte : Type 0
  pub to_string : J.Value → List Byte
  pub from_slice : List Byte → Option J.Value

mutual
  -- What a request is made of: texts, numbers of 64 bits, and objects of them.
  pub data IsExact (J : Json) : J.Value → Type 0 where
    exact_str : (s : String) → IsExact J (J.of_str s)
    exact_u64 : (n : ℕ) → IsExact J (J.of_u64 n)
    exact_object :
        (fields : List (String × J.Value)) → AllExact J fields → IsExact J (J.object fields)

  pub data AllExact (J : Json) : List (String × J.Value) → Type 0 where
    exact_nil : AllExact J []
    exact_cons :
        (key : String) (v : J.Value) (fields : List (String × J.Value))
        → IsExact J v
        → AllExact J fields
        → AllExact J ((key, v) ∷ fields)

-- An exact value is read back from its text; the text of an object, cut short, is no value.
pub record IsWire (J : Json) (W : Wire J) : Type 0 where
  pub from_slice-to_string : (v : J.Value) → IsExact J v → W.from_slice (W.to_string v) ≡ some v
  pub from_slice_cut :
      (fields : List (String × J.Value)) (bytes : List W.Byte) (b : W.Byte) (rest : List W.Byte)
      → W.to_string (J.object fields) ≡ bytes ++ (b ∷ rest)
      → W.from_slice bytes ≡ none

-- One end of a Unix stream: what `write_all` and `try_write` return and what of the bytes reaches
-- the other end, and what a read into a buffer of a size takes from the bytes that have come, once
-- the stream is readable.
pub record Stream (Byte : Type 0) : Type 0 where
  pub connect : Result (Unit {0}) (Unit {0})
  pub write_all : List Byte → Result (Unit {0}) (Unit {0}) × List Byte
  pub try_write : List Byte → Result (Unit {0}) ℕ × List Byte
  pub read : ℕ → List Byte → Result (Unit {0}) (List Byte)

-- What is relied on of a read that succeeds: it takes a start of what has come, no longer than its
-- buffer, and all of it where it fits.
pub record IsStream {Byte : Type 0} (X : Stream Byte) : Type 0 where
  pub read_start :
      (size : ℕ) (bytes taken : List Byte)
      → X.read size bytes ≡ ok taken
      → (rest : List Byte) × (bytes ≡ taken ++ rest)
  pub read_fits :
      (size : ℕ) (bytes taken : List Byte) → X.read size bytes ≡ ok taken → length taken ≤ size
  pub read_whole :
      (size : ℕ) (bytes taken : List Byte)
      → X.read size bytes ≡ ok taken
      → length bytes ≤ size
      → taken ≡ bytes

-- What a command of the client does: it prints a value, an `unwrap` of it panics, or it waits.
pub data Shown (J : Json) : Type 0 where
  printed : J.Value → Shown J
  client_panicked : Shown J
  client_waits : Shown J

-- The buffer of each command.
unfoldable pub buffer_size : Commands → ℕ
buffer_size node_pubkey = 1024
buffer_size new_address = 1024
buffer_size balance = 1024
buffer_size _ = 4096

module _ {J : Json} (W : Wire J) (X : Stream W.Byte) where
  -- One read, and serde_json's reading of what it took.
  unfoldable pub read_value : ℕ → List W.Byte → Option J.Value
  read_value size bytes = elim (X.read size bytes) [
    | err _ ↦ none
    | ok buffer ↦ W.from_slice buffer
  ]

  unfoldable pub print_answer : ℕ → Option (List W.Byte) → Shown J
  unfolding read_value
  print_answer size none = client_waits
  print_answer size (some bytes) = elim (read_value size bytes) [
    | none ↦ client_panicked
    | some response ↦ printed response
  ]

  -- A command, given the bytes that come back for those that it sends; none come while the server
  -- waits.
  unfoldable pub run_command : Commands → (List W.Byte → Option (List W.Byte)) → Shown J
  unfolding print_answer request buffer_size
  run_command c reply = elim X.connect [
    | err _ ↦ client_panicked
    | ok _ ↦
        let (wrote, sent) = X.write_all (W.to_string (request J c)) in
        elim wrote [ err _ ↦ client_panicked | ok _ ↦ print_answer (buffer_size c) (reply sent) ]
  ]

module _ (S : KvStore) (F : Formats) (M : ChannelManager) (B : BdkWallet) (J : Json) (T : Texts M J)
    (around : Surroundings S M B) (W : Wire J) (X : Stream W.Byte) where
  abbrev pub Written : Type 0
  Written = Served J (World S M B) × List W.Byte

  -- `try_write`, whose count is not looked at.
  unfoldable pub write_response : Served J (World S M B) → Written
  write_response waiting = (waiting, [])
  write_response panicked = (panicked, [])
  write_response (answered response w) =
      let (wrote, sent) = X.try_write (W.to_string response) in
      elim wrote [ err _ ↦ (panicked, sent) | ok n ↦ (answered response w, sent) ]

  -- One connection, from the bytes that have come to those that go back.
  unfoldable pub serve_stream : List W.Byte → World S M B → Written
  unfolding read_value respond write_response
  serve_stream bytes w = elim (read_value W X 4096 bytes) [
    | none ↦ (panicked, [])
    | some request ↦ write_response (respond S F M B J T around request w)
  ]

  -- What reaches the client: nothing yet while the server waits.
  abbrev pub reply : Written → Option (List W.Byte)
  reply (waiting, sent) = none
  reply (panicked, sent) = some sent
  reply (answered response w, sent) = some sent

-- How the server's task stands: it listens, it has left its loop, it has panicked, which leaves the
-- node to the other tasks, or it waits in a connection.
pub data Ending (S : KvStore) (M : ChannelManager) (B : BdkWallet) : Type 0 where
  listening stopped : World S M B → Ending S M B
  crashed stuck : Ending S M B

module _ (S : KvStore) (F : Formats) (M : ChannelManager) (B : BdkWallet) (J : Json) (T : Texts M J)
    (W : Wire J) (X : Stream W.Byte) where
  -- What the `select!` gets: a connection on which bytes come, with what the server meets while it
  -- serves it, one on which none come and which stays open, one that failed, or the shutdown. Before
  -- each, the other tasks may change the node.
  pub data Connection : Type 0 where
    connected : Surroundings S M B → List W.Byte → Connection
    silent failed shut_down : Connection
    others : (World S M B → World S M B) → Connection

  unfoldable pub start_streams : List Connection → World S M B → List (List W.Byte) × Ending S M B
  unfolding serve_stream
  start_streams [] w = ([], listening w)
  start_streams (others change ∷ more) w = start_streams more (change w)
  start_streams (shut_down ∷ more) w = ([], stopped w)
  start_streams (failed ∷ more) w = start_streams more w
  start_streams (silent ∷ more) w = ([], stuck)
  start_streams (connected around bytes ∷ more) w =
      let (served, sent) = serve_stream S F M B J T around W X bytes w in
      elim served [
        | waiting ↦ ([], stuck)
        | panicked ↦ ([], crashed)
        | answered response w' ↦
            let (responses, ending) = start_streams more w' in (sent ∷ responses, ending)
      ]
