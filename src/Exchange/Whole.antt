-- ===== src/Exchange/Whole.antt =====
-- An exchange that goes through, and the messages that do not fit their buffers.
use ln_node.Prelude.{
  min, ◌++◌, ◌≡◌, refl, sym, ◌∙◌, ap, ℕ, Option, none, some, List, [], ◌∷◌, ok, length, ◌≤◌, ◌<◌,
  arith,
}
use mathlib.Core.List.{append-nil}
use ln_node.Kv.{KvStore}
use ln_node.Storage.Codec.{Formats}
use ln_node.Ldk.{ChannelManager}
use ln_node.Wallet.{BdkWallet}
use ln_node.World.{World}
use ln_node.Json.{Json, IsJson}
use ln_node.Cli.{Commands, request}
use ln_node.Server.{Texts, Surroundings, answered, panicked}
use ln_node.Server.Protocol.{respond-request, executed}
use ln_node.Exchange.{
  Wire, IsWire, Stream, IsStream, Shown, printed, client_panicked, buffer_size, read_value,
  print_answer, run_command, serve_stream, write_response, reply, Connection, connected, crashed,
  start_streams,
}
use ln_node.Exchange.Messages.{request-Requested, read_value_cut, read_value_fits}
use ln_node.Exchange.Answers.{Object, answered-Object, executed-AllObject}

module _ (S : KvStore) (F : Formats) (M : ChannelManager) (B : BdkWallet) (J : Json) (T : Texts M J)
    (around : Surroundings S M B) (W : Wire J) (X Y : Stream W.Byte) (L : IsJson J) (V : IsWire J W)
    (LX : IsStream X) (LY : IsStream Y) where
  -- A request that has come whole is carried out.
  serve_stream-executed :
      (c : Commands) (w : World S M B) (taken : List W.Byte)
      → length (W.to_string (request J c)) ≤ 4096
      → Y.read 4096 (W.to_string (request J c)) ≡ ok taken
      → serve_stream S F M B J T around W Y (W.to_string (request J c)) w
        ≡ write_response S F M B J T around W Y (executed S F M B J T around c w)
  unfolding serve_stream
  serve_stream-executed c w taken fits came =
      rw
        (
          serve_stream,
          read_value_fits W V Y LY (W.to_string (request J c)) taken 4096 fits came,
          V.from_slice-to_string (request J c) (request-Requested J c).1.1,
          respond-request S F M B J T around L c w,
        )
        refl

  serve_stream-answered :
      (c : Commands) (w w' : World S M B) (v : J.Value) (n : ℕ) (taken told : List W.Byte)
      → length (W.to_string (request J c)) ≤ 4096
      → Y.read 4096 (W.to_string (request J c)) ≡ ok taken
      → executed S F M B J T around c w ≡ answered v w'
      → Y.try_write (W.to_string v) ≡ (ok n, told)
      → serve_stream S F M B J T around W Y (W.to_string (request J c)) w ≡ (answered v w', told)
  unfolding write_response
  serve_stream-answered c w w' v n taken told fits came did wrote =
      serve_stream-executed c w taken fits came
      ∙ ground (arith, did, ap (λ s. s.0) wrote, ap (λ s. s.1) wrote)

  run_command-sent :
      (c : Commands) (reply_to : List W.Byte → Option (List W.Byte))
      → X.connect ≡ ok tt
      → X.write_all (W.to_string (request J c)) ≡ (ok tt, W.to_string (request J c))
      → run_command W X c reply_to
        ≡ print_answer W X (buffer_size c) (reply_to (W.to_string (request J c)))
  unfolding run_command
  run_command-sent c reply_to connects sent =
      ground (arith, connects, ap (λ s. s.0) sent, ap (λ s. s.1) sent)

  -- A read that gets less than all of an object's text.
  read_value_short :
      {Z : Stream W.Byte} (LZ : IsStream Z) (v : J.Value) (size : ℕ) (bytes rest : List W.Byte)
      → Object J v
      → W.to_string v ≡ bytes ++ rest
      → min size (length bytes) < length (W.to_string v)
      → read_value W Z size bytes ≡ none
  read_value_short {Z} LZ v size bytes rest (fields, e) whole h =
      read_value_cut W V Z LZ fields size bytes rest (rw (← e) whole) (rw (← e) h)

  abbrev exchange : Commands → World S M B → Shown J
  exchange c w =
      run_command W X c
        (λ bytes. reply S F M B J T around W Y (serve_stream S F M B J T around W Y bytes w))

  -- If a JSON value is read back as it was built and a request as it was printed, and a read that
  -- succeeds takes all that fits its buffer: where the client connects and sends its request
  -- whole, the request is at most 4096 bytes long and is read, the server carries the command out
  -- and its answer is sent whole, and the answer fits the buffer of the client and is read and is
  -- JSON, the client prints the value it reads as.
  pub exchange-printed :
      (c : Commands) (w w' : World S M B) (v shown : J.Value) (n : ℕ) (asked told : List W.Byte)
      → X.connect ≡ ok tt
      → X.write_all (W.to_string (request J c)) ≡ (ok tt, W.to_string (request J c))
      → length (W.to_string (request J c)) ≤ 4096
      → Y.read 4096 (W.to_string (request J c)) ≡ ok asked
      → executed S F M B J T around c w ≡ answered v w'
      → Y.try_write (W.to_string v) ≡ (ok n, W.to_string v)
      → length (W.to_string v) ≤ buffer_size c
      → X.read (buffer_size c) (W.to_string v) ≡ ok told
      → W.from_slice (W.to_string v) ≡ some shown
      → exchange c w ≡ printed shown
  unfolding print_answer
  exchange-printed c w w' v shown n asked told connects sent fits came did wrote vfits back reads =
      run_command-sent c _ connects sent
      ∙ rw
          (
            serve_stream-answered c w w' v n asked (W.to_string v) fits came did wrote,
            print_answer,
            read_value_fits W V X LX (W.to_string v) told (buffer_size c) vfits back,
            reads,
          )
          refl

  -- If a JSON value is read back as it was built and a request as it was printed, no start of a
  -- printed object is JSON, and a read takes a start of what has come, all that fits its buffer:
  -- where the client connects and sends its request whole, the request is at most 4096 bytes long
  -- and is read, the server carries the command out, and the socket takes a start of the answer,
  -- of which less than the whole answer fits the buffer of the command, the client panics,
  -- although the server has done what was asked.
  pub exchange_cut :
      (c : Commands) (w w' : World S M B) (v : J.Value) (n : ℕ) (asked told rest : List W.Byte)
      → X.connect ≡ ok tt
      → X.write_all (W.to_string (request J c)) ≡ (ok tt, W.to_string (request J c))
      → length (W.to_string (request J c)) ≤ 4096
      → Y.read 4096 (W.to_string (request J c)) ≡ ok asked
      → executed S F M B J T around c w ≡ answered v w'
      → Y.try_write (W.to_string v) ≡ (ok n, told)
      → W.to_string v ≡ told ++ rest
      → min (buffer_size c) (length told) < length (W.to_string v)
      → (exchange c w ≡ client_panicked)
        × ((serve_stream S F M B J T around W Y (W.to_string (request J c)) w).0 ≡ answered v w')
  unfolding print_answer
  exchange_cut c w w' v n asked told rest connects sent fits came did wrote start long =
      let served = serve_stream-answered c w w' v n asked told fits came did wrote in
      (
        run_command-sent c _ connects sent
            ∙ rw
                (
                  served,
                  print_answer,
                  read_value_short LX v (buffer_size c) told rest
                      (answered-Object (executed-AllObject S F M B J T around c w) did) start long,
                )
                refl,
        ap (λ s. s.0) served,
      )

  -- The bytes of a request that is too long.
  serve_stream_long :
      (c : Commands) (w : World S M B)
      → 4096 < length (W.to_string (request J c))
      → serve_stream S F M B J T around W Y (W.to_string (request J c)) w ≡ (panicked, [])
  unfolding serve_stream
  serve_stream_long c w long =
      let (fields, (e, _)) = request-Requested J c in
      rw
        (
          serve_stream,
          read_value_short LY (request J c) 4096 (W.to_string (request J c)) [] (fields, e)
              (sym (append-nil _)) (omega (arith, long)),
        )
        refl

  read_nothing :
      (c : Commands) (size : ℕ)
      → 4096 < length (W.to_string (request J c))
      → read_value W X size [] ≡ none
  read_nothing c size long =
      let (fields, (e, _)) = request-Requested J c in
      read_value_short LX (request J c) size [] (W.to_string (request J c)) (fields, e) refl
        (omega (arith, long))

  -- If no start of a printed object is JSON, and a read takes a start of what has come that fits
  -- its buffer: where the client connects and sends its request whole, and the request is longer
  -- than 4096 bytes, the client panics, and the task of the server is over, whatever connections
  -- follow.
  pub request_cut :
      (c : Commands) (w : World S M B) (more : List (Connection S F M B J T W Y))
      → X.connect ≡ ok tt
      → X.write_all (W.to_string (request J c)) ≡ (ok tt, W.to_string (request J c))
      → 4096 < length (W.to_string (request J c))
      → (exchange c w ≡ client_panicked)
        × (start_streams S F M B J T W Y (connected around (W.to_string (request J c)) ∷ more) w
            ≡ ([], crashed))
  unfolding print_answer start_streams
  request_cut c w more connects sent long = (
    run_command-sent c _ connects sent
        ∙ rw (serve_stream_long c w long, print_answer, read_nothing c (buffer_size c) long) refl,
    rw (start_streams, serve_stream_long c w long) refl,
  )
