-- ===== src/Tests/Exchange.antt =====
-- Exchanges of the client and the server over a pipe.
use ln_node.Prelude.{ap, none, ◌++◌, sym, true, ◌≡◌, refl, ℕ, ◌*◌, List, [], ◌∷◌, arith}
use mathlib.Core.List.{append-nil}
use ln_node.Kv.Memory.{memory_store as memory, memory_store-IsLawful as lawful}
use ln_node.Cli.{plain as plain_request, with_params, balance, open_channel, receive, request}
use ln_node.Node.Channels.{balance as balance_of, sum_u64}
use ln_node.Server.{answered, dispatch, on_balance, respond}
use ln_node.Exchange.{
  printed, client_panicked, buffer_size, run_command, serve_stream, read_value, reply, connected,
  failed, shut_down, silent, others, listening, crashed, stuck, start_streams, Connection,
}
use ln_node.Exchange.Whole.{exchange-printed, exchange_cut, request_cut}
use ln_node.Exchange.Crashed.{start_streams_malformed}
use ln_node.Exchange.Sound.{AtEnd, Peaceful, start_streams-IsValid}
use ln_node.Node.Lifecycle.{Steps, here, pays, IsValid}
use ln_node.Node.Payments.{after_send, pay_bolt11_invoice}
use ln_node.Tests.Formats.{plain_formats as plain, plain_formats-IsFaithful as faithful}
use ln_node.Tests.Lifecycle.{bump, writes, writes_peer, before, before-IsValid, Node, invoice}
use ln_node.Tests.Samples.{manager, wallet, world}
use ln_node.Tests.Server.{
  Tree, number, build, trees, trees-IsJson, texts, texts_by, around, value_at,
}
use ln_node.Tests.Tokens.{
  key, print, print_before, unary, parse-print, parse, complete, stack, take, tokens, tokens-IsWire,
  pipe, pipe-IsStream,
}

abbrev shown : (ℕ → Tree) → Tree
shown amount = build (
    ("onchain", build (("confirmed", amount 3) ∷ ("pending", amount 3) ∷ []))
    ∷ ("lightning", amount 5)
    ∷ [])

abbrev in_millisatoshis : ℕ → Tree
in_millisatoshis n = number (n * 1000)

exchange-printed_example :
    run_command tokens pipe balance (λ bytes.
      reply memory plain manager wallet trees texts around tokens pipe
        (serve_stream memory plain manager wallet trees texts around tokens pipe bytes (world 3)))
    ≡ printed (shown number)
exchange-printed_example =
    exchange-printed memory plain manager wallet trees texts around tokens pipe pipe trees-IsJson
      tokens-IsWire pipe-IsStream pipe-IsStream balance (world 3) (world 3) (shown number)
      (shown number) 20 (print (request trees balance)) (print (shown number)) refl refl
      (unfold request print print_before build plain_request in omega arith)
      (unfold take print print_before build request plain_request in refl)
      (unfold on_balance balance_of sum_u64 in refl) (unfold print print_before unary build in refl)
      (unfold print print_before unary build buffer_size in omega arith)
      (unfold take print print_before unary build buffer_size in refl) (parse-print (shown number))

exchange_cut_example :
    (run_command tokens pipe balance (λ bytes.
        reply memory plain manager wallet trees (texts_by in_millisatoshis) around tokens pipe (
          serve_stream memory plain manager wallet trees
            (texts_by in_millisatoshis)
            around
            tokens
            pipe
            bytes
            (world 3)))
      ≡ client_panicked)
    × ((serve_stream memory plain manager wallet trees
          (texts_by in_millisatoshis)
          around
          tokens
          pipe
          (print (request trees balance))
          (world 3)).0
        ≡ answered (shown in_millisatoshis) (world 3))
exchange_cut_example =
    exchange_cut memory plain manager wallet trees (texts_by in_millisatoshis) around tokens pipe
      pipe trees-IsJson tokens-IsWire pipe-IsStream pipe-IsStream balance (world 3) (world 3)
      (shown in_millisatoshis) _ (print (request trees balance)) (print (shown in_millisatoshis)) []
      refl refl (unfold request print print_before build plain_request in omega arith)
      (unfold take print print_before build request plain_request in refl)
      (unfold on_balance balance_of sum_u64 in refl) refl (sym (append-nil _))
      (unfold print print_before unary build buffer_size in omega arith)

request_cut_example :
    (run_command tokens pipe (open_channel "02" 5000) (λ bytes.
        reply memory plain manager wallet trees texts around tokens pipe
          (serve_stream memory plain manager wallet trees texts around tokens pipe bytes (world 3)))
      ≡ client_panicked)
    × (start_streams memory plain manager wallet trees texts tokens pipe
          (connected around (print (request trees (open_channel "02" 5000)))
            ∷ connected around (print (request trees balance))
            ∷ [])
          (world 3)
        ≡ ([], crashed))
request_cut_example =
    request_cut memory plain manager wallet trees texts around tokens pipe pipe trees-IsJson
      tokens-IsWire pipe-IsStream pipe-IsStream (open_channel "02" 5000) (world 3)
      (connected around (print (request trees balance)) ∷ []) refl refl
      (unfold request print print_before build unary with_params in omega arith)

-- One client that sends nothing keeps the next from being served.
silent_client :
    start_streams memory plain manager wallet trees texts tokens pipe
      (silent ∷ connected around (print (request trees balance)) ∷ [])
      (world 3)
    ≡ ([], stuck)
unfolding start_streams
silent_client = refl

abbrev Connections : Type 0
Connections = List (Connection memory plain manager wallet trees texts tokens pipe)

-- A balance, then a client that fails.
abbrev served : Connections
served = connected around (print (request trees balance)) ∷ failed ∷ []

still_listens :
    start_streams memory plain manager wallet trees texts tokens pipe served (world 3)
    ≡ (print (shown number) ∷ [], listening (world 3))
unfolding start_streams serve_stream read_value respond dispatch on_balance balance_of sum_u64 take
    print print_before unary request build plain_request parse complete stack value_at
still_listens = refl

-- Bytes that are no request.
start_streams_malformed_example :
    start_streams memory plain manager wallet trees texts tokens pipe
      (served ++ connected around (key "method" ∷ []) ∷ served)
      (world 3)
    ≡ (
      (start_streams memory plain manager wallet trees texts tokens pipe served (world 3)).0,
      crashed,
    )
start_streams_malformed_example =
    start_streams_malformed memory plain manager wallet trees texts tokens pipe served served around
      (key "method" ∷ []) (world 3) (world 3) (ap (λ r. r.1) still_listens)
      (λ request h. absurd (unfold read_value take parse complete stack in cc h))

-- Another task makes a payment.
abbrev pay : Node → Node
pay w =
    (pay_bolt11_invoice memory plain manager wallet invoice none
      (λ _. after_send memory plain manager wallet invoice none w) w).1

-- An invoice of one satoshi, that payment, a balance, and the shutdown.
abbrev conns : Connections
conns =
    connected around (print (request trees (receive 1)))
    ∷ others pay
    ∷ connected around (print (request trees balance))
    ∷ shut_down
    ∷ connected around (key "method" ∷ [])
    ∷ []

calm : (v : Node) → Steps memory plain manager wallet true bump 100000 v (around.meanwhile v)
calm v = here

conns-Peaceful :
    Peaceful memory plain manager wallet trees texts tokens pipe true bump 100000 conns before
conns-Peaceful = (
  calm,
  λ answer w h. (
    pays here invoice none (after_send memory plain manager wallet invoice none w) here,
    (calm, λ answer' w' h'. (calm, λ answer'' w'' h''. tt)),
  ),
)

start_streams-IsValid_example :
    AtEnd memory plain manager wallet trees texts tokens pipe true bump 100000
      (λ w'. IsValid memory plain manager wallet true bump 100000 w'.node_store)
      (start_streams memory plain manager wallet trees texts tokens pipe conns before).1
start_streams-IsValid_example =
    start_streams-IsValid memory plain manager wallet trees texts tokens pipe true bump 100000
      lawful faithful writes writes_peer conns before conns-Peaceful before-IsValid
