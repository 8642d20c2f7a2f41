-- ===== src/Tests/Background.antt =====
-- The task for events, with a payment made and settled before the shutdown, and a handler that panics.
use ln_node.Prelude.{
  ◌≡◌, ◌≢◌, refl, Bool, true, false, none, some, List, [], ◌∷◌, ok, err, returned, panicked, arith,
}
use ln_node.Kv.Memory.{memory_store as memory, memory_store-IsLawful as lawful, get}
use ln_node.Storage.{Payment, outbound}
use ln_node.Storage.Codec.{read_payment, encode_payment}
use ln_node.Storage.Store.{get_payment, add_payment}
use ln_node.Fees.Cache.{get_est_sat_per_1000_weight, fallback_fees}
use ln_node.Config.{deserialize, main_builder, new, default, setup_bitcoind_rpc_client}
use ln_node.Events.{payment_sent, handle_event}
use ln_node.Node.Payments.{after_send, pay_bolt11_invoice}
use ln_node.Node.Peers.{save_peers}
use ln_node.Node.Lifecycle.{here, pays}
use ln_node.Node.Start.{ends, start}
use ln_node.Node.Background.{Turn, event, others, process_events, background}
use ln_node.Node.Background.Lives.{Orderly, start-background}
use ln_node.Tests.Formats.{plain_formats as plain, plain_formats-IsFaithful as faithful}
use ln_node.Tests.Samples.{manager, wallet}
use ln_node.Tests.Lifecycle.{bump, writes, writes_peer, before, before-IsValid, Node, invoice}
use ln_node.Tests.Peers.{alice}
use ln_node.Tests.Start.{parts, tip_reached, socket, socket-IsSocketFile, reads, Runs, good, binary}
use ln_node.Tests.Node.{ldk_default, join}
use ln_node.Tests.Startup.{keys, directory, signer, empty, Disk}
use ln_node.Tests.Builder.{ldk}
use ln_node.Wallet.Startup.{
  mnemonic_from_file, mnemonic_of, load_or_create, ldk_seed, manager_of, new_wallet,
}
use ln_node.Wallet.Signing.{get_node_id}
use ln_node.Builder.{
  read_place, ensure_path, load_graph, load_scorer, load_routing, create_manager, channels,
  assemble, build,
}
use ln_node.Lnnode.{node_task_panicked, waiting, exited, read_config}
use ln_node.Lnnode.Runs.{main_all}
use ln_node.Lnnode.Handler.{main-handler_panicked}

abbrev Turns : Type 0
Turns = List (Turn memory plain manager wallet true bump 100000)

-- Another task makes a payment, and LDK reports its success.
abbrev pay : Node → Node
pay w =
    (pay_bolt11_invoice memory plain manager wallet invoice none
      (λ _. after_send memory plain manager wallet invoice none w) w).1

abbrev turns : Turns
turns = others pay ∷ event (payment_sent (some (5 ∷ [])) (9 ∷ []) (5 ∷ []) (some 7)) ∷ []

sent_is_outgoing :
    (p : Payment)
    → get_payment memory plain (5 ∷ []) (pay before).node_store ≡ ok p
    → p.direction ≡ outbound
unfolding get_payment get add_payment plain pay_bolt11_invoice read_payment encode_payment
sent_is_outgoing p found = ground (arith, found)

turns-Orderly : Orderly memory plain manager wallet true bump 100000 turns before
turns-Orderly = (
  pays here invoice none (after_send memory plain manager wallet invoice none before) here,
  (unfold pay_bolt11_invoice in λ h. h, ((refl, refl), (sent_is_outgoing, λ r w' h. tt))),
)

-- The peers are stored when the node stops.
start-background_example :
    start parts memory plain true
      (background memory plain manager wallet true bump 100000 turns [] (ok tt) before)
      ([], alice ∷ [])
    ≡ (ends (returned (ok tt)), (save_peers memory plain (alice ∷ []) [], []))
start-background_example =
    start-background memory plain manager wallet true bump 100000 lawful faithful writes writes_peer
      parts 9 turns [] (ok tt) before [] (alice ∷ []) tip_reached before-IsValid
      (refl, unfold get_est_sat_per_1000_weight fallback_fees in λ e. cc e) turns-Orderly
      (λ w' h. tt)

-- An event without the payment's id, which the handler unwraps.
abbrev old : Turns
old = event (payment_sent none [] [] none) ∷ []

old_panics : process_events memory plain manager wallet true bump 100000 old before ≡ panicked
unfolding process_events handle_event
old_panics = refl

abbrev run : Runs
run = record good {
  background = background memory plain manager wallet true bump 100000 old [] (ok tt) before;
}

-- What that run leaves.
abbrev left : Disk × Bool
left =
    main_all memory plain wallet keys directory signer ldk socket socket-IsSocketFile reads
      ldk_default join "/h" [] (binary run empty false).1.0 (binary run empty false).1.1

main-handler_panicked_example :
    ((binary run empty false).0 ≡ exited (err node_task_panicked))
    × ((binary good left.0 left.1).0 ≢ waiting)
    × ((binary good left.0 left.1).0 ≢ exited (ok tt))
unfolding read_config deserialize main_builder new default setup_bitcoind_rpc_client build
    ensure_path assemble load_routing load_graph load_scorer read_place channels create_manager
    new_wallet mnemonic_of mnemonic_from_file load_or_create manager_of ldk_seed get_node_id get
main-handler_panicked_example =
    main-handler_panicked memory plain manager wallet true bump 100000 keys directory signer ldk
      socket socket-IsSocketFile reads ldk_default join "/h" run good [] empty false _ _ 9 old []
      (ok tt) before refl refl refl tip_reached refl refl old_panics
