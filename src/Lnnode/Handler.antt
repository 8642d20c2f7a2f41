-- ===== src/Lnnode/Handler.antt =====
-- A panic of the event handler, and what it does to the binary.
use ln_node.Prelude.{
  Option, ◌≡◌, ◌≢◌, refl, ◌∙◌, ℕ, Bool, String, List, Result, ok, err, returned, panicked, arith,
}
use ln_node.Kv.{Bytes, KvStore}
use ln_node.Storage.Codec.{Formats}
use ln_node.Config.{Config, UserConfig, ConfigFields, main_builder}
use ln_node.Ldk.{ChannelManager}
use ln_node.Wallet.{BdkWallet}
use ln_node.Wallet.Startup.{Keys, Directory}
use ln_node.Wallet.Signing.{Signer}
use ln_node.World.{World}
use ln_node.Builder.{Ldk, Built, build}
use ln_node.Node.Start.{ended, chain_tip, shut_down, start}
use ln_node.Node.Background.{Turn, process_events, background}
use ln_node.Lnnode.{
  SocketFile, IsSocketFile, interrupted, node_task_panicked, waiting, exited, node_task, shutdown,
  new_server, finish, await_signal, Run, read_config, serve, main,
}
use ln_node.Lnnode.Runs.{main_all, main_blocked}

module _ (S : KvStore) (F : Formats) (M : ChannelManager) (B : BdkWallet) (info : Bool)
    (bump : Bytes → B.State → Option B.State) (minimum : ℕ) where
  background-ended :
      (before after : List (Turn S F M B info bump minimum)) (result : Result String (Unit {0}))
      (w : World S M B)
      → process_events S F M B info bump minimum before w ≡ panicked
      → background S F M B info bump minimum before after result w ≡ ended
  unfolding background
  background-ended before after result w panic = rw (background, panic) refl

  module _ (K : Keys) (D : Directory B K) (G : Signer K) (L : Ldk) (U : SocketFile)
      (V : IsSocketFile U) (from_str : String → Result String ConfigFields)
      (ldk_default : UserConfig) (push : String → String → String) (home : String) where
    serve-ended :
        (run : Run S B K L) (node : Built B K L) (u : U.State) (tip : (run.parts node).BlockHash)
        → (U.bind u).0 ≡ ok tt
        → chain_tip (run.parts node) ≡ ok tip
        → run.signal ≡ interrupted
        → run.background ≡ ended
        → (serve S F B K D G L U from_str ldk_default push home run node u).0
          ≡ exited (err node_task_panicked)
    unfolding serve new_server await_signal shutdown node_task finish start shut_down
    serve-ended run node u tip bound found signal gone = ground (arith, bound, found, signal, gone)

    -- If the socket's file behaves as documented: a run that is interrupted after it has read its
    -- configuration, built its node, bound its socket and come to a chain tip, and whose event
    -- handler panicked before, ends with an error, and no later run waits for its signal or
    -- succeeds, however many runs were made in between.
    pub main-handler_panicked :
        (run last : Run S B K L) (later : List (Run S B K L)) (d : D.State) (u : U.State)
        (conf : Config) (node : Built B K L) (tip : (run.parts node).BlockHash)
        (before after : List (Turn S F M B info bump minimum)) (result : Result String (Unit {0}))
        (w : World S M B)
        → read_config S F B K D G L U from_str ldk_default push home run.config_text ≡ ok conf
        → (build S B K D G L (main_builder ldk_default push home conf) run.now run.found d).0
          ≡ returned (ok node)
        → (U.bind u).0 ≡ ok tt
        → chain_tip (run.parts node) ≡ ok tip
        → run.signal ≡ interrupted
        → run.background ≡ background S F M B info bump minimum before after result w
        → process_events S F M B info bump minimum before w ≡ panicked
        → let (exit, (d', u'), _) = main S F B K D G L U from_str ldk_default push home run d u in
          let (d'', u'') = main_all S F B K D G L U V from_str ldk_default push home later d' u' in
          (exit ≡ exited (err node_task_panicked))
          × ((main S F B K D G L U from_str ldk_default push home last d'' u'').0 ≢ waiting)
          × ((main S F B K D G L U from_str ldk_default push home last d'' u'').0 ≢ exited (ok tt))
    unfolding main
    main-handler_panicked run last later d u conf node tip before after result w read built bound
          found signal task panic =
        let gone = task ∙ background-ended before after result w panic in
        let served = serve-ended run node u tip bound found signal gone in
        let exit : (main S F B K D G L U from_str ldk_default push home run d u).0
            ≡ exited (err node_task_panicked) =
          ground (arith, read, built, served) in
        let (waits, succeeds, _) =
          main_blocked S F B K D G L U V from_str ldk_default push home run last later d u exit in
        (exit, waits, succeeds)
