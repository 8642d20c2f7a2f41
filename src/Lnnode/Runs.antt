-- ===== src/Lnnode/Runs.antt =====
-- The binary over several runs.
use ln_node.Prelude.{
  ◌≡◌, ◌≢◌, ap, ◌∙◌, String, Bool, true, false, List, [], ◌∷◌, Result, ok, err, ◌⊎◌, inl, inr,
  Result-cases, Outcome-cases, Bool-cases, returned, arith,
}
use ln_node.Kv.{KvStore, IoError}
use ln_node.Storage.Codec.{Formats}
use ln_node.Config.{Config, UserConfig, ConfigFields, deserialize, main_builder}
use ln_node.Wallet.{BdkWallet}
use ln_node.Wallet.Startup.{Keys, Directory}
use ln_node.Wallet.Signing.{Signer}
use ln_node.Builder.{Ldk, Built, build}
use ln_node.Node.Start.{Start, ends}
use ln_node.Node.Start.Shutdown.{IsSynchronized, start-cases}
use ln_node.Node.Peers.{save_peers}
use ln_node.Lnnode.{
  SocketFile, IsSocketFile, interrupted, MainError, node_task_panicked, Exit, waiting, crashed,
  exited, shutdown, new_server, Run, read_config, node_start, serve, main,
}
use ln_node.Lnnode.Joining.{shutdown-eq-true, await_signal-eq-ok, await_signal-eq-err}

module _ (S : KvStore) (F : Formats) (B : BdkWallet) (K : Keys) (D : Directory B K) (G : Signer K)
    (L : Ldk) (U : SocketFile) (V : IsSocketFile U) (from_str : String → Result String ConfigFields)
    (ldk_default : UserConfig) (push : String → String → String) (home : String) where
  abbrev run_main : Run S B K L → D.State → U.State → Exit × (D.State × U.State) × S.State
  run_main = main S F B K D G L U from_str ldk_default push home

  abbrev run_serve : Run S B K L → Built B K L → U.State → Exit × U.State × S.State
  run_serve = serve S F B K D G L U from_str ldk_default push home

  -- An exit before the socket is bound.
  abbrev IsEarly : Exit → Type 0
  IsEarly x = (x ≢ waiting) × (x ≢ exited (ok tt)) × (x ≢ exited (err node_task_panicked))

  read_config-eq-err :
      (config_text : Result IoError String) (e : MainError)
      → read_config S F B K D G L U from_str ldk_default push home config_text ≡ err e
      → e ≢ node_task_panicked
  unfolding read_config
  read_config-eq-err (err x) e h = ground (arith, h)
  read_config-eq-err (ok text) e h = elim (Result-cases (from_str text)) [
    | inr (x, failed) ↦ ground (arith, h, failed)
    | inl (fields, parsed) ↦ elim (Result-cases (deserialize fields)) [
      | inr (x, failed) ↦ ground (arith, h, parsed, failed)
      | inl (conf, read) ↦ absurd (ground (arith, h, parsed, read))
    ]
  ]

  -- The node that a run builds from its configuration.
  abbrev pub Builds : Run S B K L → D.State → Built B K L → Type 0
  Builds run d node =
      (conf : Config) × (read_config S F B K D G L U from_str ldk_default push home run.config_text
        ≡ ok conf)
      × ((build S B K D G L (main_builder ldk_default push home conf) run.now run.found d).0
          ≡ returned (ok node))

  main-cases :
      (run : Run S B K L) (d : D.State) (u : U.State)
      → (IsEarly (run_main run d u).0 × ((run_main run d u).1.1 ≡ u))
        ⊎ ((node : Built B K L) × Builds run d node
            × ((run_main run d u).0 ≡ (run_serve run node u).0)
            × ((run_main run d u).1.1 ≡ (run_serve run node u).1)
            × ((run_main run d u).2 ≡ (run_serve run node u).2))
  unfolding main
  main-cases run d u =
      elim (Result-cases
        (read_config S F B K D G L U from_str ldk_default push home run.config_text)) [
          | inr (e, failed) ↦
              inl (ground (arith, failed, read_config-eq-err run.config_text e failed))
          | inl (conf, read) ↦
              elim (Outcome-cases
                (build S B K D G L (main_builder ldk_default push home conf) run.now run.found
                  d).0) [
                    | inr crash ↦ inl (ground (arith, read, crash))
                    | inl (err e, failed) ↦ inl (ground (arith, read, failed))
                    | inl (ok node, made) ↦ inr (
                      node,
                      (conf, read, made),
                      ground (arith, read, made),
                      ground (arith, read, made),
                      ground (arith, read, made),
                    )
                  ]
        ]

  serve_taken :
      (run : Run S B K L) (node : Built B K L) (u : U.State)
      → U.exists u ≡ true
      → run_serve run node u ≡ (crashed, u, run.store)
  unfolding serve new_server
  serve_taken run node u there = let (e, taken) = V.bind_taken u there in ground (arith, taken)

  abbrev starts : Run S B K L → Built B K L → Bool → Start
  starts run node cancelled =
      (node_start S F B K D G L U from_str ldk_default push home run node cancelled).0

  serve-eq-err :
      (run : Run S B K L) (node : Built B K L) (u : U.State) (e : MainError)
      → (run_serve run node u).0 ≡ exited (err e)
      → U.exists (run_serve run node u).1 ≡ true
  unfolding serve new_server
  serve-eq-err run node u e h = elim (Result-cases (U.bind u).0) [
    | inr (x, failed) ↦ absurd (ground (arith, h, failed))
    | inl (_, bound) ↦
        let same =
          await_signal-eq-err U V run.signal (starts run node) (U.bind u).1 (run_serve run node u).1
            e (ground (arith, h, bound)) in
        rw same (V.bind_makes u bound)
  ]

  -- The store is the one that the node's task leaves.
  serve-eq-ok :
      (run : Run S B K L) (node : Built B K L) (u : U.State)
      → (run_serve run node u).0 ≡ exited (ok tt)
      → (starts run node (shutdown run.signal) ≡ ends (returned (ok tt)))
        × (U.exists (run_serve run node u).1 ≡ false)
        × ((run_serve run node u).2
            ≡ (node_start S F B K D G L U from_str ldk_default push home run node
                (shutdown run.signal)).1.0)
  unfolding serve new_server
  serve-eq-ok run node u h = elim (Result-cases (U.bind u).0) [
    | inr (x, failed) ↦ absurd (ground (arith, h, failed))
    | inl (_, bound) ↦
        let (well, gone) =
          await_signal-eq-ok U V run.signal (starts run node) (U.bind u).1 (run_serve run node u).1
            (ground (arith, h, bound)) in
        (well, gone, ground (arith, bound))
  ]

  -- Several runs, one after the other.
  abbrev pub main_all : List (Run S B K L) → D.State → U.State → D.State × U.State
  main_all [] d u = (d, u)
  main_all (run ∷ more) d u = let (_, (d', u'), _) = run_main run d u in main_all more d' u'

  main_taken :
      (run : Run S B K L) (d : D.State) (u : U.State)
      → U.exists u ≡ true
      → ((run_main run d u).0 ≢ waiting)
        × ((run_main run d u).0 ≢ exited (ok tt))
        × (U.exists (run_main run d u).1.1 ≡ true)
  main_taken run d u there = elim (main-cases run d u) [
    | inl ((a, b, c), same) ↦ (a, b, rw same there)
    | inr (node, _, exit, same, _) ↦
        let taken = serve_taken run node u there in ground (arith, exit, same, taken, there)
  ]

  main_all_taken :
      (later : List (Run S B K L)) (d : D.State) (u : U.State)
      → U.exists u ≡ true
      → U.exists (main_all later d u).1 ≡ true
  main_all_taken [] d u there = there
  main_all_taken (run ∷ later) d u there = main_all_taken later _ _ (main_taken run d u there).2

  -- If the socket's file behaves as documented: after a run that ends because the node's task
  -- panicked, no later run waits for its signal or succeeds, however many runs were made in
  -- between: the file of the socket is still there after each.
  pub main_blocked :
      (run last : Run S B K L) (later : List (Run S B K L)) (d : D.State) (u : U.State)
      → (run_main run d u).0 ≡ exited (err node_task_panicked)
      → let (d', u') = main_all later (run_main run d u).1.0 (run_main run d u).1.1 in
        ((run_main last d' u').0 ≢ waiting)
        × ((run_main last d' u').0 ≢ exited (ok tt))
        × (U.exists (run_main last d' u').1.1 ≡ true)
  main_blocked run last later d u h = elim (main-cases run d u) [
    | inl ((a, b, c), same) ↦ absurd (c h)
    | inr (node, _, exit, same, _) ↦
        let there : U.exists (run_main run d u).1.1 ≡ true =
          rw same (serve-eq-err run node u node_task_panicked (cc (exit, h))) in
        let all = main_all_taken later (run_main run d u).1.0 (run_main run d u).1.1 there in
        main_taken last _ _ all
  ]

  -- If the socket's file behaves as documented: a run of the binary that succeeds was interrupted
  -- by the signal, found no socket and leaves none; it has built a node from its configuration, and
  -- brought that node's channel manager and every monitor to one chain tip; and the store that it
  -- leaves has the peers that were connected to that node at the end added.
  pub main-eq-ok :
      (run : Run S B K L) (d : D.State) (u : U.State)
      → (run_main run d u).0 ≡ exited (ok tt)
      → (run.signal ≡ interrupted)
        × (U.exists u ≡ false)
        × (U.exists (run_main run d u).1.1 ≡ false)
        × ((node : Built B K L) × Builds run d node
            × IsSynchronized (run.parts node)
            × ((run_main run d u).2
                ≡ save_peers S F ((run.parts node).list_peers (run.peers node)) run.store))
  main-eq-ok run d u h = elim (main-cases run d u) [
    | inl ((a, b, c), same) ↦ absurd (b h)
    | inr (node, builds, exit, same, store) ↦
        let (well, gone, kept) = serve-eq-ok run node u (cc (exit, h)) in
        elim (start-cases (run.parts node) S F (shutdown run.signal) run.background run.store
          (run.peers node)) [
            | inr (bad, _) ↦ absurd (bad well)
            | inl (_, tip, told, _, after) ↦ elim (Bool-cases (U.exists u)) [
              | inl there ↦ absurd ((main_taken run d u there).1 h)
              | inr free ↦ (
                shutdown-eq-true run.signal told,
                free,
                rw same gone,
                (node, builds, tip, store ∙ kept ∙ ap (λ s. s.0) after),
              )
            ]
          ]
  ]
