-- ===== src/Lnnode.antt =====
-- `main` of src/bin/lnnode.rs, with `UnixSocketServer::new` of src/server.rs and `Node::shutdown`: a
-- run of the binary up to its exit. The socket's file, serde and the signal are an interface.
pub mod Handler
pub mod Joining
pub mod Runs
use ln_node.Prelude.{
  ◌≡◌, String, Bool, true, false, List, [], ◌∷◌, Result, ok, err, ◌>>=◌, map_err, Outcome, returned,
  panicked,
}
use ln_node.Kv.{IoError, KvStore}
use ln_node.Storage.Codec.{Formats}
use ln_node.Config.{Config, UserConfig, ConfigFields, NodeBuilder, deserialize, main_builder}
use ln_node.Wallet.{BdkWallet}
use ln_node.Wallet.Startup.{Keys, Directory}
use ln_node.Wallet.Signing.{Signer}
use ln_node.Builder.{Ldk, Found, Now, BuildError, Built, build}
use ln_node.Node.Start.{Parts, Background, Start, waits, ends, Shared, start}

-- The file /tmp/ldk_node.sock.
pub record SocketFile : Type 1 where
  pub State : Type 0
  pub exists : State → Bool
  pub bind : State → Result IoError (Unit {0}) × State
  pub remove_file : State → Result IoError (Unit {0}) × State

-- What is relied on: a socket is bound only where there is no file, and makes one; a removal removes.
pub record IsSocketFile (U : SocketFile) : Type 0 where
  pub bind_taken : (u : U.State) → U.exists u ≡ true → (e : IoError) × (U.bind u ≡ (err e, u))
  pub bind_makes : (u : U.State) → (U.bind u).0 ≡ ok tt → U.exists (U.bind u).1 ≡ true
  pub remove_removes :
      (u : U.State) → (U.remove_file u).0 ≡ ok tt → U.exists (U.remove_file u).1 ≡ false

-- `signal::ctrl_c`: nothing yet, the signal, or an error.
pub data Signal : Type 0 where
  none_yet interrupted not_listening : Signal

pub data MainError : Type 0 where
  config_unreadable : IoError → MainError
  config_invalid : String → MainError
  not_built : BuildError → MainError
  node_task_panicked : MainError

-- How `main` stands: it waits, it has panicked, or it has returned.
pub data Exit : Type 0 where
  waiting crashed : Exit
  exited : Result MainError (Unit {0}) → Exit

-- The node's task: it goes on, or is joined, with an error where it panicked.
pub data Task : Type 0 where
  goes_on : Task
  joined : Result (Unit {0}) (Unit {0}) → Task

-- `running_node.start().await.unwrap()`
unfoldable pub node_task : Start → Task
node_task waits = goes_on
node_task (ends panicked) = joined (err tt)
node_task (ends (returned (err _))) = joined (err tt)
node_task (ends (returned (ok _))) = joined (ok tt)

-- `node.shutdown()` cancels the node's token, on the signal only.
unfoldable pub shutdown : Signal → Bool
shutdown interrupted = true
shutdown not_listening = false
shutdown none_yet = false

module _ (U : SocketFile) where
  -- `UnixSocketServer::new`
  unfoldable pub new_server : U.State → Result IoError (Unit {0}) × U.State
  new_server u = U.bind u

  -- What follows the joining of the node's task.
  unfoldable pub finish : Task → U.State → Exit × U.State
  finish goes_on u = (waiting, u)
  finish (joined (err _)) u = (exited (err node_task_panicked), u)
  finish (joined (ok _)) u =
      let (removed, u') = U.remove_file u in
      elim removed [ err _ ↦ (crashed, u') | ok _ ↦ (exited (ok tt), u') ]

  -- The wait for the signal, and then for the node.
  unfoldable pub await_signal : Signal → (Bool → Start) → U.State → Exit × U.State
  unfolding finish node_task shutdown
  await_signal none_yet runs u = (waiting, u)
  await_signal interrupted runs u = finish (node_task (runs (shutdown interrupted))) u
  await_signal not_listening runs u = finish (node_task (runs (shutdown not_listening))) u

-- What a run of the binary finds and meets. `parts`: LDK's objects in the node that was built, and
-- the chain as this run sees it; `store`, `peers`: as the run's tasks have left them up to the end of
-- the wait for the shutdown.
pub record Run (S : KvStore) (B : BdkWallet) (K : Keys) (L : Ldk) : Type 1 where
  pub config_text : Result IoError String
  pub now : Now
  pub found : Found S L
  pub parts : Built B K L → Parts
  pub signal : Signal
  pub background : Background
  pub store : S.State
  pub peers : (node : Built B K L) → (parts node).PeerManager

module _ (S : KvStore) (F : Formats) (B : BdkWallet) (K : Keys) (D : Directory B K) (G : Signer K)
    (L : Ldk) (U : SocketFile)
    -- serde_json's reading of a text.
    (from_str : String → Result String ConfigFields) (ldk_default : UserConfig)
    (push : String → String → String) (home : String) where
  unfoldable pub read_config : Result IoError String → Result MainError Config
  read_config config_text = do
    text ← map_err config_unreadable config_text
    fields ← map_err config_invalid (from_str text)
    map_err config_invalid (deserialize fields)

  -- The node's task, told of the shutdown or not.
  abbrev pub node_start :
      (run : Run S B K L) (node : Built B K L) → Bool → Start × Shared (run.parts node) S F
  node_start run node cancelled =
      start (run.parts node) S F cancelled run.background (run.store, run.peers node)

  -- From the binding of the socket, with the node that was built; also the store at the end.
  unfoldable pub serve : Run S B K L → Built B K L → U.State → Exit × U.State × S.State
  unfolding new_server await_signal
  serve run node u =
      let (server, u') = new_server U u in
      elim server [
        | err _ ↦ (crashed, u', run.store)
        | ok _ ↦
            let (exit, u'') =
              await_signal U run.signal (λ cancelled. (node_start run node cancelled).0) u' in
            (exit, u'', (node_start run node (shutdown run.signal)).1.0)
      ]

  -- Also what is left: the node's directory, the socket's file and the store.
  unfoldable pub main : Run S B K L → D.State → U.State → Exit × (D.State × U.State) × S.State
  unfolding read_config serve
  main run d u = elim (read_config run.config_text) [
    | err e ↦ (exited (err e), (d, u), run.store)
    | ok conf ↦
        let (built, d') =
          build S B K D G L (main_builder ldk_default push home conf) run.now run.found d in
        elim built [
          | panicked ↦ (crashed, (d', u), run.store)
          | returned (err e) ↦ (exited (err (not_built e)), (d', u), run.store)
          | returned (ok node) ↦ let (exit, u', store) = serve run node u in (exit, (d', u'), store)
        ]
  ]
