-- ===== src/Node/Background.antt =====
-- The task of `Node::start` in src/node.rs that processes LDK's events: LDK hands each event to the
-- closure over `handle_event`, and between two events the other tasks run.
pub mod Lives
use ln_node.Prelude.{
  Option, ℕ, Bool, String, List, [], ◌∷◌, Result, ok, err, Outcome, returned, panicked,
}
use ln_node.Kv.{Bytes, KvStore}
use ln_node.Storage.Codec.{Formats}
use ln_node.Ldk.{ChannelManager}
use ln_node.Wallet.{BdkWallet}
use ln_node.World.{World}
use ln_node.Events.{Event, handle_event}
use ln_node.Node.Start.{Background, ended, runs}

module _ (S : KvStore) (F : Formats) (M : ChannelManager) (B : BdkWallet) (info : Bool)
    (bump : Bytes → B.State → Option B.State) (minimum : ℕ) where
  -- LDK's next event, what the other tasks do before it, or an error of LDK's own, such as of the
  -- persister, with which its loop returns.
  pub data Turn : Type 0 where
    event : Event → Turn
    others : (World S M B → World S M B) → Turn
    fails : String → Turn

  -- Where the turns end, LDK's loop still runs (`ok`), or has returned its error. A panic of the
  -- handler ends the task.
  unfoldable pub process_events :
      List Turn → World S M B → Outcome (Result String (Unit {0}) × World S M B)
  process_events [] w = returned (ok tt, w)
  process_events (fails e ∷ more) w = returned (err e, w)
  process_events (others change ∷ more) w = process_events more (change w)
  process_events (event e ∷ more) w = elim (handle_event S F M B info bump minimum e w) [
    | panicked ↦ panicked
    | returned (replay, w') ↦ process_events more w'
  ]

  -- What the shutdown finds, from the turns before it, those until LDK sees the stop signal, and
  -- what LDK then returns, if it has not returned an error by then. With the task, the receiver of
  -- the signal is gone.
  unfoldable pub background :
      List Turn → List Turn → Result String (Unit {0}) → World S M B → Background
  unfolding process_events
  background before after result w = elim (process_events before w) [
    | panicked ↦ ended
    | returned (err e, w') ↦ ended
    | returned (ok _, w') ↦ elim (process_events after w') [
      | panicked ↦ runs panicked
      | returned (err e, w'') ↦ runs (returned (err e))
      | returned (ok _, w'') ↦ runs (returned result)
    ]
  ]
