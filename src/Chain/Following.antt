-- ===== src/Chain/Following.antt =====
-- The task of `Node::start` (src/node.rs) that first brings the bdk wallet to bitcoind's tip and then
-- polls for blocks. An error of bitcoind or of the wallet meets an `unwrap`, whose panic ends the
-- task. The client for the emitter, with its fixed address, is taken as made.
pub mod Progress
use ln_node.Prelude.{ℕ, List, [], ◌∷◌, ◌++◌, Bool, true, false, Option, none, some}
use ln_node.Chain.{Listeners, Listened, Told, told, poisoned, ChainEvent, listen}

-- A block from bdk's `Emitter`, with its height and the block it connects to.
pub record Emitted (L : Listeners) (BlockId : Type 0) : Type 0 where
  pub header : L.Header
  pub txs : List L.Transaction
  pub height : ℕ
  pub connected_to : BlockId

-- One `next_block`: an error, no more blocks, or a block.
pub data NextBlock (L : Listeners) (BlockId : Type 0) : Type 0 where
  emitter_error : NextBlock L BlockId
  no_more : NextBlock L BlockId
  next : Emitted L BlockId → NextBlock L BlockId

-- One `poll_best_tip`: the blocks that it tells the listener, and whether it then succeeds.
pub record Poll (L : Listeners) : Type 0 where
  pub events : List (ChainEvent L)
  pub succeeds : Bool

-- How the task stands: it polls, it is still syncing the wallet, it has panicked with the wallet's
-- lock held, or it has panicked without.
pub data Following (L : Listeners) : Type 0 where
  polls : Listened L → Following L
  syncs : L.Wallet → Following L
  dead_locked : Listened L → Following L
  dead : Listened L → Following L

-- The state of the wallet's loop.
pub data Synced (L : Listeners) : Type 0 where
  at_tip : L.Wallet → Synced L
  underway : L.Wallet → Synced L
  crashed : L.Wallet → Synced L

module _ (L : Listeners) where
  -- The `loop` around `poll_best_tip`.
  unfoldable pub poll_loop : List (Poll L) → Listened L → Following L
  poll_loop [] s = polls s
  poll_loop (p ∷ ps) s = elim (listen L p.events s) [
    | poisoned s' ↦ dead_locked s'
    | told s' ↦ elim p.succeeds [ true ↦ poll_loop ps s' | false ↦ dead s' ]
  ]

module _ (L : Listeners) {BlockId : Type 0}
    -- bdk's `apply_block_connected_to`; `none` where it gives an error.
    (apply_connected : L.Header
      → List L.Transaction
      → ℕ
      → BlockId
      → L.Wallet
      → Option L.Wallet) where
  -- The `while let`, under the wallet's lock.
  unfoldable pub sync_wallet : List (NextBlock L BlockId) → L.Wallet → Synced L
  sync_wallet [] w = underway w
  sync_wallet (emitter_error ∷ more) w = crashed w
  sync_wallet (no_more ∷ more) w = at_tip w
  sync_wallet (next b ∷ more) w = elim (apply_connected b.header b.txs b.height b.connected_to w) [
    | none ↦ crashed w
    | some w' ↦ sync_wallet more w'
  ]

  unfoldable pub follow_chain :
      List (NextBlock L BlockId) → List (Poll L) → Listened L → Following L
  unfolding sync_wallet poll_loop
  follow_chain blocks ps s = elim (sync_wallet blocks s.onchain_wallet) [
    | underway w ↦ syncs w
    | crashed w ↦ dead_locked (record s { onchain_wallet = w })
    | at_tip w ↦ poll_loop L ps (record s { onchain_wallet = w })
  ]

-- The blocks of all polls, in order.
abbrev pub all_events : {L : Listeners} → List (Poll L) → List (ChainEvent L)
all_events [] = []
all_events (p ∷ ps) = p.events ++ all_events ps
