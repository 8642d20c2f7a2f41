-- ===== src/Tests/Following.antt =====
-- The task that follows the chain, over the logs of the chain listener.
use ln_node.Prelude.{◌≢◌, ◌≡◌, refl, ℕ, List, [], ◌∷◌, ◌++◌, some, Option, true, false}
use ln_node.Chain.{Listened, listen, filtered_block_connected, blocks_disconnected}
use ln_node.Chain.Following.{
  Poll, NextBlock, next, no_more, polls, dead, sync_wallet, poll_loop, follow_chain,
}
use ln_node.Chain.Following.Progress.{follow_chain-listen, follow_chain_stops}
use ln_node.Tests.Chain.{logs, start, reorg, after_reorg}

-- The wallet takes every block of the emitter.
abbrev takes : ℕ → List ℕ → ℕ → ℕ → List ℕ → Option (List ℕ)
takes header txs height connected_to w = some (height ∷ w)

abbrev emitted : List (NextBlock logs ℕ)
emitted = next (record { header = 0; txs = []; height = 4; connected_to = 3 }) ∷ no_more ∷ []

abbrev quiet : Poll logs
quiet = record { events = []; succeeds = true }

abbrev news : Poll logs
news = record { events = reorg; succeeds = true }

abbrev refused : Poll logs
refused = record { events = []; succeeds = false }

follow_chain-listen_example :
    follow_chain logs takes emitted (quiet ∷ news ∷ []) start
    ≡ polls (record after_reorg { onchain_wallet = 6 ∷ 6 ∷ 5 ∷ 4 ∷ [] })
follow_chain-listen_example =
    follow_chain-listen logs takes emitted (quiet ∷ news ∷ []) start
      (record after_reorg { onchain_wallet = 6 ∷ 6 ∷ 5 ∷ 4 ∷ [] }) (4 ∷ [])
      (unfold sync_wallet in refl) (refl, (refl, tt))
      (unfold listen filtered_block_connected blocks_disconnected in refl)

follow_chain_stops_example :
    (follow_chain logs takes emitted ((quiet ∷ []) ++ refused ∷ news ∷ []) start
      ≡ follow_chain logs takes emitted ((quiet ∷ []) ++ refused ∷ []) start)
    × ((t : Listened logs)
        → follow_chain logs takes emitted ((quiet ∷ []) ++ refused ∷ news ∷ []) start ≢ polls t)
follow_chain_stops_example =
    follow_chain_stops logs takes emitted (quiet ∷ []) (news ∷ []) refused start refl

-- The run: the task is dead, and the blocks of the second poll are not heard.
dead_run :
    follow_chain logs takes emitted (refused ∷ news ∷ []) start
    ≡ dead (record start { onchain_wallet = 4 ∷ [] })
unfolding follow_chain sync_wallet poll_loop listen
dead_run = refl
