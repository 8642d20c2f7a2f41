-- ===== src/Chain/Following/Progress.antt =====
-- How far the node follows the chain.
use ln_node.Prelude.{
  ◌≢◌, ◌≡◌, refl, sym, ◌∙◌, List, [], ◌∷◌, ◌++◌, true, false, Option, ◌⊎◌, inl, inr, ℕ, Bool-cases,
  All, arith,
}
use ln_node.Chain.{
  Listeners, Listened, Told, told, poisoned, ChainEvent, connected, disconnected,
  filtered_block_connected, blocks_disconnected, listen,
}
use ln_node.Chain.Following.{
  Poll, polls, Synced, at_tip, underway, crashed, poll_loop, sync_wallet, follow_chain, all_events,
  NextBlock,
}

Synced-cases :
    {L : Listeners} (y : Synced L)
    → ((w : L.Wallet) × (y ≡ at_tip w))
      ⊎ (((w : L.Wallet) × (y ≡ underway w)) ⊎ ((w : L.Wallet) × (y ≡ crashed w)))
Synced-cases (at_tip w) = inl (w, refl)
Synced-cases (underway w) = inr (inl (w, refl))
Synced-cases (crashed w) = inr (inr (w, refl))

module _ (L : Listeners) where
  Told-cases :
      (t : Told L) → ((s : Listened L) × (t ≡ told s)) ⊎ ((s : Listened L) × (t ≡ poisoned s))
  Told-cases (told s) = inl (s, refl)
  Told-cases (poisoned s) = inr (s, refl)

  -- Hearing one list of events after another is hearing both.
  listen-append :
      (es fs : List (ChainEvent L)) (s t : Listened L)
      → listen L es s ≡ told t
      → listen L (es ++ fs) s ≡ listen L fs t
  unfolding listen
  listen-append [] fs s t h = ground arith
  listen-append (disconnected f ∷ es) fs s t h = listen-append es fs (blocks_disconnected L f s) t h
  listen-append (connected header txdata height ∷ es) fs s t h =
      elim (Told-cases (filtered_block_connected L header txdata height s)) [
        | inl (u, ok_so_far) ↦
            ground (arith, ok_so_far, listen-append es fs u t (ground (arith, h, ok_so_far)))
        | inr (u, bad) ↦ absurd (ground (arith, h, bad))
      ]

  listen-append_poisoned :
      (es fs : List (ChainEvent L)) (s t : Listened L)
      → listen L es s ≡ poisoned t
      → listen L (es ++ fs) s ≡ poisoned t
  unfolding listen
  listen-append_poisoned [] fs s t h = absurd (ground (arith, h))
  listen-append_poisoned (disconnected f ∷ es) fs s t h =
      listen-append_poisoned es fs (blocks_disconnected L f s) t h
  listen-append_poisoned (connected header txdata height ∷ es) fs s t h =
      elim (Told-cases (filtered_block_connected L header txdata height s)) [
        | inl (u, ok_so_far) ↦
            ground
              (arith, ok_so_far, listen-append_poisoned es fs u t (ground (arith, h, ok_so_far)))
        | inr (u, bad) ↦ ground (arith, h, bad)
      ]

  poll_loop-listen :
      (ps : List (Poll L)) (s t : Listened L)
      → All (λ p. p.succeeds ≡ true) ps
      → listen L (all_events ps) s ≡ told t
      → poll_loop L ps s ≡ polls t
  unfolding poll_loop
  poll_loop-listen [] s t good h = unfold listen in ground arith
  poll_loop-listen (p ∷ ps) s t (here, good) h = elim (Told-cases (listen L p.events s)) [
    | inl (u, heard) ↦ ground (
      arith,
      heard,
      here,
      poll_loop-listen ps u t good (sym (listen-append p.events (all_events ps) s u heard) ∙ h),
    )
    | inr (u, bad) ↦
        absurd (ground (arith, listen-append_poisoned p.events (all_events ps) s u bad, h))
  ]

  poll_loop_stops :
      (before after : List (Poll L)) (failing : Poll L) (s : Listened L)
      → failing.succeeds ≡ false
      → poll_loop L (before ++ failing ∷ after) s ≡ poll_loop L (before ++ failing ∷ []) s
  unfolding poll_loop
  poll_loop_stops [] after failing s h = elim (Told-cases (listen L failing.events s)) [
    | inr (u, bad) ↦ ground (arith, bad)
    | inl (u, heard) ↦ ground (arith, heard, h)
  ]
  poll_loop_stops (p ∷ before) after failing s h = elim (Told-cases (listen L p.events s)) [
    | inr (u, bad) ↦ ground (arith, bad)
    | inl (u, heard) ↦ elim (Bool-cases p.succeeds) [
      | inl good ↦ ground (arith, heard, good, poll_loop_stops before after failing u h)
      | inr stop ↦ ground (arith, heard, stop)
    ]
  ]

  poll_loop-ne-polls :
      (before after : List (Poll L)) (failing : Poll L) (s t : Listened L)
      → failing.succeeds ≡ false
      → poll_loop L (before ++ failing ∷ after) s ≢ polls t
  unfolding poll_loop
  poll_loop-ne-polls [] after failing s t h goes = elim (Told-cases (listen L failing.events s)) [
    | inr (u, bad) ↦ ground (arith, goes, bad)
    | inl (u, heard) ↦ ground (arith, goes, heard, h)
  ]
  poll_loop-ne-polls (p ∷ before) after failing s t h goes =
      elim (Told-cases (listen L p.events s)) [
        | inr (u, bad) ↦ ground (arith, goes, bad)
        | inl (u, heard) ↦ elim (Bool-cases p.succeeds) [
          | inl good ↦
              poll_loop-ne-polls before after failing u t h (ground (arith, goes, heard, good))
          | inr stop ↦ ground (arith, goes, heard, stop)
        ]
      ]

module _ (L : Listeners) {BlockId : Type 0}
    (apply_connected : L.Header
      → List L.Transaction
      → ℕ
      → BlockId
      → L.Wallet
      → Option L.Wallet) where
  -- Once the wallet has come to bitcoind's tip, and while every poll succeeds and the wallet
  -- refuses no block, the task goes on, and the listener has been told exactly the blocks of all
  -- polls, in order.
  pub follow_chain-listen :
      (blocks : List (NextBlock L BlockId)) (ps : List (Poll L)) (s t : Listened L) (w : L.Wallet)
      → sync_wallet L apply_connected blocks s.onchain_wallet ≡ at_tip w
      → All (λ p. p.succeeds ≡ true) ps
      → listen L (all_events ps) (record s { onchain_wallet = w }) ≡ told t
      → follow_chain L apply_connected blocks ps s ≡ polls t
  unfolding follow_chain
  follow_chain-listen blocks ps s t w synced good h =
      ground (arith, synced, poll_loop-listen L ps (record s { onchain_wallet = w }) t good h)

  -- A poll that fails, for whatever passing error of bitcoind, ends the task: it polls no more, and
  -- the polls after the failed one make no difference, so that the channel manager, the chain
  -- monitor and the wallet hear of no block any more.
  pub follow_chain_stops :
      (blocks : List (NextBlock L BlockId)) (before after : List (Poll L)) (failing : Poll L)
      (s : Listened L)
      → failing.succeeds ≡ false
      → (follow_chain L apply_connected blocks (before ++ failing ∷ after) s
          ≡ follow_chain L apply_connected blocks (before ++ failing ∷ []) s)
        × ((t : Listened L)
            → follow_chain L apply_connected blocks (before ++ failing ∷ after) s ≢ polls t)
  unfolding follow_chain
  follow_chain_stops blocks before after failing s h =
      elim (Synced-cases (sync_wallet L apply_connected blocks s.onchain_wallet)) [
        | inl (w, e) ↦
            let at : Listened L = record s { onchain_wallet = w } in
            (
              ground (arith, e, poll_loop_stops L before after failing at h),
              λ t goes. poll_loop-ne-polls L before after failing at t h (ground (arith, e, goes)),
            )
        | inr (inl (w, e)) ↦ (ground (arith, e), λ t goes. ground (arith, e, goes))
        | inr (inr (w, e)) ↦ (ground (arith, e), λ t goes. ground (arith, e, goes))
      ]
