-- ===== src/Node/Background/Lives.antt =====
-- The task for events lives as long as the node does.
use ln_node.Prelude.{
  Option, ◌≡◌, ◌≢◌, refl, ℕ, Bool, true, false, none, some, String, List, [], ◌∷◌, Result, ok,
  returned, inl, inr, Outcome-cases, arith,
}
use ln_node.Kv.{Bytes, KvStore, IsLawful}
use ln_node.Storage.{Payment, PeerInfo, outbound}
use ln_node.Storage.Codec.{Formats, IsFaithful}
use ln_node.Storage.Store.{get_payment, add_payment, add_peer}
use ln_node.Ldk.{ChannelManager}
use ln_node.Fees.{maximum_fee_estimate}
use ln_node.Fees.Cache.{get_est_sat_per_1000_weight}
use ln_node.Wallet.{BdkWallet}
use ln_node.World.{World}
use ln_node.Events.{Event, ReplayEvent, payment_sent, channel_pending, handle_event}
use ln_node.Events.Frame.{IsCurrent, IsSized, handle_event_lives}
use ln_node.Node.Lifecycle.{Steps, here, handles, IsValid}
use ln_node.Node.Lifecycle.Invariant.{Steps-IsValid}
use ln_node.Node.Start.{Parts, runs, ends, chain_tip, shut_down, start}
use ln_node.Node.Peers.{save_peers}
use ln_node.Node.Background.{Turn, event, others, fails, process_events, background}

module _ (S : KvStore) (F : Formats) (M : ChannelManager) (B : BdkWallet) (info : Bool)
    (bump : Bytes → B.State → Option B.State) (minimum : ℕ) where
  -- What LDK documents of `PaymentSent`: it is of an outgoing payment.
  abbrev pub IsOutgoing : Event → World S M B → Type 0
  IsOutgoing (payment_sent (some id) preimage hash fee) w =
      (p : Payment) → get_payment S F id w.node_store ≡ ok p → p.direction ≡ outbound
  IsOutgoing _ w = Unit

  abbrev pub HasFees : World S M B → Type 0
  HasFees w = get_est_sat_per_1000_weight w.fee_cache maximum_fee_estimate ≢ none

  -- What the handler needs not to panic: no task has panicked with the wallet's lock held, and the
  -- fee cache has the largest estimate.
  abbrev pub IsUsable : World S M B → Type 0
  IsUsable w = (w.wallet_poisoned ≡ false) × HasFees w

  outgoing-IsSized :
      (e : Event) (w : World S M B)
      → IsValid S F M B info bump minimum w.node_store
      → IsOutgoing e w
      → IsSized S F M B info bump minimum e w
  outgoing-IsSized (payment_sent (some id) preimage hash fee) w valid out =
      λ p stored. (valid id p stored).sized (out p stored)
  outgoing-IsSized (payment_sent none preimage hash fee) w valid out = tt
  outgoing-IsSized _ w valid out = tt

  fee_cache-handle_event :
      (e : Event) (w w' : World S M B) (r : Result ReplayEvent (Unit {0}))
      → handle_event S F M B info bump minimum e w ≡ returned (r, w')
      → w'.fee_cache ≡ w.fee_cache
  unfolding handle_event
  fee_cache-handle_event (channel_pending id) w w' r h = ground arith
  fee_cache-handle_event _ w w' r h = ground arith

  wallet_poisoned-handle_event :
      (e : Event) (w w' : World S M B) (r : Result ReplayEvent (Unit {0}))
      → handle_event S F M B info bump minimum e w ≡ returned (r, w')
      → w'.wallet_poisoned ≡ w.wallet_poisoned
  unfolding handle_event
  wallet_poisoned-handle_event (channel_pending id) w w' r h = ground arith
  wallet_poisoned-handle_event _ w w' r h = ground arith

  -- The events are of the current versions of LDK, the other tasks take the node's steps, do not
  -- poison the wallet's lock and keep the largest fee estimate, and LDK's loop does not end with an
  -- error.
  abbrev pub Orderly : List (Turn S F M B info bump minimum) → World S M B → Type 0
  Orderly [] w = Unit
  Orderly (others change ∷ more) w =
      Steps S F M B info bump minimum w (change w)
      × ((IsUsable w → IsUsable (change w)) × Orderly more (change w))
  Orderly (fails e ∷ more) w = ⊥
  Orderly (event e ∷ more) w =
      IsCurrent e
      × (IsOutgoing e w
          × ((r : Result ReplayEvent (Unit {0})) (w' : World S M B)
              → handle_event S F M B info bump minimum e w ≡ returned (r, w')
              → Orderly more w'))

  module _ (L : IsLawful S) (V : IsFaithful F)
      (writes : (p : Payment) (s : S.State) → (add_payment S F p s).0 ≡ ok tt)
      (writes_peer : (p : PeerInfo) (s : S.State) → (add_peer S F p s).0 ≡ ok tt) where
    usable :
        (e : Event) (w w' : World S M B) (r : Result ReplayEvent (Unit {0}))
        → handle_event S F M B info bump minimum e w ≡ returned (r, w')
        → IsUsable w
        → IsUsable w'
    usable e w w' r handled (sane, fees) = (
      rw (wallet_poisoned-handle_event e w w' r handled) sane,
      rw (fee_cache-handle_event e w w' r handled) fees,
    )

    abbrev Lively : World S M B → Type 0
    Lively w = IsValid S F M B info bump minimum w.node_store × IsUsable w

    -- Over a lawful store whose writes succeed and faithful formats: from sound stored payments, a
    -- wallet whose lock is not poisoned and a fee cache with the largest estimate, the task that
    -- processes orderly turns goes on after all of them, and all of that still holds.
    pub process_events-returns :
        (turns : List (Turn S F M B info bump minimum)) (w : World S M B)
        → IsValid S F M B info bump minimum w.node_store
        → IsUsable w
        → Orderly turns w
        → (w' : World S M B) × ((process_events S F M B info bump minimum turns w
              ≡ returned (ok tt, w'))
            × Lively w')
    unfolding process_events
    process_events-returns [] w valid fees orderly = (w, (refl, (valid, fees)))
    process_events-returns (others change ∷ more) w valid fees (st, (keeps, orderly)) =
        process_events-returns more (change w)
          (Steps-IsValid S F M B info bump minimum L V writes writes_peer st valid) (keeps fees)
          orderly
    process_events-returns (fails e ∷ more) w valid fees orderly = absurd orderly
    process_events-returns (event e ∷ more) w valid fees (current, (out, orderly)) =
        elim (Outcome-cases (handle_event S F M B info bump minimum e w)) [
          | inr panic ↦ absurd (
              handle_event_lives S F M B info bump minimum e w current
                (outgoing-IsSized e w valid out) fees.0 fees.1 panic)
          | inl ((r, w'), handled) ↦
              let next =
                process_events-returns more w'
                  (Steps-IsValid S F M B info bump minimum L V writes writes_peer
                    (handles here e r w' handled) valid)
                  (usable e w w' r handled fees) (orderly r w' handled) in
              rw (process_events, handled) next
        ]

    background-runs :
        (before after : List (Turn S F M B info bump minimum)) (result : Result String (Unit {0}))
        (w : World S M B)
        → IsValid S F M B info bump minimum w.node_store
        → IsUsable w
        → Orderly before w
        → ((w' : World S M B)
            → process_events S F M B info bump minimum before w ≡ returned (ok tt, w')
            → Orderly after w')
        → background S F M B info bump minimum before after result w ≡ runs (returned result)
    unfolding background
    background-runs before after result w valid fees orderly later =
        let (w', (lived, (valid', fees'))) = process_events-returns before w valid fees orderly in
        let (w'', (still, _)) = process_events-returns after w' valid' fees' (later w' lived) in
        rw (background, lived, still) refl

    -- Over a lawful store whose writes succeed and faithful formats: if the stored payments are
    -- sound, the wallet's lock is not poisoned, the fee cache has the largest estimate, the turns
    -- of the events' task before the shutdown and those until it stops are orderly (no LDK error
    -- among them, and no other task that poisons the lock or loses the estimate), and the tip was
    -- reached, then a `start` whose shutdown was signalled returns, with the connected peers stored
    -- and disconnected.
    pub start-background :
        (P : Parts) (tip : P.BlockHash) (before after : List (Turn S F M B info bump minimum))
        (result : Result String (Unit {0})) (w : World S M B) (store : S.State)
        (peers : P.PeerManager)
        → chain_tip P ≡ ok tip
        → IsValid S F M B info bump minimum w.node_store
        → IsUsable w
        → Orderly before w
        → ((w' : World S M B)
            → process_events S F M B info bump minimum before w ≡ returned (ok tt, w')
            → Orderly after w')
        → start P S F true
            (background S F M B info bump minimum before after result w)
            (store, peers)
          ≡ (
            ends (returned (ok tt)),
            (save_peers S F (P.list_peers peers) store, P.disconnect_all_peers peers),
          )
    unfolding start shut_down
    start-background P tip before after result w store peers found valid fees orderly later =
        rw (start, shut_down, found, background-runs before after result w valid fees orderly later)
          refl
