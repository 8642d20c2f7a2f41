-- ===== src/Node/Lifecycle/Invariant.antt =====
-- What holds of the stored payments after any steps.
use ln_node.Prelude.{
  Option, ◌≡◌, refl, ◌∙◌, ℕ, Bool, List, [], ◌∷◌, ok, Option-cases, Bool-cases, inl, inr, ◌==◌,
  nat_eq, list_eq, arith,
}
use ln_node.Kv.{Bytes, KvStore, IsLawful}
use ln_node.Storage.{PaymentId, Payment, PeerInfo}
use ln_node.Storage.Codec.{Formats, IsFaithful}
use ln_node.Storage.Store.{get_payment, add_payment, add_peer}
use ln_node.Storage.Store.Payments.{get_payment-add_payment, get_payment-add_peer}
use ln_node.Ldk.{ChannelManager}
use ln_node.Wallet.{BdkWallet}
use ln_node.World.{World}
use ln_node.Node.Payments.{sent_payment, expected_payment}
use ln_node.Node.Peers.{PeerDetails, peer_info, save_peers}
use ln_node.Node.Lifecycle.{
  Steps, here, elsewhere, handles, pays, makes, saves_peers, IsSound, IsValid,
}
use ln_node.Node.Lifecycle.Writes.{
  Updates, node_store-event_cases, node_store-pay_cases, node_store-make_cases,
}

module _ (S : KvStore) (F : Formats) (M : ChannelManager) (B : BdkWallet) (info : Bool)
    (bump : Bytes → B.State → Option B.State) (minimum : ℕ) (L : IsLawful S) (W : IsFaithful F)
    (writes : (p : Payment) (s : S.State) → (add_payment S F p s).0 ≡ ok tt)
    (writes_peer : (p : PeerInfo) (s : S.State) → (add_peer S F p s).0 ≡ ok tt) where
  abbrev Valid : S.State → Type 0
  Valid = IsValid S F M B info bump minimum

  abbrev Sound : PaymentId → Payment → Type 0
  Sound = IsSound S F M B info bump minimum

  add_payment-IsValid :
      (p : Payment) (s : S.State) → Sound p.payment_id p → Valid s → Valid (add_payment S F p s).1
  add_payment-IsValid p s sound valid id q found =
      let after = get_payment-add_payment S F L W p id s (writes p s) in
      elim (Bool-cases (p.payment_id == id)) [
        | inl same ↦
            let e : p.payment_id ≡ id = (list_eq.beq_iff p.payment_id id).0 same in
            let f : p ≡ q = ground (arith, after, same, found) in rw (← e) (rw (← f) sound)
        | inr differ ↦ valid id q (ground (arith, after, differ, found))
      ]

  event-IsSound :
      (s t : S.State)
      → Valid s
      → (u : Updates S F M B info bump minimum s t) → Sound u.fresh.payment_id u.fresh
  event-IsSound s t valid u = let old = valid u.at_id u.old u.found in ground (arith, old)

  pub get_payment-save_peers :
      (peers : List PeerDetails) (id : PaymentId) (s : S.State)
      → get_payment S F id (save_peers S F peers s) ≡ get_payment S F id s
  unfolding save_peers
  get_payment-save_peers [] id s = refl
  get_payment-save_peers (q ∷ peers) id s = elim (Option-cases q.socket_address) [
    | inl missing ↦ ground (arith, missing, get_payment-save_peers peers id s)
    | inr (a, there) ↦
        let info : PeerInfo = peer_info S F q.counterparty_node_id a in
        let next : S.State = (add_peer S F info s).1 in
        ground (
          arith,
          there,
          get_payment-save_peers peers id next,
          get_payment-add_peer S F L W info id s (writes_peer info s),
        )
  ]

  -- Over a lawful store whose writes succeed and faithful formats: if the stored payments are
  -- sound, they are after any steps of the node's operations, of LDK's events and of the other
  -- tasks, interleaved between LDK's acceptance of a payment and the write of its record.
  pub Steps-IsValid :
      {v w : World S M B}
      → Steps S F M B info bump minimum v w
      → Valid v.node_store
      → Valid w.node_store
  Steps-IsValid here valid = valid
  Steps-IsValid (elsewhere st w' e) valid = rw e (Steps-IsValid st valid)
  Steps-IsValid (handles {w} st e r w' h) valid =
      let before = Steps-IsValid st valid in
      elim (node_store-event_cases S F M B info bump minimum e w w' r h) [
        | inl same ↦ rw same before
        | inr u ↦ rw u.written (
            add_payment-IsValid u.fresh w.node_store
              (event-IsSound w.node_store w'.node_store before u) before)
      ]
  Steps-IsValid (pays {w} st invoice amount_msat between more) valid =
      let before = Steps-IsValid st valid in
      elim (node_store-pay_cases S F M B invoice amount_msat w between) [
        | inl same ↦ rw same before
        | inr (amount, e) ↦ rw e (
            add_payment-IsValid (sent_payment (M.payment_hash invoice) amount) between.node_store
              (ground arith) (Steps-IsValid more before))
      ]
  Steps-IsValid (makes {w} st amount_msat between more) valid =
      let before = Steps-IsValid st valid in
      elim (node_store-make_cases S F M B amount_msat w between) [
        | inl same ↦ rw same before
        | inr (invoice, _, e) ↦ rw e (
            add_payment-IsValid (expected_payment (M.payment_hash invoice) amount_msat)
              between.node_store (ground arith) (Steps-IsValid more before))
      ]
  Steps-IsValid (saves_peers {w} st connected) valid = λ id p found.
      Steps-IsValid st valid id p
        (ground (arith, get_payment-save_peers connected id w.node_store, found))

  -- A payment is found under the id.
  abbrev pub IsFound : PaymentId → S.State → Type 0
  IsFound id s = (p : Payment) × (get_payment S F id s ≡ ok p)

  add_payment-IsFound :
      (p : Payment) (id : PaymentId) (s : S.State)
      → IsFound id s
      → IsFound id (add_payment S F p s).1
  add_payment-IsFound p id s (q, found) =
      let after = get_payment-add_payment S F L W p id s (writes p s) in
      elim (Bool-cases (p.payment_id == id)) [
        | inl same ↦ (p, ground (arith, after, same))
        | inr differ ↦ (q, ground (arith, after, differ, found))
      ]

  -- Over a lawful store whose writes succeed and faithful formats: a payment that is stored stays
  -- stored under its id, whatever steps follow.
  pub Steps-IsFound :
      {v w : World S M B} (id : PaymentId)
      → Steps S F M B info bump minimum v w
      → IsFound id v.node_store
      → IsFound id w.node_store
  Steps-IsFound id here found = found
  Steps-IsFound id (elsewhere st w' e) found = rw e (Steps-IsFound id st found)
  Steps-IsFound id (handles {w} st e r w' h) found =
      let before = Steps-IsFound id st found in
      elim (node_store-event_cases S F M B info bump minimum e w w' r h) [
        | inl same ↦ rw same before
        | inr u ↦ rw u.written (add_payment-IsFound u.fresh id w.node_store before)
      ]
  Steps-IsFound id (pays {w} st invoice amount_msat between more) found =
      let before = Steps-IsFound id st found in
      elim (node_store-pay_cases S F M B invoice amount_msat w between) [
        | inl same ↦ rw same before
        | inr (amount, e) ↦ rw e (
            add_payment-IsFound (sent_payment (M.payment_hash invoice) amount) id between.node_store
              (Steps-IsFound id more before))
      ]
  Steps-IsFound id (makes {w} st amount_msat between more) found =
      let before = Steps-IsFound id st found in
      elim (node_store-make_cases S F M B amount_msat w between) [
        | inl same ↦ rw same before
        | inr (invoice, _, e) ↦ rw e (
            add_payment-IsFound (expected_payment (M.payment_hash invoice) amount_msat) id
              between.node_store (Steps-IsFound id more before))
      ]
  Steps-IsFound id (saves_peers {w} st connected) found =
      let (p, e) = Steps-IsFound id st found in
      (p, get_payment-save_peers connected id w.node_store ∙ e)
