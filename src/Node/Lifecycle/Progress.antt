-- ===== src/Node/Lifecycle/Progress.antt =====
-- What becomes of one stored payment over the steps of the node.
use ln_node.Prelude.{
  Option, ◌≡◌, ◌≢◌, refl, ℕ, Bool, ok, Bool-cases, inl, inr, ◌==◌, nat_eq, list_eq, arith,
}
use ln_node.Kv.{Bytes, KvStore, IsLawful}
use ln_node.Storage.{PaymentId, Payment, PeerInfo, pending}
use ln_node.Storage.Codec.{Formats, IsFaithful}
use ln_node.Storage.Store.{get_payment, add_payment, add_peer}
use ln_node.Storage.Store.Payments.{get_payment-add_payment}
use ln_node.Ldk.{ChannelManager}
use ln_node.Wallet.{BdkWallet}
use ln_node.World.{World}
use ln_node.Node.Payments.{sent_payment, expected_payment}
use ln_node.Node.Lifecycle.{Steps, here, elsewhere, handles, pays, makes, saves_peers, IsValid}
use ln_node.Node.Lifecycle.Writes.{
  Updates, node_store-event_cases, node_store-pay_cases, node_store-make_cases,
}
use ln_node.Node.Lifecycle.Invariant.{Steps-IsValid, get_payment-save_peers}

-- The same payment, not before: what it was made with is the same, and it is pending only if it was.
pub record IsLater (p q : Payment) : Type 0 where
  pub same_id : q.payment_id ≡ p.payment_id
  pub same_hash : q.payment_hash ≡ p.payment_hash
  pub same_direction : q.direction ≡ p.direction
  pub same_amount : q.amount_msat ≡ p.amount_msat
  pub over : q.status ≡ pending → p.status ≡ pending

IsLater-refl : (p : Payment) → IsLater p p
IsLater-refl p = record {
  same_id = refl;
  same_hash = refl;
  same_direction = refl;
  same_amount = refl;
  over = λ h. h;
}

IsLater-trans : (p q r : Payment) → IsLater p q → IsLater q r → IsLater p r
IsLater-trans p q r f g = record {
  same_id = cc (f.same_id, g.same_id);
  same_hash = cc (f.same_hash, g.same_hash);
  same_direction = cc (f.same_direction, g.same_direction);
  same_amount = cc (f.same_amount, g.same_amount);
  over = λ h. f.over (g.over h);
}

module _ (S : KvStore) (F : Formats) (M : ChannelManager) (B : BdkWallet) (info : Bool)
    (bump : Bytes → B.State → Option B.State) (minimum : ℕ) where
  -- In no step is a payment sent or an invoice made under the id.
  abbrev pub Spares : PaymentId → {v w : World S M B} → Steps S F M B info bump minimum v w → Type 0
  Spares id here = Unit
  Spares id (elsewhere st w' e) = Spares id st
  Spares id (handles st e r w' h) = Spares id st
  Spares id (pays st invoice amount_msat between more) =
      Spares id st × (Spares id more × (M.payment_hash invoice ≢ id))
  Spares id (makes {w} st amount_msat between more) =
      Spares id st
      × (Spares id more
          × ((invoice : M.Bolt11Invoice)
              → (M.create_bolt11_invoice amount_msat w.channel_manager).0 ≡ ok invoice
              → M.payment_hash invoice ≢ id))
  Spares id (saves_peers st connected) = Spares id st

  module _ (L : IsLawful S) (W : IsFaithful F)
      (writes : (p : Payment) (s : S.State) → (add_payment S F p s).0 ≡ ok tt)
      (writes_peer : (p : PeerInfo) (s : S.State) → (add_peer S F p s).0 ≡ ok tt) where
    -- What the store has under the id now is a later form of the payment.
    abbrev pub Has : PaymentId → Payment → S.State → Type 0
    Has id p s = (q : Payment) × ((get_payment S F id s ≡ ok q) × IsLater p q)

    -- A write under another id.
    add_payment-Has :
        (id : PaymentId) (p fresh : Payment) (s : S.State)
        → fresh.payment_id ≢ id
        → Has id p s
        → Has id p (add_payment S F fresh s).1
    add_payment-Has id p fresh s other (q, (found, later)) =
        elim (Bool-cases (fresh.payment_id == id)) [
          | inl same ↦ absurd (other ((list_eq.beq_iff fresh.payment_id id).0 same))
          | inr differ ↦ (
            q,
            (
              ground (
                arith,
                get_payment-add_payment S F L W fresh id s (writes fresh s),
                differ,
                found,
              ),
              later,
            ),
          )
        ]

    -- An update of the payment makes a later form of it.
    Updates-IsLater :
        (p : Payment) (s t : S.State) (u : Updates S F M B info bump minimum s t)
        → IsLater p u.old
        → IsLater p u.fresh
    Updates-IsLater p s t u later = record {
      same_id = cc (u.same_id, later.same_id);
      same_hash = cc (u.same_hash, later.same_hash);
      same_direction = cc (u.same_direction, later.same_direction);
      same_amount = cc (u.same_amount, later.same_amount);
      over = λ h. elim u.ended [ inl f ↦ absurd (cc (h, f)) | inr (g, _) ↦ absurd (cc (h, g)) ];
    }

    -- The update of an event.
    event-Has :
        (id : PaymentId) (p : Payment) (s t : S.State)
        → IsValid S F M B info bump minimum s
        → Updates S F M B info bump minimum s t
        → Has id p s
        → Has id p t
    event-Has id p s t valid u (q, (found, later)) = elim (Bool-cases (u.fresh.payment_id == id)) [
      | inl same ↦
          let e : u.fresh.payment_id ≡ id = (list_eq.beq_iff u.fresh.payment_id id).0 same in
          let at : u.at_id ≡ id = cc ((valid u.at_id u.old u.found).keyed, u.same_id, e) in
          let there : get_payment S F id s ≡ ok u.old = rw (← at) u.found in
          let old : q ≡ u.old = cc (found, there) in
          (
            u.fresh,
            (
              rw u.written (
                  ground
                    (arith, get_payment-add_payment S F L W u.fresh id s (writes u.fresh s), same)),
              Updates-IsLater p s t u (rw (← old) later),
            ),
          )
      | inr differ ↦ rw u.written (
          add_payment-Has id p u.fresh s
            (λ e. cc (differ, (list_eq.beq_iff u.fresh.payment_id id).1 e)) (q, (found, later)))
    ]

    -- Over a lawful store whose writes succeed and faithful formats, from sound stored payments:
    -- if in no step a payment is sent or an invoice made under its id, a stored payment stays
    -- stored with its hash, its direction and its amount, whatever events and other operations are
    -- interleaved, and once it is not pending it never is again.
    pub Steps-IsLater :
        {v w : World S M B} (id : PaymentId) (p : Payment)
        (st : Steps S F M B info bump minimum v w)
        → Spares id st
        → IsValid S F M B info bump minimum v.node_store
        → get_payment S F id v.node_store ≡ ok p
        → Has id p w.node_store
    Steps-IsLater id p here spares valid found = (p, (found, IsLater-refl p))
    Steps-IsLater id p (elsewhere st w' e) spares valid found =
        rw e (Steps-IsLater id p st spares valid found)
    Steps-IsLater id p (handles {w} st e r w' h) spares valid found =
        let has = Steps-IsLater id p st spares valid found in
        elim (node_store-event_cases S F M B info bump minimum e w w' r h) [
          | inl same ↦ rw same has
          | inr u ↦
              event-Has id p w.node_store w'.node_store
                (Steps-IsValid S F M B info bump minimum L W writes writes_peer st valid) u has
        ]
    Steps-IsLater id p (pays {w} st invoice amount_msat between more) (spares, (spared, other))
          valid found =
        let (q, (stored, later)) = Steps-IsLater id p st spares valid found in
        elim (node_store-pay_cases S F M B invoice amount_msat w between) [
          | inl same ↦ rw same (q, (stored, later))
          | inr (amount, e) ↦
              let valid' =
                Steps-IsValid S F M B info bump minimum L W writes writes_peer st valid in
              let (r, (stored', later')) = Steps-IsLater id q more spared valid' stored in
              rw e (
                add_payment-Has id p (sent_payment (M.payment_hash invoice) amount)
                  between.node_store other (r, (stored', IsLater-trans p q r later later')))
        ]
    Steps-IsLater id p (makes {w} st amount_msat between more) (spares, (spared, other)) valid
          found =
        let (q, (stored, later)) = Steps-IsLater id p st spares valid found in
        elim (node_store-make_cases S F M B amount_msat w between) [
          | inl same ↦ rw same (q, (stored, later))
          | inr (invoice, made, e) ↦
              let valid' =
                Steps-IsValid S F M B info bump minimum L W writes writes_peer st valid in
              let (r, (stored', later')) = Steps-IsLater id q more spared valid' stored in
              rw e (
                add_payment-Has id p (expected_payment (M.payment_hash invoice) amount_msat)
                  between.node_store (other invoice made)
                  (r, (stored', IsLater-trans p q r later later')))
        ]
    Steps-IsLater id p (saves_peers {w} st connected) spares valid found =
        let (q, (stored, later)) = Steps-IsLater id p st spares valid found in
        (
          q,
          (
            ground (
              arith,
              stored,
              get_payment-save_peers S F M B info bump minimum L W writes writes_peer connected id
                  w.node_store,
            ),
            later,
          ),
        )
