-- ===== src/Node/Lifecycle/Settling.antt =====
-- The life of an outgoing payment, with any steps of the node between its stages.
use ln_node.Prelude.{
  Option, ◌≡◌, refl, ℕ, Bool, some, ok, returned, nat_eq, list_eq, eq_self, arith,
}
use ln_node.Kv.{Bytes, KvStore, IsLawful}
use ln_node.Storage.{PaymentPreimage, Payment, PeerInfo, outbound, succeeded}
use ln_node.Storage.Codec.{Formats, IsFaithful}
use ln_node.Storage.Store.{get_payment, add_payment, update_payment, add_peer}
use ln_node.Ldk.{ChannelManager}
use ln_node.Wallet.{BdkWallet}
use ln_node.World.{World}
use ln_node.Events.{payment_sent, handle_event}
use ln_node.Events.Payments.{settled, payment_sent-settled}
use ln_node.Node.Payments.{sent_payment}
use ln_node.Node.Lifecycle.{Steps, handles, IsValid}
use ln_node.Node.Lifecycle.Invariant.{Steps-IsValid}
use ln_node.Node.Lifecycle.Progress.{Spares, Has, Steps-IsLater}

module _ (S : KvStore) (F : Formats) (M : ChannelManager) (B : BdkWallet) (info : Bool)
    (bump : Bytes → B.State → Option B.State) (minimum : ℕ) (L : IsLawful S) (W : IsFaithful F)
    (writes : (p : Payment) (s : S.State) → (add_payment S F p s).0 ≡ ok tt)
    (writes_peer : (p : PeerInfo) (s : S.State) → (add_peer S F p s).0 ≡ ok tt) where
  -- Over a lawful store whose writes succeed and faithful formats, from sound stored payments: an
  -- outgoing payment that is recorded and of which LDK reports the success after any steps that do
  -- not pay or make an invoice of the same hash is then stored as succeeded, with the preimage and
  -- the fee of the report and the amount that was recorded, and after any further such steps it is
  -- stored, and not pending.
  pub sent_payment-settles :
      (hash : Bytes) (amount fee : ℕ) (preimage : PaymentPreimage) (v w : World S M B)
      (st : Steps S F M B info bump minimum v w)
      → IsValid S F M B info bump minimum v.node_store
      → get_payment S F hash v.node_store ≡ ok (sent_payment hash amount)
      → Spares S F M B info bump minimum hash st
      → (w' : World S M B) × (q : Payment) × (handle_event S F M B info bump minimum
            (payment_sent (some hash) preimage hash (some fee))
            w
          ≡ returned (ok tt, w'))
        × (get_payment S F hash w'.node_store ≡ ok q)
        × (q.status ≡ succeeded)
        × (q.payment_preimage ≡ some preimage)
        × (q.fee_paid_msat ≡ some fee)
        × (q.amount_msat ≡ some amount)
        × (q.direction ≡ outbound)
        × ((w'' : World S M B) (more : Steps S F M B info bump minimum w' w'')
            → Spares S F M B info bump minimum hash more
            → Has S F M B info bump minimum L W writes writes_peer hash q w''.node_store)
  unfolding update_payment
  sent_payment-settles hash amount fee preimage v w st valid recorded spares =
      let (p, (found, later)) =
        Steps-IsLater S F M B info bump minimum L W writes writes_peer hash
          (sent_payment hash amount) st spares valid recorded in
      let q = settled p preimage (some fee) in
      let (w', done, stored) =
        payment_sent-settled S F M B info bump minimum L W hash preimage hash fee amount p w found
          later.same_amount (writes q w.node_store) in
      let here_now : get_payment S F hash w'.node_store ≡ ok q =
        ground (arith, stored hash, later.same_id, eq_self hash) in
      let valid' =
        Steps-IsValid S F M B info bump minimum L W writes writes_peer
          (handles st (payment_sent (some hash) preimage hash (some fee)) (ok tt) w' done) valid in
      (
        w',
        q,
        done,
        here_now,
        refl,
        refl,
        refl,
        later.same_amount,
        later.same_direction,
        λ w'' more spared.
            Steps-IsLater S F M B info bump minimum L W writes writes_peer hash q more spared valid'
              here_now,
      )
