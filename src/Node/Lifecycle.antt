-- ===== src/Node/Lifecycle.antt =====
-- The payments of the node over any interleaving of its operations, the events of LDK and the
-- tasks that leave the store alone.
pub mod Writes
pub mod Invariant
pub mod Progress
pub mod Settling
use ln_node.Prelude.{◌≡◌, ℕ, Bool, true, Option, none, List, Result}
use ln_node.Kv.{Bytes, KvStore}
use ln_node.Storage.{PaymentId, Payment, outbound, pending, succeeded}
use ln_node.Storage.Codec.{Formats}
use ln_node.Ldk.{ChannelManager}
use ln_node.Wallet.{BdkWallet}
use ln_node.World.{World}
use ln_node.Prelude.{Outcome, returned, ok}
use ln_node.Events.{Event, ReplayEvent, is_some, handle_event}
use ln_node.Storage.Store.{get_payment}
use ln_node.Node.Payments.{pay_bolt11_invoice, create_bolt11_invoice, after_send, after_make}
use ln_node.Node.Peers.{PeerDetails, save_peers}

module _ (S : KvStore) (F : Formats) (M : ChannelManager) (B : BdkWallet) (info : Bool)
    (bump : Bytes → B.State → Option B.State) (minimum : ℕ) where
  -- `Steps v w`: the node can come from `v` to `w`. Between LDK's acceptance of a payment (or the
  -- making of an invoice) and the write of its record, the other tasks take any steps.
  pub data Steps : World S M B → World S M B → Type 0 where
    here : {v : World S M B} → Steps v v
    -- What LDK, the wallet, the fee task and the calls that do not write do.
    elsewhere :
        {v w : World S M B}
        → Steps v w
        → (w' : World S M B) → w'.node_store ≡ w.node_store
        → Steps v w'
    handles :
        {v w : World S M B}
        → Steps v w
        → (e : Event) (r : Result ReplayEvent (Unit {0})) (w' : World S M B)
        → handle_event S F M B info bump minimum e w ≡ returned (r, w')
        → Steps v w'
    pays :
        {v w : World S M B}
        → Steps v w
        → (invoice : M.Bolt11Invoice) (amount_msat : Option ℕ) (between : World S M B)
        → Steps (after_send S F M B invoice amount_msat w) between
        → Steps v (pay_bolt11_invoice S F M B invoice amount_msat (λ _. between) w).1
    makes :
        {v w : World S M B}
        → Steps v w
        → (amount_msat : Option ℕ) (between : World S M B)
        → Steps (after_make S F M B amount_msat w) between
        → Steps v (create_bolt11_invoice S F M B amount_msat (λ _. between) w).1
    saves_peers :
        {v w : World S M B}
        → Steps v w
        → (connected : List PeerDetails)
        → Steps v (record w { node_store = save_peers S F connected w.node_store })

  -- A record as the node makes it: it stands under its own id, which is the payment's hash; an
  -- outgoing one has its amount, a succeeded one its preimage, a pending one neither preimage nor fee.
  pub record IsSound (id : PaymentId) (p : Payment) : Type 0 where
    pub keyed : p.payment_id ≡ id
    pub hashed : p.payment_hash ≡ id
    pub sized : p.direction ≡ outbound → is_some p.amount_msat ≡ true
    pub proven : p.status ≡ succeeded → is_some p.payment_preimage ≡ true
    pub unproven : p.status ≡ pending → (p.payment_preimage ≡ none) × (p.fee_paid_msat ≡ none)

  abbrev pub IsValid : S.State → Type 0
  IsValid s = (id : PaymentId) (p : Payment) → get_payment S F id s ≡ ok p → IsSound id p
