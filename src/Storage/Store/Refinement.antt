-- ===== src/Storage/Store/Refinement.antt =====
-- The payments of `NodeStore` against their specification, a function from ids to payments.
use ln_node.Prelude.{
  ◌≡◌, refl, false, ◌∙◌, ap, fun_ext, Option, none, some, List, [], ◌∷◌, Result, ok, err, ok?,
  ok?-ext, ◌==◌, nat_eq, list_eq, Bool-cases, inl, inr, arith, if◌then◌else◌,
}
use ln_node.Kv.{KvStore, IsLawful, IoError}
use ln_node.Storage.{PaymentId, PublicKey, Payment, PeerInfo}
use ln_node.Storage.Codec.{Formats, IsFaithful}
use ln_node.Storage.Store.{
  bad_payment, get_payment, add_payment, update_payment, remove_payment, add_peer, remove_peer,
}
use ln_node.Storage.Store.Payments.{
  get_payment-add_payment, get_payment-remove_payment, get_payment-add_peer,
  get_payment-remove_peer,
}

-- A call of a method of the store that writes.
pub data Write : Type 0 where
  adds updates : Payment → Write
  removes : PaymentId → Write
  adds_peer : PeerInfo → Write
  removes_peer : PublicKey → Write

-- What the payments are to a client.
abbrev pub Payments : Type 0
Payments = PaymentId → Option Payment

abbrev pub put : PaymentId → Option Payment → Payments → Payments
put at_id p m id = if at_id == id then p else m id

abbrev pub specified : Write → Payments → Payments
specified (adds p) m = put p.payment_id (some p) m
specified (updates p) m = put p.payment_id (some p) m
specified (removes id) m = put id none m
specified (adds_peer _) m = m
specified (removes_peer _) m = m

abbrev pub specified_all : List Write → Payments → Payments
specified_all [] m = m
specified_all (c ∷ cs) m = specified_all cs (specified c m)

module _ (S : KvStore) (F : Formats) where
  abbrev pub performed : Write → S.State → Result IoError (Unit {0}) × S.State
  performed (adds p) s = add_payment S F p s
  performed (updates p) s = update_payment S F p s
  performed (removes id) s = remove_payment S F id s
  performed (adds_peer p) s = add_peer S F p s
  performed (removes_peer k) s = remove_peer S F k s

  abbrev pub performed_all : List Write → S.State → S.State
  performed_all [] s = s
  performed_all (c ∷ cs) s = performed_all cs (performed c s).1

  -- Every call succeeds.
  abbrev pub IsDone : List Write → S.State → Type 0
  IsDone [] s = Unit
  IsDone (c ∷ cs) s = ((performed c s).0 ≡ ok tt) × IsDone cs (performed c s).1

  -- What `get_payment` finds.
  abbrev pub payments : S.State → Payments
  payments s id = ok? (get_payment S F id s)

module _ (S : KvStore) (F : Formats) (L : IsLawful S) (W : IsFaithful F) where
  payments-add_payment :
      (p : Payment) (s : S.State)
      → (add_payment S F p s).0 ≡ ok tt
      → payments S F (add_payment S F p s).1 ≡ put p.payment_id (some p) (payments S F s)
  payments-add_payment p s h =
      fun_ext λ id. rw (get_payment-add_payment S F L W p id s h) (ground arith)

  payments-remove_payment :
      (gone : PaymentId) (s : S.State)
      → (remove_payment S F gone s).0 ≡ ok tt
      → payments S F (remove_payment S F gone s).1 ≡ put gone none (payments S F s)
  payments-remove_payment gone s h = fun_ext λ id. elim (Bool-cases (gone == id)) [
    | inl same ↦ rw same (
        ok?-ext _ (err bad_payment)
          (λ p found.
            let kept : (gone == id) ≡ false =
              ((get_payment-remove_payment S F L W gone id p s h).0 found).0 in
            cc (same, kept))
          (λ p e. cc e))
    | inr differ ↦ rw differ (
        ok?-ext _ (get_payment S F id s)
          (λ p found. ((get_payment-remove_payment S F L W gone id p s h).0 found).1)
          (λ p found. (get_payment-remove_payment S F L W gone id p s h).1 (differ, found)))
  ]

  payments-performed :
      (c : Write) (s : S.State)
      → (performed S F c s).0 ≡ ok tt
      → payments S F (performed S F c s).1 ≡ specified c (payments S F s)
  unfolding update_payment
  payments-performed (adds p) s h = payments-add_payment p s h
  payments-performed (updates p) s h = payments-add_payment p s h
  payments-performed (removes id) s h = payments-remove_payment id s h
  payments-performed (adds_peer p) s h =
      fun_ext λ id. ap ok? (get_payment-add_peer S F L W p id s h)
  payments-performed (removes_peer k) s h =
      fun_ext λ id. ap ok? (get_payment-remove_peer S F L W k id s h)

  -- Over a lawful store and faithful formats, any calls of the store's methods that all succeed
  -- change what `get_payment` finds as they change a function from ids to payments: adding and
  -- updating set it at the payment's id, removing clears it, and peers do not touch it.
  pub store_refines :
      (cs : List Write) (s : S.State)
      → IsDone S F cs s
      → payments S F (performed_all S F cs s) ≡ specified_all cs (payments S F s)
  store_refines [] s h = refl
  store_refines (c ∷ cs) s h =
      store_refines cs (performed S F c s).1 h.1
      ∙ ap (specified_all cs) (payments-performed c s h.0)
