-- ===== src/Storage/Store/Payments.antt =====
-- Payments by id: what `get_payment` finds after each method that writes.
use ln_node.Prelude.{
  ◌≡◌, ◌≢◌, ◌↔◌, sym, ◌∙◌, false, ok, >>=-eq-ok, ◌==◌, nat_eq, string_eq, list_eq, arith,
  Bool-cases, eq-injective, inl, inr, if◌then◌else◌,
}
use ln_node.Kv.{KvStore, Bytes, IsLawful}
use ln_node.Storage.{PaymentId, PublicKey, Payment, PeerInfo}
use ln_node.Storage.Codec.{Formats, IsFaithful, read-encode_payment}
use ln_node.Storage.Store.{get_payment, add_payment, remove_payment, add_peer, remove_peer}

module _ (S : KvStore) (F : Formats) (L : IsLawful S) (W : IsFaithful F) where
  -- Keys are equal exactly when the ids are.
  pub hex_eq : (a b : Bytes) → (F.hex_encode a == F.hex_encode b) ≡ (a == b)
  hex_eq = eq-injective F.hex_encode W.hex_encode-injective

  -- Over a lawful store and faithful formats, after a payment was stored with success its id finds
  -- it, whole, and every other id finds what it did before.
  pub get_payment-add_payment :
      (p : Payment) (id : PaymentId) (s : S.State)
      → (add_payment S F p s).0 ≡ ok tt
      → get_payment S F id (add_payment S F p s).1
        ≡ (if p.payment_id == id then ok p else get_payment S F id s)
  unfolding get_payment add_payment
  get_payment-add_payment p id s h =
      rw (L.read-write s _ _ _ _ h) (rw hex_eq (ground (arith, read-encode_payment F W p)))

  get_payment-remove_payment_self :
      (gone : PaymentId) (p : Payment) (s : S.State)
      → (remove_payment S F gone s).0 ≡ ok tt
      → get_payment S F gone (remove_payment S F gone s).1 ≢ ok p
  unfolding get_payment remove_payment
  get_payment-remove_payment_self gone p s h e = L.read-remove_self s _ _ _ _ h (>>=-eq-ok _ _ e).1

  -- Over a lawful store and faithful formats, after a payment was removed with success exactly the
  -- other payments are found that were found before.
  pub get_payment-remove_payment :
      (gone id : PaymentId) (p : Payment) (s : S.State)
      → (remove_payment S F gone s).0 ≡ ok tt
      → (get_payment S F id (remove_payment S F gone s).1 ≡ ok p)
        ↔ (((gone == id) ≡ false) × (get_payment S F id s ≡ ok p))
  unfolding get_payment remove_payment
  get_payment-remove_payment gone id p s h = (
    λ found. elim (Bool-cases (gone == id)) [
      | inl same ↦
          let e : gone ≡ id = (list_eq.beq_iff gone id).0 same in
          absurd (get_payment-remove_payment_self gone p s h (rw (← e) at found))
      | inr differ ↦ (differ, sym (others differ) ∙ found)
    ],
    λ found. others found.0 ∙ found.1,
  )
    where
      others :
          (gone == id) ≡ false
          → get_payment S F id (remove_payment S F gone s).1 ≡ get_payment S F id s
      others differ = rw (
          L.read-remove s _ _ (F.hex_encode gone) _ h "payments" "" (F.hex_encode id)
            (λ same. cc (hex_eq gone id, same)))

  pub get_payment-add_peer :
      (peer : PeerInfo) (id : PaymentId) (s : S.State)
      → (add_peer S F peer s).0 ≡ ok tt
      → get_payment S F id (add_peer S F peer s).1 ≡ get_payment S F id s
  unfolding get_payment add_peer
  get_payment-add_peer peer id s h = rw (L.read-write s _ _ _ _ h)

  pub get_payment-remove_peer :
      (gone : PublicKey) (id : PaymentId) (s : S.State)
      → (remove_peer S F gone s).0 ≡ ok tt
      → get_payment S F id (remove_peer S F gone s).1 ≡ get_payment S F id s
  unfolding get_payment remove_peer
  get_payment-remove_peer gone id s h = rw (
      L.read-remove s _ _ (F.hex_encode gone) _ h "payments" "" (F.hex_encode id) (λ same. cc same))

  -- Over a lawful store, writing or removing a peer with success changes no payment.
  pub peers_keep_payments :
      (peer : PeerInfo) (gone : PublicKey) (id : PaymentId) (s : S.State)
      → (add_peer S F peer s).0 ≡ ok tt
      → (remove_peer S F gone s).0 ≡ ok tt
      → (get_payment S F id (add_peer S F peer s).1 ≡ get_payment S F id s)
        × (get_payment S F id (remove_peer S F gone s).1 ≡ get_payment S F id s)
  peers_keep_payments peer gone id s h g =
      (get_payment-add_peer peer id s h, get_payment-remove_peer gone id s g)
