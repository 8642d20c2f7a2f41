-- ===== src/Storage/Store/Listing.antt =====
-- The listings: which records they return, which errors they give, and how a key that another
-- thread removes between two lock acquisitions shows.
use mathlib.Core.List.{Mem, mem-cons_self, mem-cons_of_mem, mem-filter}
use ln_node.Prelude.{
  ◌≡◌, refl, ◌↔◌, ◌⊎◌, ℕ, zero, suc, ◌+◌, some, String, true, List, [], ◌∷◌, ok, err, ◌>>=◌,
  >>=-eq-ok, >>=-eq-err, Result-cases, ◌==◌, nat_eq, string_eq, list_eq, arith, eq_iff, Bool-cases,
  inl, inr, get_elem?, contains,
}
use ln_node.Kv.{KvStore, Bytes, IoError, IsLawful}
use ln_node.Storage.{PaymentStatus, Payment, PeerInfo, pending, succeeded, failed, same_status}
use ln_node.Storage.Codec.{Formats, IsFaithful, encode_payment, read-encode_payment, read_peer}
use ln_node.Storage.Store.{
  bad_payment, payment_at, peer_at, decode_payment, decode_peer, add_payment, read_payments,
  list_payments, with_status, list_payments_by_status, read_peers, list_peers,
}

same_status→eq : (a b : PaymentStatus) → same_status a b ≡ true → a ≡ b
same_status→eq pending b h = ground arith
same_status→eq succeeded b h = ground arith
same_status→eq failed b h = ground arith

same_status_self : (a : PaymentStatus) → same_status a a ≡ true
same_status_self pending = refl
same_status_self succeeded = refl
same_status_self failed = refl

module _ (S : KvStore) (F : Formats) where
  read_payments-cons :
      (at : ℕ → S.State) (i : ℕ) (key : String) (keys : List String) (bytes : Bytes) (p : Payment)
      (ps : List Payment)
      → payment_at S F (at i) key ≡ ok bytes
      → decode_payment S F bytes ≡ ok p
      → read_payments S F at i (key ∷ keys) ≡ ok ps
      → (rest : List Payment) × (read_payments S F at (suc i) keys ≡ ok rest) × (ps ≡ p ∷ rest)
  unfolding read_payments
  read_payments-cons at i key keys bytes p ps r d h = ground arith

  mem-read_payments :
      (s : S.State) (i : ℕ) (keys : List String) (key : String) (bytes : Bytes) (p : Payment)
      (ps : List Payment)
      → contains keys key ≡ true
      → payment_at S F s key ≡ ok bytes
      → decode_payment S F bytes ≡ ok p
      → read_payments S F (λ _. s) i keys ≡ ok ps
      → Mem p ps
  unfolding read_payments
  mem-read_payments s i [] key bytes p ps c r d h = cc c
  mem-read_payments s i (k ∷ keys) key bytes p ps c r d h = elim (Bool-cases (key == k)) [
    | inl same ↦
        let (rest, _, e) =
          read_payments-cons (λ _. s) i k keys bytes p ps (ground (arith, eq_iff key k)) d h in
        rw e mem-cons_self
    | inr differ ↦ elim (Result-cases (payment_at S F s k)) [
      | inl (b, found) ↦ elim (Result-cases (decode_payment S F b)) [
        | inl (q, read) ↦
            let (rest, more, e) = read_payments-cons (λ _. s) i k keys b q ps found read h in
            rw e (
              mem-cons_of_mem q
                (mem-read_payments s (suc i) keys key bytes p rest (ground arith) r d more))
        | inr (x, failure) ↦ absurd (ground arith)
      ]
      | inr (x, missing) ↦
          mem-read_payments s (suc i) keys key bytes p ps (ground arith) r d (ground arith)
    ]
  ]

  -- The only way for `read_payments` to fail is a record that does not decode.
  pub read_payments-eq-err :
      (at : ℕ → S.State) (i : ℕ) (keys : List String) (e : IoError)
      → read_payments S F at i keys ≡ err e
      → e ≡ bad_payment
  unfolding read_payments decode_payment
  read_payments-eq-err at i [] e h = cc h
  read_payments-eq-err at i (k ∷ keys) e h = ground (arith, read_payments-eq-err at (suc i) keys e)

module _ (S : KvStore) (F : Formats) where
  -- However other threads change the store meanwhile, `list_payments` fails only where the keys
  -- cannot be listed, or where a payment that it read does not decode: never for a key that has
  -- gone.
  pub list_payments-eq-err :
      (at : ℕ → S.State) (e : IoError)
      → list_payments S F at ≡ err e
      → (S.list (at 0) "payments" "" ≡ err e) ⊎ (e ≡ bad_payment)
  unfolding list_payments
  list_payments-eq-err at e h = elim (>>=-eq-err (S.list (at 0) "payments" "") _ h) [
    | inl failure ↦ inl failure
    | inr (keys, _, g) ↦ inr (read_payments-eq-err S F at 1 keys e g)
  ]

  -- A successful `read_peers` has read and decoded its first key.
  pub read_peers-cons :
      (at : ℕ → S.State) (i : ℕ) (key : String) (keys : List String) (peers : List PeerInfo)
      → read_peers S F at i (key ∷ keys) ≡ ok peers
      → (bytes : Bytes) × (peer : PeerInfo) × (rest : List PeerInfo) × (peer_at S F (at i) key
          ≡ ok bytes)
        × (decode_peer S F bytes ≡ ok peer)
        × (read_peers S F at (suc i) keys ≡ ok rest)
        × (peers ≡ peer ∷ rest)
  unfolding read_peers
  read_peers-cons at i key keys peers h = elim (Result-cases (peer_at S F (at i) key)) [
    | inl (bytes, found) ↦
        let read : (decode_peer S F bytes >>= λ peer.
        read_peers S F at (suc i) keys >>= λ rest. ok (peer ∷ rest))
            ≡ ok peers =
          ground arith in
        let (peer, decoded, more) = >>=-eq-ok (decode_peer S F bytes) _ read in
        let (rest, tail, e) = >>=-eq-ok (read_peers S F at (suc i) keys) _ more in
        (bytes, peer, rest, found, decoded, tail, cc e)
    | inr (x, missing) ↦ absurd (ground arith)
  ]

  read_peers-get_elem? :
      (at : ℕ → S.State) (i : ℕ) (keys : List String) (peers : List PeerInfo) (n : ℕ) (key : String)
      → read_peers S F at i keys ≡ ok peers
      → get_elem? keys n ≡ some key
      → (bytes : Bytes) × (peer : PeerInfo) × (peer_at S F (at (i + n)) key ≡ ok bytes)
        × (decode_peer S F bytes ≡ ok peer)
        × (get_elem? peers n ≡ some peer)
  read_peers-get_elem? at i [] peers n key h g = cc g
  read_peers-get_elem? at i (k ∷ keys) peers zero key h g =
      let (bytes, peer, rest, found, decoded, _, e) = read_peers-cons at i k keys peers h in
      let here : i + 0 ≡ i = omega arith in (bytes, peer, cc (found, here, g), decoded, rw e)
  read_peers-get_elem? at i (k ∷ keys) peers (suc n) key h g =
      let (_, _, rest, _, _, more, e) = read_peers-cons at i k keys peers h in
      let (bytes, peer, found, decoded, nth) =
        read_peers-get_elem? at (suc i) keys rest n key more g in
      let there : i + suc n ≡ suc i + n = omega arith in
      (bytes, peer, rw there found, decoded, rw e nth)

  -- `list_peers` succeeds only where every listed key could be read and decoded, and its n-th peer
  -- is what the n-th key held when it was read, at the lock's (n + 1)-th acquisition.
  pub list_peers_complete :
      (at : ℕ → S.State) (keys : List String) (peers : List PeerInfo) (n : ℕ) (key : String)
      → S.list (at 0) "peers" "" ≡ ok keys
      → list_peers S F at ≡ ok peers
      → get_elem? keys n ≡ some key
      → (bytes : Bytes) × (peer : PeerInfo) × (S.read (at (1 + n)) "peers" "" key ≡ ok bytes)
        × (read_peer F bytes ≡ ok peer)
        × (get_elem? peers n ≡ some peer)
  unfolding list_peers peer_at
  list_peers_complete at keys peers n key l h g =
      let (bytes, peer, found, decoded, nth) =
        read_peers-get_elem? at 1 keys peers n key (ground arith) g in
      (bytes, peer, found, unfold decode_peer in ground arith, nth)

  -- Where both listings see the same states and succeed, the payments of a status are the listed
  -- payments that have it.
  pub mem-list_payments_by_status :
      (at : ℕ → S.State) (status : PaymentStatus) (p : Payment) (all chosen : List Payment)
      → list_payments S F at ≡ ok all
      → list_payments_by_status S F status at ≡ ok chosen
      → Mem p chosen ↔ (Mem p all × (p.status ≡ status))
  unfolding list_payments_by_status with_status
  mem-list_payments_by_status at status p all chosen h k =
      let e : with_status status all ≡ chosen = ground arith in
      rw (← e) (
        (λ m. let (listed, same) = (mem-filter _).0 m in (listed, same_status→eq _ _ same)),
        (λ m. (mem-filter _).1 (m.0, rw m.1 (same_status_self status))),
      )

module _ (S : KvStore) (F : Formats) (L : IsLawful S) (W : IsFaithful F) where
  -- Over a lawful store and faithful formats, a payment that was stored with success is listed, if
  -- nobody interferes and the listing succeeds.
  pub mem-list_payments :
      (p : Payment) (s : S.State) (ps : List Payment)
      → (add_payment S F p s).0 ≡ ok tt
      → list_payments S F (λ _. (add_payment S F p s).1) ≡ ok ps
      → Mem p ps
  unfolding list_payments add_payment payment_at
  mem-list_payments p s ps h g =
      let s' : S.State = (add_payment S F p s).1 in
      let key : String = F.hex_encode p.payment_id in
      let stored : S.read s' "payments" "" key ≡ ok (encode_payment F p) =
        rw (L.read-write s _ _ _ _ h) (rw ((eq_iff key key).1 refl)) in
      let (keys, listed, read) = >>=-eq-ok (S.list s' "payments" "") _ g in
      mem-read_payments S F s' 1 keys key (encode_payment F p) p ps
        (L.contains-list s' _ _ key listed stored) stored
        (unfold decode_payment in rw (read-encode_payment F W p)) read
