-- ===== src/Storage/Store/Peers.antt =====
-- Peers by key: a stored peer is listed.
use ln_node.Prelude.{
  ◌≡◌, ℕ, suc, some, String, true, List, [], ◌∷◌, ok, >>=-eq-ok, Bool-cases, inl, inr, get_elem?,
  contains, ◌==◌, string_eq, eq_iff, arith,
}
use ln_node.Kv.{KvStore, Bytes, IsLawful}
use ln_node.Storage.{PeerInfo}
use ln_node.Storage.Codec.{Formats, IsFaithful, encode_peer, read-encode_peer}
use ln_node.Storage.Store.{list_peers, read_peers, peer_at, decode_peer}
use ln_node.Storage.Store.Listing.{read_peers-cons}

module _ (S : KvStore) (F : Formats) where
  get_elem?-read_peers :
      (s : S.State) (i : ℕ) (keys : List String) (key : String) (bytes : Bytes) (p : PeerInfo)
      (peers : List PeerInfo)
      → contains keys key ≡ true
      → peer_at S F s key ≡ ok bytes
      → decode_peer S F bytes ≡ ok p
      → read_peers S F (λ _. s) i keys ≡ ok peers
      → (n : ℕ) × (get_elem? peers n ≡ some p)
  get_elem?-read_peers s i [] key bytes p peers c r d h = cc c
  get_elem?-read_peers s i (k ∷ keys) key bytes p peers c r d h =
      let (b, q, rest, found, decoded, more, e) = read_peers-cons S F (λ _. s) i k keys peers h in
      elim (Bool-cases (key == k)) [
        | inl same ↦ (0, ground (arith, eq_iff key k, found, decoded, e, same, r, d))
        | inr differ ↦
            let (n, nth) =
              get_elem?-read_peers s (suc i) keys key bytes p rest (ground (arith, c, differ)) r d
                more in
            (suc n, rw e nth)
      ]

module _ (S : KvStore) (F : Formats) (L : IsLawful S) (W : IsFaithful F) where
  -- A peer stored under its key is among the listed ones, if nobody interferes.
  pub get_elem?-list_peers :
      (s : S.State) (info : PeerInfo) (peers : List PeerInfo)
      → S.read s "peers" "" (F.hex_encode info.node_id) ≡ ok (encode_peer F info)
      → list_peers S F (λ _. s) ≡ ok peers
      → (n : ℕ) × (get_elem? peers n ≡ some info)
  unfolding list_peers peer_at decode_peer
  get_elem?-list_peers s info peers stored h =
      let (keys, listed, read) = >>=-eq-ok (S.list s "peers" "") _ h in
      get_elem?-read_peers S F s 1 keys (F.hex_encode info.node_id) (encode_peer F info) info peers
        (L.contains-list s _ _ _ listed stored) stored (rw (read-encode_peer F W info)) read
