-- ===== src/Node/Peers/Connect.antt =====
-- When `connect` returns, and with what.
use ln_node.Prelude.{
  ◌≡◌, ◌≢◌, refl, ℕ, zero, suc, ◌<◌, Bool, true, false, none, some, List, [], ◌∷◌, map, Result, ok,
  err, ◌⊎◌, Bool-cases, Option-cases, inl, inr, get_elem?, arith,
}
use ln_node.Storage.{PublicKey, PeerInfo}
use ln_node.Node.Peers.{
  SocketAddr, Tick, closed, slept, is_listed, await_peer, Outbound, connect, ConnectError,
  connection_closed, connection_timed_out, socket_addr, Attempt, reconnect,
}

-- A round that ends the wait.
abbrev pub is_decisive : PublicKey → Tick → Bool
is_decisive k closed = true
is_decisive k (slept peers) = is_listed k peers

-- What a round that ends the wait makes of it.
abbrev pub result_of : Tick → Result ConnectError (Unit {0})
result_of closed = err connection_closed
result_of (slept peers) = ok tt

-- The n-th round ends the wait, and none before it.
abbrev pub IsFirst : PublicKey → List Tick → ℕ → Tick → Type 0
IsFirst k ticks n t =
    (get_elem? ticks n ≡ some t)
    × (is_decisive k t ≡ true)
    × ((m : ℕ) (s : Tick) → m < n → get_elem? ticks m ≡ some s → is_decisive k s ≡ false)

abbrev pub IsUndecided : PublicKey → List Tick → Type 0
IsUndecided k ticks = (m : ℕ) (s : Tick) → get_elem? ticks m ≡ some s → is_decisive k s ≡ false

IsFirst-cons :
    (k : PublicKey) (u : Tick) (ticks : List Tick) (n : ℕ) (t : Tick)
    → is_decisive k u ≡ false
    → IsFirst k ticks n t
    → IsFirst k (u ∷ ticks) (suc n) t
IsFirst-cons k u ticks n t off (found, ends, before) = (found, ends, earlier)
  where
    earlier :
        (m : ℕ) (s : Tick) → m < suc n → get_elem? (u ∷ ticks) m ≡ some s → is_decisive k s ≡ false
    earlier zero s lt e = ground (arith, e, off)
    earlier (suc m) s lt e = before m s (omega (arith, lt)) e

IsUndecided-cons :
    (k : PublicKey) (u : Tick) (ticks : List Tick)
    → is_decisive k u ≡ false
    → IsUndecided k ticks
    → IsUndecided k (u ∷ ticks)
IsUndecided-cons k u ticks off none_of zero s e = ground (arith, e, off)
IsUndecided-cons k u ticks off none_of (suc m) s e = none_of m s e

await_peer-cases :
    (k : PublicKey) (ticks : List Tick)
    → ((n : ℕ) × (t : Tick) × IsFirst k ticks n t × (await_peer k ticks ≡ some (result_of t)))
      ⊎ (IsUndecided k ticks × (await_peer k ticks ≡ none))
unfolding await_peer
await_peer-cases k [] = inr ((λ m s e. absurd (cc e)), refl)
await_peer-cases k (closed ∷ ticks) =
    inl (0, closed, (refl, refl, λ m s lt e. absurd (omega (arith, lt))), refl)
await_peer-cases k (slept peers ∷ ticks) = elim (Bool-cases (is_listed k peers)) [
  | inl here ↦
      inl (0, slept peers, (refl, here, λ m s lt e. absurd (omega (arith, lt))), rw here refl)
  | inr later ↦ elim (await_peer-cases k ticks) [
    | inl (n, t, first, result) ↦
        inl (suc n, t, IsFirst-cons k (slept peers) ticks n t later first, rw later result)
    | inr (undecided, waits) ↦
        inr (IsUndecided-cons k (slept peers) ticks later undecided, rw later waits)
  ]
]

-- `connect` has three outcomes. No connection is made, and it fails as timed out; or one is made,
-- and at the first round after which the connection was closed or the peer manager lists the peer,
-- it fails as closed, or succeeds; or it waits, and no round so far was one of these.
pub connect-cases :
    (outbound : Outbound) (k : PublicKey) (a : SocketAddr)
    → ((outbound k a ≡ none) × (connect outbound k a ≡ some (err connection_timed_out)))
      ⊎ ((ticks : List Tick) × (outbound k a ≡ some ticks)
          × (((n : ℕ) × (t : Tick) × IsFirst k ticks n t
                × (connect outbound k a ≡ some (result_of t)))
              ⊎ (IsUndecided k ticks × (connect outbound k a ≡ none))))
unfolding connect
connect-cases outbound k a = elim (Option-cases (outbound k a)) [
  | inl refused ↦ inl (refused, ground (arith, refused))
  | inr (ticks, made) ↦ inr (
    ticks,
    made,
    elim (await_peer-cases k ticks) [
      | inl (n, t, first, result) ↦ inl (n, t, first, ground (arith, made, result))
      | inr (undecided, waits) ↦ inr (undecided, ground (arith, made, waits))
    ],
  )
]

abbrev pub target : Attempt → PublicKey × SocketAddr
target t = (t.0, t.1)

-- The peers with an IP address, in order.
abbrev pub reachable : List PeerInfo → List (PublicKey × SocketAddr)
reachable [] = []
reachable (peer ∷ peers) = elim (socket_addr peer.address) [
  | none ↦ reachable peers
  | some addr ↦ (peer.node_id, addr) ∷ reachable peers
]

-- If every call of `connect` returns, with success or not, each peer with an IP address is tried
-- exactly once, in order.
pub reconnect_all :
    (outbound : ℕ → Outbound) (n : ℕ) (peers : List PeerInfo)
    → ((i : ℕ) (k : PublicKey) (a : SocketAddr) → connect (outbound i) k a ≢ none)
    → map target (reconnect outbound n peers) ≡ reachable peers
unfolding reconnect
reconnect_all outbound n [] returns = refl
reconnect_all outbound n (peer ∷ peers) returns = elim (Option-cases (socket_addr peer.address)) [
  | inl other ↦ ground (arith, other, reconnect_all outbound n peers returns)
  | inr (addr, ip) ↦ elim (Option-cases (connect (outbound n) peer.node_id addr)) [
    | inl waits ↦ absurd (returns n peer.node_id addr waits)
    | inr (r, done) ↦ ground (arith, ip, done, reconnect_all outbound (suc n) peers returns)
  ]
]
