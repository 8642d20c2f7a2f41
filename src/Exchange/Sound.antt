-- ===== src/Exchange/Sound.antt =====
-- The stored payments, whatever bytes the clients send.
use ln_node.Prelude.{
  Option, ◌≡◌, ℕ, Bool, List, [], ◌∷◌, ok, inl, inr, Option-cases, Result-cases, arith,
}
use ln_node.Kv.{Bytes, KvStore, IsLawful}
use ln_node.Storage.{Payment, PeerInfo}
use ln_node.Storage.Codec.{Formats, IsFaithful}
use ln_node.Storage.Store.{add_payment, add_peer}
use ln_node.Ldk.{ChannelManager}
use ln_node.Wallet.{BdkWallet}
use ln_node.World.{World}
use ln_node.Json.{Json}
use ln_node.Node.Lifecycle.{Steps, IsValid}
use ln_node.Node.Lifecycle.Invariant.{Steps-IsValid}
use ln_node.Server.{Texts, Surroundings, Served, answered, panicked, waiting, respond}
use ln_node.Server.Answers.{Served-cases}
use ln_node.Server.Sound.{respond-Reaches}
use ln_node.Exchange.{
  Wire, Stream, read_value, write_response, serve_stream, Connection, connected, silent, failed,
  shut_down, others, Ending, listening, stopped, crashed, stuck, start_streams,
}

module _ (S : KvStore) (F : Formats) (M : ChannelManager) (B : BdkWallet) (J : Json) (T : Texts M J)
    (around : Surroundings S M B) (W : Wire J) (X : Stream W.Byte) where
  write_response-eq-answered :
      (s : Served J (World S M B)) (v : J.Value) (w : World S M B)
      → (write_response S F M B J T around W X s).0 ≡ answered v w
      → s ≡ answered v w
  unfolding write_response
  write_response-eq-answered (answered u x) v w h =
      elim (Result-cases (X.try_write (W.to_string u)).0) [
        | inl (n, e) ↦ ground (arith, h, e)
        | inr (f, e) ↦ absurd (ground (arith, h, e))
      ]
  write_response-eq-answered panicked v w h = absurd (cc h)
  write_response-eq-answered waiting v w h = absurd (cc h)

  -- Only a request that was read is answered.
  serve_stream-eq-answered :
      (bytes : List W.Byte) (w w' : World S M B) (v : J.Value)
      → (serve_stream S F M B J T around W X bytes w).0 ≡ answered v w'
      → (request : J.Value) × (respond S F M B J T around request w ≡ answered v w')
  unfolding serve_stream
  serve_stream-eq-answered bytes w w' v h = elim (Option-cases (read_value W X 4096 bytes)) [
    | inl unread ↦ absurd (ground (arith, h, unread))
    | inr (request, read) ↦
        (request, write_response-eq-answered _ v w' (rw (serve_stream, read) at h))
  ]

module _ (S : KvStore) (F : Formats) (M : ChannelManager) (B : BdkWallet) (J : Json) (T : Texts M J)
    (W : Wire J) (X : Stream W.Byte) (info : Bool) (bump : Bytes → B.State → Option B.State)
    (minimum : ℕ) where
  -- What holds of the node where the server ends, if it has not panicked or got stuck.
  abbrev pub AtEnd : (World S M B → Type 0) → Ending S M B → Type 0
  AtEnd Q (listening w) = Q w
  AtEnd Q (stopped w) = Q w
  AtEnd Q crashed = Unit
  AtEnd Q stuck = Unit

  -- What the other tasks do, while a request is served and between two connections, are steps of
  -- the node from where they find it.
  abbrev pub Peaceful : List (Connection S F M B J T W X) → World S M B → Type 0
  Peaceful [] w = Unit
  Peaceful (others change ∷ more) w =
      Steps S F M B info bump minimum w (change w) × Peaceful more (change w)
  Peaceful (connected around bytes ∷ more) w =
      ((v : World S M B) → Steps S F M B info bump minimum v (around.meanwhile v))
      × ((answer : J.Value) (w' : World S M B)
          → (serve_stream S F M B J T around W X bytes w).0 ≡ answered answer w'
          → Peaceful more w')
  Peaceful (_ ∷ more) w = Peaceful more w

  -- Over a lawful store whose writes succeed and faithful formats, where the other tasks take steps
  -- of the node while a request is served and between the connections: if the stored payments are
  -- sound, they are when the server still listens or has stopped, whatever bytes the clients have
  -- sent and whatever the socket, serde_json and the parsers have made of them.
  pub start_streams-IsValid :
      (L : IsLawful S) (V : IsFaithful F)
      (writes : (p : Payment) (s : S.State) → (add_payment S F p s).0 ≡ ok tt)
      (writes_peer : (p : PeerInfo) (s : S.State) → (add_peer S F p s).0 ≡ ok tt)
      (conns : List (Connection S F M B J T W X)) (w : World S M B)
      → Peaceful conns w
      → IsValid S F M B info bump minimum w.node_store
      → AtEnd
          (λ w'. IsValid S F M B info bump minimum w'.node_store)
          (start_streams S F M B J T W X conns w).1
  unfolding start_streams
  start_streams-IsValid L V writes writes_peer [] w steps valid = valid
  start_streams-IsValid L V writes writes_peer (shut_down ∷ more) w steps valid = valid
  start_streams-IsValid L V writes writes_peer (silent ∷ more) w steps valid = tt
  start_streams-IsValid L V writes writes_peer (failed ∷ more) w steps valid =
      start_streams-IsValid L V writes writes_peer more w steps valid
  start_streams-IsValid L V writes writes_peer (others change ∷ more) w (step, steps) valid =
      start_streams-IsValid L V writes writes_peer more (change w) steps
        (Steps-IsValid S F M B info bump minimum L V writes writes_peer step valid)
  start_streams-IsValid L V writes writes_peer (connected around bytes ∷ more) w (calm, steps)
        valid =
      elim (Served-cases (serve_stream S F M B J T around W X bytes w).0) [
        | inl (v, w', done) ↦
            let (request, answer) =
              serve_stream-eq-answered S F M B J T around W X bytes w w' v done in
            let step =
              respond-Reaches S F M B J T around info bump minimum calm request w w' v answer in
            let valid' =
              Steps-IsValid S F M B info bump minimum L V writes writes_peer step valid in
            rw (start_streams, AtEnd, done)
              (start_streams-IsValid L V writes writes_peer more w' (steps v w' done) valid')
        | inr (inl crash) ↦ rw (start_streams, AtEnd, crash) tt
        | inr (inr wait) ↦ rw (start_streams, AtEnd, wait) tt
      ]
