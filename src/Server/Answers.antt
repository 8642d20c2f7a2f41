-- ===== src/Server/Answers.antt =====
-- What an answer does to the state: a relation that holds of an `if` and of an `unwrap` where it
-- holds of what follows.
use ln_node.Prelude.{
  ◌≡◌, refl, if◌then◌else◌, ℕ, String, Option, Bool, true, false, none, some, [], ◌∷◌, ◌==◌,
  string_eq, ◌⊎◌, inl, inr,
}
use ln_node.Kv.{KvStore}
use ln_node.Storage.Codec.{Formats}
use ln_node.Ldk.{ChannelManager}
use ln_node.Wallet.{BdkWallet}
use ln_node.World.{World}
use ln_node.Json.{Json}
use ln_node.Server.{
  Texts, Surroundings, Served, answered, panicked, waiting, unwrap, param, on_node_pubkey,
  on_new_address, on_balance, on_open_channel, on_list_channels, on_close_channel, on_send_payment,
  on_receive, on_get_payment, on_connect, dispatch,
}

module _ {J : Json} {W : Type 0} where
  abbrev pub Goes : (W → W → Type 0) → (W → Served J W) → Type 0
  Goes R k = (w w' : W) (v : J.Value) → k w ≡ answered v w' → R w w'

  pub if-Goes :
      {R : W → W → Type 0} (b : Bool) (k l : W → Served J W)
      → (b ≡ true → Goes R k)
      → (b ≡ false → Goes R l)
      → Goes R (if b then k else l)
  if-Goes true k l f g = f refl
  if-Goes false k l f g = g refl

  pub unwrap-Goes :
      {R : W → W → Type 0} {A : Type 0} (o : Option A) (k : A → W → Served J W)
      → ((a : A) → Goes R (k a))
      → Goes R (λ w. unwrap o (λ a. k a w))
  unwrap-Goes none k f w w' v h = absurd (cc h)
  unwrap-Goes (some a) k f w w' v h = f a w w' v h

-- To split on what comes of a request and keep the equation.
pub Served-cases :
    {J : Json} {W : Type 0} (a : Served J W)
    → ((v : J.Value) × (w : W) × (a ≡ answered v w)) ⊎ ((a ≡ panicked) ⊎ (a ≡ waiting))
Served-cases (answered v w) = inl (v, w, refl)
Served-cases panicked = inr (inl refl)
Served-cases waiting = inr (inr refl)

module _ (S : KvStore) (F : Formats) (M : ChannelManager) (B : BdkWallet) (J : Json) (T : Texts M J)
    (around : Surroundings S M B) where
  -- The relation holds of each handler; of one that changes the node, only if it is called.
  pub record Handlers (R : World S M B → World S M B → Type 0) (m : String) : Type 0 where
    pub node_pubkey : Goes R (on_node_pubkey S F M B J T around)
    pub new_address : (m == "new_address") ≡ true → Goes R (on_new_address S F M B J T around)
    pub balance : Goes R (on_balance S F M B J T around)
    pub open_channel :
        (m == "open_channel") ≡ true
        → (k : String) (n : ℕ) → Goes R (on_open_channel S F M B J T around k n)
    pub list_channels : Goes R (on_list_channels S F M B J T around)
    pub close_channel :
        (m == "close_channel") ≡ true
        → (k : String) → Goes R (on_close_channel S F M B J T around k)
    pub send_payment :
        (m == "send_payment") ≡ true → (k : String) → Goes R (on_send_payment S F M B J T around k)
    pub receive : (m == "receive") ≡ true → (n : ℕ) → Goes R (on_receive S F M B J T around n)
    pub get_payment : (k : String) → Goes R (on_get_payment S F M B J T around k)
    pub connect : (k a : String) → Goes R (on_connect S F M B J T around k a)
    pub unknown :
        Goes {J = J} {W = World S M B} R
          (answered (J.object (("error", J.of_str "Unknown method") ∷ [])))

  abbrev text : J.Value → String → Option String
  text r key = J.as_str (param S F M B J T around r key)

  abbrev number : J.Value → String → Option ℕ
  number r key = J.as_u64 (param S F M B J T around r key)

  pub dispatch-Goes :
      {R : World S M B → World S M B → Type 0} (m : String) (r : J.Value)
      → Handlers R m
      → Goes R (dispatch S F M B J T around m r)
  unfolding dispatch
  dispatch-Goes m r hs =
      if-Goes (m == "node_pubkey") _ _ (λ _. hs.node_pubkey)
        λ _. if-Goes (m == "new_address") _ _ hs.new_address λ _.
          if-Goes (m == "balance") _ _ (λ _. hs.balance)
            λ _.
              if-Goes (m == "open_channel") _ _
                (λ t.
                  unwrap-Goes (text r "pubkey") _
                    λ k. unwrap-Goes (number r "amount") _ λ n. hs.open_channel t k n)
                λ _.
                  if-Goes (m == "list_channels") _ _ (λ _. hs.list_channels)
                    λ _.
                      if-Goes (m == "close_channel") _ _
                        (λ t. unwrap-Goes (text r "channel_id") _ (hs.close_channel t))
                        λ _.
                          if-Goes (m == "send_payment") _ _
                            (λ t. unwrap-Goes (text r "invoice") _ (hs.send_payment t))
                            λ _.
                              if-Goes (m == "receive") _ _
                                (λ t. unwrap-Goes (number r "amount") _ (hs.receive t))
                                λ _.
                                  if-Goes (m == "get_payment") _ _
                                    (λ _. unwrap-Goes (text r "payment_id") _ hs.get_payment)
                                    λ _.
                                      if-Goes (m == "connect") _ _
                                        (λ _.
                                          unwrap-Goes (text r "pubkey") _ λ k.
                                            unwrap-Goes (text r "address") _ λ a. hs.connect k a)
                                        λ _. hs.unknown
