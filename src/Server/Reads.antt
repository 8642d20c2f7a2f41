-- ===== src/Server/Reads.antt =====
-- Which requests change what the node's tasks share.
use ln_node.Prelude.{
  ◌≡◌, sym, ◌∙◌, String, Bool, false, ◌||◌, some, [], ◌∷◌, ◌==◌, string_eq, arith,
}
use ln_node.Kv.{KvStore}
use ln_node.Storage.Codec.{Formats}
use ln_node.Ldk.{ChannelManager}
use ln_node.Wallet.{BdkWallet}
use ln_node.World.{World}
use ln_node.Json.{Json}
use ln_node.Server.{
  Texts, Surroundings, Served, answered, array_32, on_node_pubkey, on_balance, on_list_channels,
  on_get_payment, on_connect, dispatch, respond,
}
use ln_node.Server.Answers.{Goes, unwrap-Goes, dispatch-Goes}
use ln_node.Server.Protocol.{respond_method}

or-false : (a b : Bool) → (a || b) ≡ false → (a ≡ false) × (b ≡ false)
or-false a b h = ground arith

-- An answer leaves the state as it was.
abbrev Keeps : {J : Json} {W : Type 0} → (W → Served J W) → Type 0
Keeps = Goes (λ w w'. w' ≡ w)

module _ (S : KvStore) (F : Formats) (M : ChannelManager) (B : BdkWallet) (J : Json) (T : Texts M J)
    (around : Surroundings S M B) where
  get_payment-Keeps : (text : String) → Keeps (on_get_payment S F M B J T around text)
  unfolding on_get_payment
  get_payment-Keeps text =
      unwrap-Goes (T.hex_decode text) _
        λ bytes. unwrap-Goes (array_32 bytes) _ λ id w w' v h. ground arith

  connect-Keeps : (k a : String) → Keeps (on_connect S F M B J T around k a)
  unfolding on_connect
  connect-Keeps k a =
      unwrap-Goes (T.parse_pubkey k) _
        λ peer. unwrap-Goes (T.parse_socket_addr a) _ λ addr w w' v h. ground arith

  -- The methods that change what the node's tasks share.
  abbrev pub changes : String → Bool
  changes m =
      m == "new_address"
      || (m == "open_channel" || (m == "close_channel" || (m == "send_payment" || m == "receive")))

  node_pubkey-Keeps : Keeps (on_node_pubkey S F M B J T around)
  unfolding on_node_pubkey
  node_pubkey-Keeps w w' v h = ground (arith, h)

  balance-Keeps : Keeps (on_balance S F M B J T around)
  unfolding on_balance
  balance-Keeps w w' v h = ground (arith, h)

  list_channels-Keeps : Keeps (on_list_channels S F M B J T around)
  unfolding on_list_channels
  list_channels-Keeps w w' v h = ground (arith, h)

  unknown-Keeps :
      Keeps {J = J} {W = World S M B}
        (answered (J.object (("error", J.of_str "Unknown method") ∷ [])))
  unknown-Keeps w w' v h = ground (arith, h)

  dispatch-Keeps :
      (m : String) (r : J.Value) → changes m ≡ false → Keeps (dispatch S F M B J T around m r)
  dispatch-Keeps m r c =
      let (n1, c1) = or-false (m == "new_address") _ c in
      let (n2, c2) = or-false (m == "open_channel") _ c1 in
      let (n3, c3) = or-false (m == "close_channel") _ c2 in
      let (n4, n5) = or-false (m == "send_payment") _ c3 in
      dispatch-Goes S F M B J T around m r (record {
        node_pubkey = node_pubkey-Keeps;
        new_address = λ t. absurd (cc (n1, t));
        balance = balance-Keeps;
        open_channel = λ t. absurd (cc (n2, t));
        list_channels = list_channels-Keeps;
        close_channel = λ t. absurd (cc (n3, t));
        send_payment = λ t. absurd (cc (n4, t));
        receive = λ t. absurd (cc (n5, t));
        get_payment = get_payment-Keeps;
        connect = connect-Keeps;
        unknown = unknown-Keeps;
      })

  -- A request for any method but the five that change the node, if it is answered, leaves the
  -- shared state as it was.
  pub respond-reads :
      (r : J.Value) (m : String) (w w' : World S M B) (v : J.Value)
      → J.as_str (J.index r "method") ≡ some m
      → changes m ≡ false
      → respond S F M B J T around r w ≡ answered v w'
      → w' ≡ w
  respond-reads r m w w' v h c e =
      dispatch-Keeps m r c w w' v (sym (respond_method S F M B J T around r m w h) ∙ e)
