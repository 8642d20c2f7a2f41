-- ===== src/Exchange/Messages.antt =====
-- The messages of an exchange: what a request is made of, and a read of one, by whether it fits its
-- buffer.
use ln_node.Prelude.{
  ◌∙◌, min, ◌≡◌, refl, ap, ℕ, String, none, List, [], ◌∷◌, ◌++◌, ok, length, length-append, ◌≤◌,
  ◌<◌, inl, inr, Result-cases, arith,
}
use mathlib.Core.List.{append_assoc}
use ln_node.Json.{Json}
use ln_node.Cli.{
  Commands, node_pubkey, new_address, balance, open_channel, list_channels, close_channel,
  send_payment, receive, connect, request, plain, with_params, millisatoshis,
}
use ln_node.Exchange.{
  Wire, IsExact, AllExact, exact_str, exact_u64, exact_object, exact_nil, exact_cons, IsWire,
  Stream, IsStream, read_value,
}

-- Every request is an object, of texts and numbers.
module _ (J : Json) where
  abbrev Requested : J.Value → Type 0
  Requested v = (fields : List (String × J.Value)) × ((v ≡ J.object fields) × IsExact J v)

  abbrev text_field :
      (k s : String) (fields : List (String × J.Value))
      → AllExact J fields
      → AllExact J ((k, J.of_str s) ∷ fields)
  text_field k s fields h = exact_cons k (J.of_str s) fields (exact_str s) h

  plain-Requested : (m : String) → Requested (plain J m)
  unfolding plain
  plain-Requested m = (_, (refl, exact_object _ (text_field "method" m [] exact_nil)))

  with_params-Requested :
      (m : String) (ps : List (String × J.Value)) → AllExact J ps → Requested (with_params J m ps)
  unfolding with_params
  with_params-Requested m ps h = (
    _,
    (
      refl,
      exact_object _ (
          text_field "method" m _
            (exact_cons "params" (J.object ps) [] (exact_object ps h) exact_nil)),
    ),
  )

  pub request-Requested : (c : Commands) → Requested (request J c)
  unfolding request
  request-Requested node_pubkey = plain-Requested "node_pubkey"
  request-Requested new_address = plain-Requested "new_address"
  request-Requested balance = plain-Requested "balance"
  request-Requested list_channels = plain-Requested "list_channels"
  request-Requested (open_channel pubkey amount) = with_params-Requested "open_channel" _ (
      text_field "pubkey" pubkey _
        (exact_cons "amount" (J.of_u64 amount) [] (exact_u64 amount) exact_nil))
  request-Requested (close_channel channel_id) =
      with_params-Requested "close_channel" _ (text_field "channel_id" channel_id [] exact_nil)
  request-Requested (send_payment invoice) =
      with_params-Requested "send_payment" _ (text_field "invoice" invoice [] exact_nil)
  request-Requested (receive amount) = with_params-Requested "receive" _ (
      exact_cons "amount" (J.of_u64 (millisatoshis amount)) [] (exact_u64 (millisatoshis amount))
        exact_nil)
  request-Requested (connect pubkey address) =
      with_params-Requested "connect" _
        (text_field "pubkey" pubkey _ (text_field "address" address [] exact_nil))

longer-rest {ℓ} :
    {A : Type ℓ} (bytes taken rest : List A)
    → bytes ≡ taken ++ rest
    → length taken < length bytes
    → (b : A) × ((more : List A) × (bytes ≡ taken ++ (b ∷ more)))
longer-rest bytes taken [] e h = absurd (omega (arith, h, ap length e, length-append taken []))
longer-rest bytes taken (b ∷ more) e h = (b, (more, e))

-- A read of an object's text, by whether it fits.
module _ {J : Json} (W : Wire J) (V : IsWire J W) (X : Stream W.Byte) (LX : IsStream X) where
  from_slice_short :
      (fields : List (String × J.Value)) (taken : List W.Byte)
      → (b : W.Byte) × ((more : List W.Byte) × (W.to_string (J.object fields)
            ≡ taken ++ (b ∷ more)))
      → W.from_slice taken ≡ none
  from_slice_short fields taken (b, (more, e)) = V.from_slice_cut fields taken b more e

  taken_short :
      (fields : List (String × J.Value)) (size : ℕ) (bytes rest taken : List W.Byte)
      → W.to_string (J.object fields) ≡ bytes ++ rest
      → min size (length bytes) < length (W.to_string (J.object fields))
      → X.read size bytes ≡ ok taken
      → W.from_slice taken ≡ none
  taken_short fields size bytes rest taken whole h e =
      let (left, start) = LX.read_start size bytes taken e in
      let split : W.to_string (J.object fields) ≡ taken ++ (left ++ rest) =
        whole ∙ (ap (λ b. b ++ rest) start ∙ append_assoc taken left rest) in
      from_slice_short fields taken (
        longer-rest _ taken (left ++ rest) split (
          omega
            (arith, h, LX.read_fits size bytes taken e, ap length start, length-append taken left)))

  -- Of the bytes of an object, a read that gets less than all gets no value.
  pub read_value_cut :
      (fields : List (String × J.Value)) (size : ℕ) (bytes rest : List W.Byte)
      → W.to_string (J.object fields) ≡ bytes ++ rest
      → min size (length bytes) < length (W.to_string (J.object fields))
      → read_value W X size bytes ≡ none
  unfolding read_value
  read_value_cut fields size bytes rest whole h = elim (Result-cases (X.read size bytes)) [
    | inl (taken, e) ↦ rw (read_value, e) (taken_short fields size bytes rest taken whole h e)
    | inr (f, e) ↦ rw (read_value, e) refl
  ]

  pub read_value_fits :
      (bytes taken : List W.Byte) (size : ℕ)
      → length bytes ≤ size
      → X.read size bytes ≡ ok taken
      → read_value W X size bytes ≡ W.from_slice bytes
  unfolding read_value
  read_value_fits bytes taken size h e =
      rw (read_value, e) (ap W.from_slice (LX.read_whole size bytes taken e h))
