-- ===== src/Fees/Rpc.antt =====
-- `get_best_block` and `broadcast_transactions` of src/bitcoind_client.rs.
use ln_node.Prelude.{
  ◌≡◌, refl, ℕ, suc, ◌%◌, ◌^◌, String, Bool, true, false, Option, none, some, List, [], ◌∷◌, map,
  Result, ok, err, ◌>>=◌, map_err, ok_or, map_err-eq-ok, ok_or-eq-ok, Outcome, returned, panicked,
  >>=-eq-ok, Result-cases, arith, inl, inr,
}
use mathlib.Core.Option
use ln_node.Json.{Json}

pub data BestBlockError : Type 0 where
  call_failed : String → BestBlockError
  invalid_hash : BestBlockError
  missing_blocks : BestBlockError

module _ (J : Json) {BlockHash : Type 0} (from_str : String → Option BlockHash)
    (call : ℕ → String → List J.Value → Result String J.Value) where
  -- The two fields of the answer to `getblockchaininfo`.
  chain_info : ℕ → Result BestBlockError (String × ℕ)
  chain_info n = do
    response ← map_err call_failed (call n "getblockchaininfo" [])
    best_block_hash ← ok_or (Option.bind (J.get response "bestblockhash") J.as_str) invalid_hash
    block_height ← ok_or (Option.bind (J.get response "blocks") J.as_u64) missing_blocks
    ok (best_block_hash, block_height)

  unfoldable pub get_best_block : ℕ → Outcome (Result BestBlockError (BlockHash × ℕ))
  unfolding chain_info
  get_best_block n = elim (chain_info n) [
    | err e ↦ returned (err e)
    | ok (text, height) ↦ elim (from_str text) [
      | none ↦ panicked
      | some hash ↦ returned (ok (hash, height % 2 ^ 32))
    ]
  ]

  chain_info-eq-ok :
      (n : ℕ) (text : String) (blocks : ℕ)
      → chain_info n ≡ ok (text, blocks)
      → (response : J.Value) × (call n "getblockchaininfo" [] ≡ ok response)
        × (Option.bind (J.get response "bestblockhash") J.as_str ≡ some text)
        × (Option.bind (J.get response "blocks") J.as_u64 ≡ some blocks)
  unfolding chain_info
  chain_info-eq-ok n text blocks h =
      let (response, answered, rest) =
        >>=-eq-ok (map_err call_failed (call n "getblockchaininfo" [])) _ h in
      let hash = Option.bind (J.get response "bestblockhash") J.as_str in
      let height = Option.bind (J.get response "blocks") J.as_u64 in
      let (t, found, rest') = >>=-eq-ok (ok_or hash invalid_hash) _ rest in
      let (b, known, e) = >>=-eq-ok (ok_or height missing_blocks) _ rest' in
      (
        response,
        map_err-eq-ok call_failed _ answered,
        ok_or-eq-ok hash invalid_hash (ground (arith, found, e)),
        ok_or-eq-ok height missing_blocks (ground (arith, known, e)),
      )

  -- A block that is returned has the hash and the height of one answer of bitcoind, the height cut
  -- to its low 32 bits.
  pub get_best_block_faithful :
      (n : ℕ) (hash : BlockHash) (height : ℕ)
      → get_best_block n ≡ returned (ok (hash, height))
      → (response : J.Value) × (text : String) × (blocks : ℕ) × (call n "getblockchaininfo" []
          ≡ ok response)
        × (Option.bind (J.get response "bestblockhash") J.as_str ≡ some text)
        × (Option.bind (J.get response "blocks") J.as_u64 ≡ some blocks)
        × (from_str text ≡ some hash)
        × (height ≡ blocks % 2 ^ 32)
  unfolding get_best_block
  get_best_block_faithful n hash height h = elim (Result-cases (chain_info n)) [
    | inl ((text, blocks), read) ↦
        let (response, answered, t, b) = chain_info-eq-ok n text blocks read in
        (response, text, blocks, answered, t, b, ground (arith, h, read), ground (arith, h, read))
    | inr (e, failure) ↦ absurd (ground (arith, h, failure))
  ]

module _ (J : Json) {Transaction : Type 0} (serialize_hex : Transaction → String)
    (call : ℕ → String → List J.Value → Result String J.Value) where
  -- Each request that was made, with whether bitcoind took it (which only picks the log line).
  unfoldable pub broadcast_transactions : ℕ → List Transaction → List (String × J.Value × Bool)
  broadcast_transactions n [] = []
  broadcast_transactions n (tx ∷ txs) =
      let request = J.of_str (serialize_hex tx) in
      let taken : Bool = elim (call n "sendrawtransaction" (request ∷ [])) [
        | ok _ ↦ true
        | err _ ↦ false
      ] in
      ("sendrawtransaction", request, taken) ∷ broadcast_transactions (suc n) txs

abbrev pub sent : {V : Type 0} → String × V × Bool → String × V
sent r = (r.0, r.1)

-- Whatever bitcoind answers, each transaction is sent exactly once and in order: a refused one
-- does not keep the later ones from being sent.
pub broadcast_transactions_all :
    (J : Json) {Transaction : Type 0} (serialize_hex : Transaction → String)
    (call : ℕ → String → List J.Value → Result String J.Value) (n : ℕ) (txs : List Transaction)
    → map sent (broadcast_transactions J serialize_hex call n txs)
      ≡ map (λ tx. ("sendrawtransaction", J.of_str (serialize_hex tx))) txs
unfolding broadcast_transactions
broadcast_transactions_all J hex call n [] = refl
broadcast_transactions_all J hex call n (tx ∷ txs) =
    cc (broadcast_transactions_all J hex call (suc n) txs)
