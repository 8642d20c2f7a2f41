-- ===== src/Chain/Source.antt =====
-- The block source of src/bitcoind_client.rs: `BitcoindRpcClient` hands the calls of the traits
-- `BlockSource` and `UtxoSource` to LDK's `RpcClient`, which is an interface.
use ln_node.Prelude.{ℕ, Bool, String, Option, Result}

-- `BlockSource` and `UtxoSource`, by what their calls answer.
pub record Source (BlockHash OutPoint HeaderData BlockData : Type 0) : Type 0 where
  pub get_header : BlockHash → Option ℕ → Result String HeaderData
  pub get_block : BlockHash → Result String BlockData
  pub get_best_block : Result String (BlockHash × Option ℕ)
  pub get_block_hash_by_height : ℕ → Result String BlockHash
  pub is_output_unspent : OutPoint → Result String Bool

module _ {BlockHash OutPoint HeaderData BlockData : Type 0} where
  unfoldable pub block_source :
      Source BlockHash OutPoint HeaderData BlockData
      → Source BlockHash OutPoint HeaderData BlockData
  block_source rpc_client = record {
    get_header = λ header_hash height_hint. rpc_client.get_header header_hash height_hint;
    get_block = λ header_hash. rpc_client.get_block header_hash;
    get_best_block = rpc_client.get_best_block;
    get_block_hash_by_height = λ block_height. rpc_client.get_block_hash_by_height block_height;
    is_output_unspent = λ outpoint. rpc_client.is_output_unspent outpoint;
  }
