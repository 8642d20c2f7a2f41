-- ===== src/Cli.antt =====
-- src/bin/lncli.rs: the request that each command of the client sends.
use ln_node.Prelude.{ℕ, ◌*◌, ◌%◌, ◌^◌, String, List, [], ◌∷◌}
use ln_node.Json.{Json}

pub data Commands : Type 0 where
  node_pubkey new_address balance : Commands
  open_channel : String → ℕ → Commands
  list_channels : Commands
  close_channel : String → Commands
  send_payment : String → Commands
  receive : ℕ → Commands
  connect : String → String → Commands

-- u64 arithmetic of a release build.
abbrev pub millisatoshis : ℕ → ℕ
millisatoshis amount = amount * 1000 % 2 ^ 64

module _ (J : Json) where
  unfoldable pub plain : String → J.Value
  plain method = J.object (("method", J.of_str method) ∷ [])

  unfoldable pub with_params : String → List (String × J.Value) → J.Value
  with_params method params =
      J.object (("method", J.of_str method) ∷ ("params", J.object params) ∷ [])

  unfoldable pub request : Commands → J.Value
  unfolding plain with_params
  request node_pubkey = plain "node_pubkey"
  request new_address = plain "new_address"
  request balance = plain "balance"
  request (open_channel pubkey amount) =
      with_params "open_channel" (("pubkey", J.of_str pubkey) ∷ ("amount", J.of_u64 amount) ∷ [])
  request list_channels = plain "list_channels"
  request (close_channel channel_id) =
      with_params "close_channel" (("channel_id", J.of_str channel_id) ∷ [])
  request (send_payment invoice) = with_params "send_payment" (("invoice", J.of_str invoice) ∷ [])
  request (receive amount) =
      with_params "receive" (("amount", J.of_u64 (millisatoshis amount)) ∷ [])
  request (connect pubkey address) =
      with_params "connect" (("pubkey", J.of_str pubkey) ∷ ("address", J.of_str address) ∷ [])
