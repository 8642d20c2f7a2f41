-- ===== src/Tests/Server.antt =====
-- Requests from the client to the server, over values of JSON as trees.
use ln_node.Prelude.{
  ◌≡◌, refl, ◌∙◌, true, ℕ, ◌*◌, ◌/◌, ◌%◌, ◌^◌, String, Option, none, some, List, [], ◌∷◌, lookup,
  ◌==◌, nat_eq, string_eq, list_eq, arith, if◌then◌else◌,
}
use ln_node.Kv.Memory.{memory_store as memory}
use ln_node.Json.{Json, IsJson}
use ln_node.Node.Peers.{v4}
use ln_node.Cli.{receive, balance, request}
use ln_node.Node.Channels.{balance as balance_of, sum_u64}
use ln_node.Server.{Texts, Surroundings, answered, on_receive, on_balance, respond}
use ln_node.Server.Panics.{Panics}
use ln_node.Server.Protocol.{respond-request}
use ln_node.Tests.Formats.{plain_formats as plain}
use ln_node.Tests.Samples.{manager, wallet, world}

-- An object is a chain of entries.
pub data Tree : Type 0 where
  null : Tree
  number : ℕ → Tree
  text : String → Tree
  entry : String → Tree → Tree → Tree

unfoldable pub build : List (String × Tree) → Tree
build [] = null
build ((k, v) ∷ fields) = entry k v (build fields)

-- A list is an object without names.
unfoldable pub list_tree : List Tree → Tree
list_tree [] = null
list_tree (v ∷ vs) = entry "" v (list_tree vs)

unfoldable pub value_at : Tree → String → Tree
value_at (entry k v rest) key = if k == key then v else value_at rest key
value_at _ key = null

abbrev as_text : Tree → Option String
as_text (text s) = some s
as_text _ = none

abbrev as_number : Tree → Option ℕ
as_number (number n) = some n
as_number _ = none

abbrev pub trees : Json
trees = record {
  Value = Tree;
  F64 = ℕ;
  get = λ v key. some (value_at v key);
  index = value_at;
  as_str = as_text;
  as_u64 = as_number;
  as_f64 = as_number;
  of_str = text;
  of_u64 = number;
  of_bool = λ b. if b then number 1 else number 0;
  null = null;
  array = list_tree;
  object = build;
  mul = λ a b. a * b;
  div = λ a b. a / b;
  literal = λ n. n;
  as_u32 = λ n. n % 2 ^ 32;
}

value_at-build :
    (fields : List (String × Tree)) (key : String) (v : Tree)
    → lookup key fields ≡ some v
    → value_at (build fields) key ≡ v
unfolding value_at build
value_at-build [] key v h = ground arith
value_at-build ((k, u) ∷ fields) key v h = ground (arith, h, value_at-build fields key v)

pub trees-IsJson : IsJson trees
trees-IsJson = record {
  index-object = λ fields key {v} h. value_at-build fields key v h;
  as_str-of_str = λ s. refl;
  as_u64-of_u64 = λ n. refl;
}

-- By what an amount in satoshis is shown as.
abbrev pub texts_by : (ℕ → Tree) → Texts manager trees
texts_by amount = record {
  hex_encode = λ b. "hex";
  hex_decode = λ s. some (4 ∷ []);
  parse_pubkey = λ s. some (2 ∷ []);
  parse_invoice = λ s. none;
  parse_socket_addr = λ s. some (v4 [] 9735);
  show_invoice = λ i. "lnbc1";
  show_address = λ a. "bcrt1";
  show_error = λ e. "error";
  show_connect_error = λ e. "closed";
  append = λ a b. a;
  pubkey_value = λ k. text "key";
  btc_value = amount;
  sat_value = amount;
  outpoint_value = λ o. null;
}

abbrev pub texts : Texts manager trees
texts = texts_by number

abbrev pub around : Surroundings memory manager wallet
around = record {
  node_id = 2 ∷ [];
  connected = λ k. true;
  user_channel_id = 7;
  outbound = λ k a. none;
  meanwhile = λ w. w;
}

respond-request_example :
    respond memory plain manager wallet trees texts around (request trees (receive 21)) (world 0)
    ≡ on_receive memory plain manager wallet trees texts around 21000 (world 0)
respond-request_example =
    respond-request memory plain manager wallet trees texts around trees-IsJson (receive 21)
      (world 0)

abbrev shown : Tree
shown = build (
    ("onchain", build (("confirmed", number 3) ∷ ("pending", number 3) ∷ []))
    ∷ ("lightning", number 5)
    ∷ [])

balance_answered :
    respond memory plain manager wallet trees texts around (request trees balance) (world 3)
    ≡ answered shown (world 3)
unfolding respond request build value_at
balance_answered =
    respond-request memory plain manager wallet trees texts around trees-IsJson balance (world 3)
    ∙ (unfold on_balance balance_of sum_u64 in refl)
