-- ===== src/Json.antt =====
-- serde_json's `Value` and the floating-point numbers in it, as an interface: the program builds
-- requests and answers from such values and reads them, and implements neither.
pub mod Records
use ln_node.Prelude.{◌≡◌, ℕ, Bool, String, Option, some, List, lookup, string_eq}

-- `index` is `value[key]` (`Value::Null` where there is no such key).
pub record Json : Type 1 where
  pub Value : Type 0
  pub F64 : Type 0
  pub get : Value → String → Option Value
  pub index : Value → String → Value
  pub as_str : Value → Option String
  pub as_u64 : Value → Option ℕ
  pub as_f64 : Value → Option F64
  pub of_str : String → Value
  pub of_u64 : ℕ → Value
  pub of_bool : Bool → Value
  pub null : Value
  pub array : List Value → Value
  pub object : List (String × Value) → Value
  pub mul : F64 → F64 → F64
  pub div : F64 → F64 → F64
  pub literal : ℕ → F64
  pub as_u32 : F64 → ℕ

-- A value built from a text, a number or fields is read back as such.
pub record IsJson (J : Json) : Type 0 where
  pub index-object :
      (fields : List (String × J.Value)) (key : String) {v : J.Value}
      → lookup key fields ≡ some v
      → J.index (J.object fields) key ≡ v
  pub as_str-of_str : (s : String) → J.as_str (J.of_str s) ≡ some s
  pub as_u64-of_u64 : (n : ℕ) → J.as_u64 (J.of_u64 n) ≡ some n
