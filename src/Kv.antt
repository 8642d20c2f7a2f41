-- ===== src/Kv.antt =====
-- The key-value store of `lightning-persister` (`FilesystemStore`, by its trait `KVStoreSync`) as an
-- interface: `storage.rs` and `node.rs` call it and do not implement it.
pub mod Memory
use ln_node.Prelude.{
  ◌≡◌, ◌≢◌, ◌↔◌, ℕ, String, Bool, true, ◌&&◌, List, Result, ok, err, ◌==◌, string_eq, contains,
  if◌then◌else◌,
}

abbrev pub Bytes : Type 0
Bytes = List ℕ

-- The kinds of `io::Error` that the program tells apart or makes.
pub data ErrorKind : Type 0 where
  not_found invalid_data : ErrorKind
  other : ℕ → ErrorKind

pub record IoError : Type 0 where
  pub kind : ErrorKind
  pub message : String

-- A key stands in a primary and a secondary namespace.
pub record KvStore : Type 1 where
  pub State : Type 0
  pub read : State → String → String → String → Result IoError Bytes
  pub write : State → String → String → String → Bytes → Result IoError (Unit {0}) × State
  pub remove : State → String → String → String → Bool → Result IoError (Unit {0}) × State
  pub list : State → String → String → Result IoError (List String)

-- The same namespaces and key.
abbrev pub same_key : String → String → String → String → String → String → Bool
same_key p q k p' q' k' = p == p' && (q == q' && k == k')

-- What the documentation of `KVStoreSync` promises of calls that succeed.
pub record IsLawful (S : KvStore) : Type 0 where
  pub read-write :
      (s : S.State) (p q k : String) (d : Bytes)
      → (S.write s p q k d).0 ≡ ok tt
      → (p' q' k' : String)
      → S.read (S.write s p q k d).1 p' q' k'
        ≡ (if same_key p q k p' q' k' then ok d else S.read s p' q' k')
  pub read-remove :
      (s : S.State) (p q k : String) (lazy : Bool)
      → (S.remove s p q k lazy).0 ≡ ok tt
      → (p' q' k' : String) → same_key p q k p' q' k' ≢ true
      → S.read (S.remove s p q k lazy).1 p' q' k' ≡ S.read s p' q' k'
  pub read-remove_self :
      (s : S.State) (p q k : String) (lazy : Bool) {d : Bytes}
      → (S.remove s p q k lazy).0 ≡ ok tt
      → S.read (S.remove s p q k lazy).1 p q k ≢ ok d
  pub contains-list :
      (s : S.State) (p q k : String) {ks : List String} {d : Bytes}
      → S.list s p q ≡ ok ks
      → S.read s p q k ≡ ok d
      → contains ks k ≡ true
