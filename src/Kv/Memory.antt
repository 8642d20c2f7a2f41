-- ===== src/Kv/Memory.antt =====
-- A store in memory, which shows that the laws of the interface can be met.
use ln_node.Prelude.{
  ◌≡◌, refl, String, true, ◌&&◌, List, [], ◌∷◌, Result, ok, err, ◌==◌, string_eq, arith, eq_iff,
  contains, if◌then◌else◌,
}
use ln_node.Kv.{Bytes, IoError, not_found, KvStore, IsLawful, same_key}

abbrev pub Entries : Type 0
Entries = List (String × String × String × Bytes)

abbrev missing : IoError
missing = record { kind = not_found; message = "no such key" }

unfoldable pub get : String → String → String → Entries → Result IoError Bytes
get p q k [] = err missing
get p q k ((p', q', k', d) ∷ m) = if same_key p' q' k' p q k then ok d else get p q k m

unfoldable pub erase : String → String → String → Entries → Entries
erase p q k [] = []
erase p q k ((p', q', k', d) ∷ m) =
    let rest = erase p q k m in if same_key p' q' k' p q k then rest else (p', q', k', d) ∷ rest

unfoldable pub keys : String → String → Entries → List String
keys p q [] = []
keys p q ((p', q', k, d) ∷ m) =
    let rest = keys p q m in if p' == p && q' == q then k ∷ rest else rest

abbrev pub memory_store : KvStore
memory_store = record {
  State = Entries;
  read = λ m p q k. get p q k m;
  write = λ m p q k d. (ok tt, (p, q, k, d) ∷ m);
  remove = λ m p q k lazy. (ok tt, erase p q k m);
  list = λ m p q. ok (keys p q m);
}

get-erase :
    (p q k : String) (m : Entries) (p' q' k' : String)
    → get p' q' k' (erase p q k m)
      ≡ (if same_key p q k p' q' k' then err missing else get p' q' k' m)
unfolding get erase
get-erase p q k [] p' q' k' = ground arith
get-erase p q k ((p1, q1, k1, d) ∷ m) p' q' k' = ground (
  arith,
  get-erase p q k m p' q' k',
  eq_iff p1 p,
  eq_iff q1 q,
  eq_iff k1 k,
  eq_iff p1 p',
  eq_iff q1 q',
  eq_iff k1 k',
  eq_iff p p',
  eq_iff q q',
  eq_iff k k',
)

contains-keys :
    (p q k : String) (m : Entries) (d : Bytes) → get p q k m ≡ ok d → contains (keys p q m) k ≡ true
unfolding get keys
contains-keys p q k [] d h = ground arith
contains-keys p q k ((p', q', k', d') ∷ m) d h =
    ground (arith, contains-keys p q k m d, eq_iff k k', eq_iff k' k)

pub memory_store-IsLawful : IsLawful memory_store
unfolding get erase keys
memory_store-IsLawful = record {
  read-write = λ s p q k d h p' q' k'. refl;
  read-remove = λ s p q k lazy h p' q' k' n. ground (arith, get-erase p q k s p' q' k');
  read-remove_self = λ s p q k lazy h e.
      ground (arith, get-erase p q k s p q k, eq_iff p p, eq_iff q q, eq_iff k k);
  contains-list = λ s p q k {d} e h. ground (arith, contains-keys p q k s d);
}
