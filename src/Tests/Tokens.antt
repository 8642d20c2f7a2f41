-- ===== src/Tests/Tokens.antt =====
-- A text for the values that are trees, as tokens with numbers in unary, and a stream that carries
-- tokens whole.
use ln_node.Prelude.{
  ◌≡◌, refl, sym, ◌∙◌, ap, ℕ, zero, suc, ◌≤◌, String, Bool, true, false, Option, none, some, List,
  [], ◌∷◌, ◌++◌, Result, ok, length, arith,
}
use ln_node.Exchange.{Wire, IsWire, Stream, IsStream}
use ln_node.Tests.Server.{Tree, null, number, text, entry, trees, build}

pub data Token : Type 0 where
  nil one end : Token
  quoted key : String → Token

unfoldable pub unary : ℕ → List Token → List Token
unary zero rest = end ∷ rest
unary (suc n) rest = one ∷ unary n rest

unfoldable pub print_before : Tree → List Token → List Token
unfolding unary
print_before null rest = nil ∷ rest
print_before (number n) rest = unary n rest
print_before (text s) rest = quoted s ∷ rest
print_before (entry k v fields) rest = key k ∷ print_before v (print_before fields rest)

unfoldable pub print : Tree → List Token
unfolding print_before
print v = print_before v []

-- Read from the right, with the values read so far.
abbrev step : Token → List Tree → Option (List Tree)
step nil st = some (null ∷ st)
step end st = some (number 0 ∷ st)
step (quoted s) st = some (text s ∷ st)
step one (number n ∷ st) = some (number (suc n) ∷ st)
step one st = none
step (key k) (v ∷ fields ∷ st) = some (entry k v fields ∷ st)
step (key k) st = none

unfoldable pub stack : List Token → Option (List Tree)
stack [] = some []
stack (t ∷ ts) = elim (stack ts) [ none ↦ none | some st ↦ step t st ]

-- Whether the tokens are of as many values as are awaited.
unfoldable pub complete : ℕ → List Token → Bool
complete zero [] = true
complete zero (t ∷ ts) = false
complete (suc n) [] = false
complete (suc n) (one ∷ ts) = complete (suc n) ts
complete (suc n) (key k ∷ ts) = complete (suc (suc n)) ts
complete (suc n) (nil ∷ ts) = complete n ts
complete (suc n) (end ∷ ts) = complete n ts
complete (suc n) (quoted s ∷ ts) = complete n ts

abbrev top : Option (List Tree) → Option Tree
top (some (v ∷ [])) = some v
top _ = none

unfoldable pub parse : List Token → Option Tree
unfolding complete stack
parse ts = elim (complete 1 ts) [ true ↦ top (stack ts) | false ↦ none ]

stack-unary :
    (n : ℕ) (rest : List Token) {st : List Tree}
    → stack rest ≡ some st
    → stack (unary n rest) ≡ some (number n ∷ st)
unfolding stack unary
stack-unary zero rest e = ground (arith, e)
stack-unary (suc n) rest e = ground (arith, stack-unary n rest e)

stack-print_before :
    (v : Tree) (rest : List Token) {st : List Tree}
    → stack rest ≡ some st
    → stack (print_before v rest) ≡ some (v ∷ st)
unfolding stack print_before
stack-print_before null rest e = ground (arith, e)
stack-print_before (number n) rest e = stack-unary n rest e
stack-print_before (text s) rest e = ground (arith, e)
stack-print_before (entry k v fields) rest e =
    ground
      (arith, stack-print_before v (print_before fields rest) (stack-print_before fields rest e))

complete-unary : (m n : ℕ) (rest : List Token) → complete (suc m) (unary n rest) ≡ complete m rest
unfolding complete unary
complete-unary m zero rest = refl
complete-unary m (suc n) rest = complete-unary m n rest

complete-print_before :
    (m : ℕ) (v : Tree) (rest : List Token)
    → complete (suc m) (print_before v rest) ≡ complete m rest
unfolding complete print_before
complete-print_before m null rest = refl
complete-print_before m (number n) rest = complete-unary m n rest
complete-print_before m (text s) rest = refl
complete-print_before m (entry k v fields) rest =
    complete-print_before (suc m) v (print_before fields rest) ∙ complete-print_before m fields rest

pub parse-print : (v : Tree) → parse (print v) ≡ some v
unfolding parse print complete stack
parse-print v =
    rw (parse, complete-print_before 0 v [], stack-print_before v [] {st = []} refl) refl

complete_cut :
    (m : ℕ) (ts : List Token) (t : Token) (more : List Token)
    → complete m (ts ++ (t ∷ more)) ≡ true
    → complete m ts ≡ false
unfolding complete
complete_cut zero [] t more e = sym e
complete_cut zero (u ∷ ts) t more e = absurd (cc e)
complete_cut (suc m) [] t more e = refl
complete_cut (suc m) (one ∷ ts) t more e = complete_cut (suc m) ts t more e
complete_cut (suc m) (key k ∷ ts) t more e = complete_cut (suc (suc m)) ts t more e
complete_cut (suc m) (nil ∷ ts) t more e = complete_cut m ts t more e
complete_cut (suc m) (end ∷ ts) t more e = complete_cut m ts t more e
complete_cut (suc m) (quoted s ∷ ts) t more e = complete_cut m ts t more e

parse_cut :
    (v : Tree) (ts : List Token) (t : Token) (more : List Token)
    → print v ≡ ts ++ (t ∷ more)
    → parse ts ≡ none
unfolding parse print complete
parse_cut v ts t more e =
    rw (parse, complete_cut 1 ts t more (ap (complete 1) (sym e) ∙ complete-print_before 0 v []))
      refl

abbrev pub tokens : Wire trees
tokens = record { Byte = Token; to_string = print; from_slice = parse }

pub tokens-IsWire : IsWire trees tokens
tokens-IsWire = record {
  from_slice-to_string = λ v h. parse-print v;
  from_slice_cut = λ fields bytes b rest e. parse_cut (build fields) bytes b rest e;
}

unfoldable pub take : ℕ → List Token → List Token
take zero ts = []
take (suc n) [] = []
take (suc n) (t ∷ ts) = t ∷ take n ts

take_start : (n : ℕ) (ts : List Token) → (rest : List Token) × (ts ≡ take n ts ++ rest)
unfolding take
take_start zero ts = (ts, refl)
take_start (suc n) [] = ([], refl)
take_start (suc n) (t ∷ ts) = let (rest, e) = take_start n ts in (rest, ap (λ us. t ∷ us) e)

length-take : (n : ℕ) (ts : List Token) → length (take n ts) ≤ n
unfolding take
length-take zero ts = omega arith
length-take (suc n) [] = omega arith
length-take (suc n) (t ∷ ts) = omega (arith, length-take n ts)

take_whole : (n : ℕ) (ts : List Token) → length ts ≤ n → take n ts ≡ ts
unfolding take
take_whole zero [] h = refl
take_whole zero (t ∷ ts) h = absurd (omega (arith, h))
take_whole (suc n) [] h = refl
take_whole (suc n) (t ∷ ts) h = ap (λ us. t ∷ us) (take_whole n ts (omega (arith, h)))

abbrev pub pipe : Stream Token
pipe = record {
  connect = ok tt;
  write_all = λ bytes. (ok tt, bytes);
  try_write = λ bytes. (ok (length bytes), bytes);
  read = λ size bytes. ok (take size bytes);
}

ok_path {ℓ κ} : {E : Type ℓ} {A : Type κ} {a b : A} → Path (Result E A) (ok a) (ok b) → a ≡ b
ok_path e = cc e

pub pipe-IsStream : IsStream pipe
pipe-IsStream = record {
  read_start = λ size bytes taken e.
      let (rest, split) = take_start size bytes in (rest, rw⁻¹ (ok_path e) split);
  read_fits = λ size bytes taken e. omega (arith, length-take size bytes, ap length (ok_path e));
  read_whole = λ size bytes taken e h. sym (ok_path e) ∙ take_whole size bytes h;
}
