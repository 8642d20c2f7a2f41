-- ===== src/Tests/Formats.antt =====
-- Plain formats, which show that what is assumed of LDK's encoding can be met: numbers shifted by
-- one, with a zero behind each field.
use Prim.Native.Char.{code}
use ln_node.Prelude.{
  ◌≡◌, refl, ap, ◌∙◌, ◌+◌, ◌==◌, nat_eq, if◌then◌else◌, ℕ, zero, suc, ◌<◌, String, Option, none,
  some, List, [], ◌∷◌, ◌++◌, map, Result, ok, err, lookup, nat_eq, arith,
}
use mathlib.Core.List.{append-nil, append_assoc}
use ln_node.Kv.{Bytes}
use ln_node.Storage.{SocketAddress, tcp_ip_v4, tcp_ip_v6, other_address}
use ln_node.Storage.Codec.{DecodeError, invalid_value, Codec, Formats, IsFaithful}

abbrev bytes_codec : Codec Bytes
bytes_codec = record { write = λ b. b; read = λ b. ok b }

write_optional : Option Bytes → Bytes
write_optional none = []
write_optional (some b) = 1 ∷ b

read_optional : Bytes → Result DecodeError (Option Bytes)
read_optional [] = ok none
read_optional (_ ∷ b) = ok (some b)

write_amount : Option ℕ → Bytes
write_amount none = []
write_amount (some n) = n ∷ []

read_amount : Bytes → Result DecodeError (Option ℕ)
read_amount [] = ok none
read_amount (n ∷ _) = ok (some n)

read_number : Bytes → Result DecodeError ℕ
read_number [] = err invalid_value
read_number (n ∷ _) = ok n

write_address : SocketAddress → Bytes
write_address (tcp_ip_v4 a port) = 1 ∷ port ∷ a
write_address (tcp_ip_v6 a port) = 2 ∷ port ∷ a
write_address (other_address a) = 3 ∷ a

read_address : Bytes → Result DecodeError SocketAddress
read_address (suc zero ∷ port ∷ a) = ok (tcp_ip_v4 a port)
read_address (suc (suc zero) ∷ port ∷ a) = ok (tcp_ip_v6 a port)
read_address (suc (suc (suc zero)) ∷ a) = ok (other_address a)
read_address _ = err invalid_value

-- Each number as so many letters and a stroke.
mark : ℕ → String → String
mark zero s = String.◌∷◌ "|" s
mark (suc n) s = String.◌∷◌ "a" (mark n s)

spell : Bytes → String
spell [] = ""
spell (n ∷ b) = mark n (spell b)

-- The numbers of a spelled text, of whose first number `k` letters are read.
unfoldable pub unspell : ℕ → String → Bytes
unspell k String.[] = []
unspell k (String.◌∷◌ c s) =
    let more = unspell (suc k) s in
    let next = unspell 0 s in if code c == 97 then more else k ∷ next

unspell-mark : (n k : ℕ) (s : String) → unspell k (mark n s) ≡ (k + n) ∷ unspell 0 s
unfolding unspell mark
unspell-mark zero k s = ground arith
unspell-mark (suc n) k s = ground (arith, unspell-mark n (suc k) s)

unspell-spell : (b : Bytes) → unspell 0 (spell b) ≡ b
unfolding unspell spell
unspell-spell [] = refl
unspell-spell (n ∷ b) = ground (arith, unspell-mark n 0 (spell b), unspell-spell b)

abbrev pub hex_decode : String → Option Bytes
hex_decode s = some (unspell 0 s)

write_fields : List (ℕ × Bytes) → Bytes
write_fields [] = []
write_fields ((n, b) ∷ fields) = map suc (n ∷ b) ++ 0 ∷ write_fields fields

-- The runs of numbers between the zeros.
groups : Bytes → Bytes → List Bytes
groups run [] = []
groups run (zero ∷ rest) = run ∷ groups [] rest
groups run (suc n ∷ rest) = groups (run ++ n ∷ []) rest

to_field : Bytes → ℕ × Bytes
to_field [] = (0, [])
to_field (n ∷ b) = (n, b)

groups-run :
    (run xs rest : Bytes) → groups run (map suc xs ++ 0 ∷ rest) ≡ (run ++ xs) ∷ groups [] rest
unfolding groups
groups-run run [] rest = rw append-nil
groups-run run (x ∷ xs) rest = groups-run (run ++ x ∷ []) xs rest ∙ rw append_assoc

fields-groups :
    (fields : List (ℕ × Bytes)) → map to_field (groups [] (write_fields fields)) ≡ fields
unfolding write_fields to_field
fields-groups [] = unfold groups in refl
fields-groups ((n, b) ∷ fields) =
    rw (groups-run [] (n ∷ b)) (ap (λ l. (n, b) ∷ l) (fields-groups fields))

tail : String → String
tail String.[] = ""
tail (String.◌∷◌ c s) = s

-- What a spelled text begins with: nothing, a stroke, or a letter.
starts : String → ℕ
starts String.[] = 0
starts (String.◌∷◌ c s) = code c

mark-injective : (n m : ℕ) (s t : String) → mark n s ≡ mark m t → (n ≡ m) × (s ≡ t)
unfolding mark tail starts
mark-injective zero zero s t h = (refl, ap tail h)
mark-injective zero (suc m) s t h = absurd (omega (arith, ap starts h))
mark-injective (suc n) zero s t h = absurd (omega (arith, ap starts h))
mark-injective (suc n) (suc m) s t h =
    let (e, rest) = mark-injective n m s t (ap tail h) in (ap suc e, rest)

starts-mark : (n : ℕ) (s : String) → 0 < starts (mark n s)
unfolding mark starts
starts-mark zero s = omega arith
starts-mark (suc n) s = omega arith

spell-injective : (a b : Bytes) → spell a ≡ spell b → a ≡ b
unfolding spell
spell-injective [] [] h = refl
spell-injective [] (n ∷ b) h =
    absurd (unfold starts in omega (arith, ap starts h, starts-mark n (spell b)))
spell-injective (n ∷ a) [] h =
    absurd (unfold starts in omega (arith, ap starts h, starts-mark n (spell a)))
spell-injective (n ∷ a) (m ∷ b) h =
    let (e, rest) = mark-injective n m (spell a) (spell b) h in cc (e, spell-injective a b rest)

address_round : (a : SocketAddress) → read_address (write_address a) ≡ ok a
unfolding read_address write_address
address_round (tcp_ip_v4 a port) = refl
address_round (tcp_ip_v6 a port) = refl
address_round (other_address a) = refl

optional_round : (o : Option Bytes) → read_optional (write_optional o) ≡ ok o
unfolding read_optional write_optional
optional_round none = refl
optional_round (some b) = refl

amount_round : (o : Option ℕ) → read_amount (write_amount o) ≡ ok o
unfolding read_amount write_amount
amount_round none = refl
amount_round (some n) = refl

unfoldable pub plain_formats : Formats
unfolding write_optional read_optional write_amount read_amount read_number write_address
    read_address mark spell write_fields groups to_field
plain_formats = record {
  write_tlv_fields = write_fields;
  read_tlv_fields = λ numbers bytes. ok (λ n. lookup n (map to_field (groups [] bytes)));
  hex_encode = spell;
  array = bytes_codec;
  preimage = record { write = write_optional; read = read_optional };
  amount = record { write = write_amount; read = read_amount };
  variant = record { write = λ n. n ∷ []; read = read_number };
  public_key = bytes_codec;
  socket_address = record { write = write_address; read = read_address };
}

pub plain_formats-IsFaithful : IsFaithful plain_formats
unfolding plain_formats
plain_formats-IsFaithful = record {
  read-write_fields = λ fields h. ap (λ fs. ok (λ n. lookup n fs)) (fields-groups fields);
  hex_encode-injective = spell-injective;
  array_round = λ a. refl;
  preimage_round = optional_round;
  amount_round = amount_round;
  variant_round = λ n. refl;
  public_key_round = λ a. refl;
  socket_address_round = address_round;
}

pub hex_round : (b : Bytes) → hex_decode (plain_formats.hex_encode b) ≡ some b
unfolding plain_formats
hex_round b = ap some (unspell-spell b)
