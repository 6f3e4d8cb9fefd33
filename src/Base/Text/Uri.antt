-- ===== src/Base/Text/Uri.antt =====
-- `decodeURIComponent`, and the escapes of `URLSearchParams`.
pub mod Utf8
pub mod RoundTrip
use Prim.Native.Char.{Char, char, code, IsScalar}
use Prim.Native.Nat.{ℕ, zero, suc, ◌+◌, ◌-◌, ◌*◌, ◌/◌, ◌%◌, Ordering, compare}
use Prim.Native.String.{String}
use mathlib.Core.Bool.{Bool, true, false, ◌&&◌, ◌||◌}
use mathlib.Core.List.{List, [], ◌∷◌}
use mathlib.Core.Option.{Option, none, some}
use file_space.Base.Effect.{Result, ok, err, error}
use file_space.Base.Text.{get_or}
use file_space.Base.Equality.{ltb, leb, ◌==◌, nat_eq, if◌then◌else◌}

-- The three comparisons of `IsScalar`.
abbrev BothLess : Ordering → Ordering → Type 0
BothLess Ordering.lt Ordering.lt = Unit
BothLess Ordering.lt Ordering.eq = ⊥
BothLess Ordering.lt Ordering.gt = ⊥
BothLess Ordering.eq b = ⊥
BothLess Ordering.gt b = ⊥

abbrev Scalars : Ordering → Ordering → Ordering → Type 0
Scalars Ordering.lt b c = Unit
Scalars Ordering.eq b c = BothLess b c
Scalars Ordering.gt b c = BothLess b c

abbrev char_of_both : (n : ℕ) (b c : Ordering) → (BothLess b c → IsScalar n) → Option Char
char_of_both n Ordering.lt Ordering.lt f = some (char n (f tt))
char_of_both n Ordering.lt Ordering.eq f = none
char_of_both n Ordering.lt Ordering.gt f = none
char_of_both n Ordering.eq c f = none
char_of_both n Ordering.gt c f = none

abbrev char_of_orders : (n : ℕ) (a b c : Ordering) → (Scalars a b c → IsScalar n) → Option Char
char_of_orders n Ordering.lt b c f = some (char n (f tt))
char_of_orders n Ordering.eq b c f = char_of_both n b c f
char_of_orders n Ordering.gt b c f = char_of_both n b c f

-- The character of a code point, if it is one.
char_of : ℕ → Option Char
char_of n = char_of_orders n (compare n 55296) (compare 57343 n) (compare n 1114112) (λ p. p)

-- The number of a hexadecimal digit.
hex_value : ℕ → Option ℕ
hex_value c =
    if leb 48 c && leb c 57
    then some (c - 48)
    else if leb 65 c && leb c 70
    then some (c - 55)
    else if leb 97 c && leb c 102
    then some (c - 87)
    else none

-- A text with escapes is made of characters, octets and escapes that are none.
pub data Piece : Type 0 where
  plain : Char → Piece
  octet : ℕ → Piece
  malformed : Piece

abbrev octet_of : Option ℕ → Option ℕ → Piece
octet_of (some a) (some b) = octet (a * 16 + b)
octet_of (some a) none = malformed
octet_of none b = malformed

pieces : String → List Piece
unfolding hex_value
pieces String.[] = []
pieces (String.◌∷◌ c String.[]) = (if code c == 37 then malformed else plain c) ∷ []
pieces (String.◌∷◌ c (String.◌∷◌ d String.[])) =
    (if code c == 37 then malformed else plain c) ∷ pieces (String.◌∷◌ d String.[])
pieces (String.◌∷◌ c (String.◌∷◌ d (String.◌∷◌ e s))) =
    let escaped = octet_of (hex_value (code d)) (hex_value (code e)) ∷ pieces s in
    let bare = plain c ∷ pieces (String.◌∷◌ d (String.◌∷◌ e s)) in
    if code c == 37 then escaped else bare

abbrev pub cons_char : Option Char → Option String → Option String
cons_char (some c) (some s) = some (String.◌∷◌ c s)
cons_char (some c) none = none
cons_char none s = none

-- The octets of one character in UTF-8: `need` more are to come, `value` is what those before it
-- amount to, and `least` the least code point that takes so many octets.
pub decode_from : (need value least : ℕ) → List Piece → Option String
unfolding char_of
decode_from zero value least [] = some ""
decode_from zero value least (plain c ∷ r) = cons_char (some c) (decode_from 0 0 0 r)
decode_from zero value least (octet b ∷ r) =
    let ascii = cons_char (char_of b) (decode_from 0 0 0 r) in
    let two = decode_from 1 (b - 192) 128 r in
    let three = decode_from 2 (b - 224) 2048 r in
    let four = decode_from 3 (b - 240) 65536 r in
    if ltb b 128
    then ascii
    else if ltb b 192
    then none
    else if ltb b 224
    then two
    else if ltb b 240
    then three
    else if ltb b 248
    then four
    else none
decode_from zero value least (malformed ∷ r) = none
decode_from (suc need) value least [] = none
decode_from (suc need) value least (plain c ∷ r) = none
decode_from (suc zero) value least (octet b ∷ r) =
    let next = value * 64 + (b - 128) in
    let last = cons_char (char_of next) (decode_from 0 0 0 r) in
    if leb 128 b && ltb b 192 && leb least next then last else none
decode_from (suc (suc need)) value least (octet b ∷ r) =
    let more = decode_from (suc need) (value * 64 + (b - 128)) least r in
    if leb 128 b && ltb b 192 then more else none
decode_from (suc need) value least (malformed ∷ r) = none

abbrev as_result : Option String → Result String
as_result (some s) = ok s
as_result none = err (error "URI malformed")

unfoldable pub decode_uri_component : String → Result String
unfolding decode_from pieces
decode_uri_component s = as_result (decode_from 0 0 0 (pieces s))

-- The digits of an octet.
abbrev pub hex_digits : List Char
hex_digits =
    "0" ∷ "1" ∷ "2" ∷ "3" ∷ "4" ∷ "5" ∷ "6" ∷ "7" ∷ "8" ∷ "9" ∷ "A" ∷ "B" ∷ "C" ∷ "D" ∷ "E" ∷ "F"
    ∷ []

abbrev pub hex_char : ℕ → Char
hex_char n = get_or hex_digits n "0"

-- The octets of a code point in UTF-8, in front of others.
abbrev pub octets_onto {ℓ} : {A : Type ℓ} → (ℕ → A → A) → ℕ → A → A
octets_onto cons n r =
    if ltb n 128
    then cons n r
    else if ltb n 2048
    then cons (192 + n / 64) (cons (128 + n % 64) r)
    else if ltb n 65536
    then cons (224 + n / 4096) (cons (128 + n / 64 % 64) (cons (128 + n % 64) r))
    else cons (240 + n / 262144)
        (cons (128 + n / 4096 % 64) (cons (128 + n / 64 % 64) (cons (128 + n % 64) r)))

abbrev pub escape : ℕ → String → String
escape b s = String.◌∷◌ "%" (String.◌∷◌ (hex_char (b / 16)) (String.◌∷◌ (hex_char (b % 16)) s))

-- What `URLSearchParams` writes of the characters of a value, where `*`, `-`, `.` and `_`, letters
-- and digits stand for themselves and a space is a plus sign.
abbrev is_form_kept : ℕ → Bool
is_form_kept n =
    leb 48 n && leb n 57
    || (leb 65 n && leb n 90)
    || (leb 97 n && leb n 122)
    || (n == 42 || n == 45 || n == 46 || n == 95)

unfoldable pub encode_form : String → String
unfolding nat_eq
encode_form String.[] = ""
encode_form (String.◌∷◌ c s) =
    let rest = encode_form s in
    if is_form_kept (code c)
    then String.◌∷◌ c rest
    else if code c == 32
    then String.◌∷◌ "+" rest
    else octets_onto escape (code c) rest
