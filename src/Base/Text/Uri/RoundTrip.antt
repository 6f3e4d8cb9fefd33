-- ===== src/Base/Text/Uri/RoundTrip.antt =====
-- Every text is what its escapes are decoded to.
use Prim.Native.Char.{Char, code}
use Prim.Native.Nat.{ℕ, zero, suc, ◌+◌, ◌*◌, ◌/◌, ◌%◌, ◌<◌}
use Prim.Native.String.{String}
use mathlib.Core.Bool.{Bool, false, ◌&&◌, ◌||◌}
use mathlib.Core.List.{List, [], ◌∷◌}
use mathlib.Core.Logic.{inl, inr}
use mathlib.Core.Option.{some}
use mathlib.Core.Path.{◌≡◌, refl, ap, ◌∙◌}
use native.Mathlib.Omega.{arith}
use file_space.Base.Effect.{ok}
use file_space.Base.Equality.{ltb, leb, ◌==◌, nat_eq, if◌then◌else◌, Bool-cases}
use file_space.Base.Text.{get_or}
use file_space.Base.Lists.{length}
use file_space.Base.Text.Uri.{
  hex_digits, hex_char, octets_onto, escape, hex_value, plain, octet, pieces, decode_from,
  decode_uri_component,
}
use file_space.Base.Text.Uri.Utf8.{code_lt, decode_octets}

-- The digits of a list have their numbers as values, from `k` on.
abbrev AreDigits : ℕ → List Char → Type 0
AreDigits k [] = Unit
AreDigits k (c ∷ r) = (hex_value (code c) ≡ some k) × AreDigits (suc k) r

digit_value :
    (r : List Char) (k i : ℕ)
    → AreDigits k r
    → i < length r
    → hex_value (code (get_or r i "0")) ≡ some (k + i)
digit_value [] k i h below = absurd (omega arith)
digit_value (c ∷ r) k zero (f, h) below = f ∙ ap (λ m. some m) (omega arith)
digit_value (c ∷ r) k (suc i) (f, h) below =
    digit_value r (suc k) i h (omega arith) ∙ ap (λ m. some m) (omega arith)

hex_value-hex_char : (n : ℕ) → n < 16 → hex_value (code (hex_char n)) ≡ some n
unfolding hex_value
hex_value-hex_char n h =
    digit_value hex_digits 0 n
      (
        refl,
        (
          refl,
          (
            refl,
            (
              refl,
              (
                refl,
                (
                  refl,
                  (
                    refl,
                    (refl, (refl, (refl, (refl, (refl, (refl, (refl, (refl, (refl, tt))))))))),
                  ),
                ),
              ),
            ),
          ),
        ),
      )
      h
    ∙ ap (λ m. some m) (omega arith)

-- Letters, digits, hyphens, full stops, underscores and tildes stand for themselves.
abbrev pub is_kept : ℕ → Bool
is_kept n =
    leb 48 n && leb n 57
    || (leb 65 n && leb n 90)
    || (leb 97 n && leb n 122)
    || (n == 45 || n == 46 || n == 95 || n == 126)

-- The escapes that the server writes in a header, backend/internal/handler/files.go.
unfoldable pub encode : String → String
unfolding nat_eq
encode String.[] = ""
encode (String.◌∷◌ c s) =
    let rest = encode s in
    if is_kept (code c) then String.◌∷◌ c rest else octets_onto escape (code c) rest

pieces-plain :
    (c : Char) (s : String) → (code c == 37) ≡ false → pieces (String.◌∷◌ c s) ≡ plain c ∷ pieces s
unfolding pieces
pieces-plain c String.[] e = rw e refl
pieces-plain c (String.◌∷◌ d String.[]) e = rw e refl
pieces-plain c (String.◌∷◌ d (String.◌∷◌ d' s)) e = rw e refl

pieces-escape : (b : ℕ) (s : String) → b < 256 → pieces (escape b s) ≡ octet b ∷ pieces s
unfolding pieces nat_eq
pieces-escape b s h =
    let e : b / 16 * 16 + b % 16 ≡ b = omega arith in
    rw (hex_value-hex_char (b / 16) (omega arith), hex_value-hex_char (b % 16) (omega arith), e)
      refl

pieces-octets :
    (n : ℕ) (s : String)
    → n < 1114112
    → pieces (octets_onto escape n s) ≡ octets_onto (λ b. λ q. octet b ∷ q) n (pieces s)
pieces-octets n s bound =
    let last : pieces (escape (128 + n % 64) s) ≡ octet (128 + n % 64) ∷ pieces s =
      pieces-escape (128 + n % 64) s (omega arith) in
    let third = pieces-escape (128 + n / 64 % 64) (escape (128 + n % 64) s) (omega arith) in
    elim (Bool-cases (ltb n 128)) [
      | inl e ↦ rw e (pieces-escape n s (ground (arith, e)))
      | inr e ↦ elim (Bool-cases (ltb n 2048)) [
        | inl e' ↦
            rw (e, e')
              (pieces-escape (192 + n / 64) (escape (128 + n % 64) s) (ground (arith, e'))
                ∙ rw last refl)
        | inr e' ↦ elim (Bool-cases (ltb n 65536)) [
          | inl e'' ↦
              rw (e, e', e'')
                (pieces-escape (224 + n / 4096)
                    (escape (128 + n / 64 % 64) (escape (128 + n % 64) s)) (ground (arith, e''))
                  ∙ rw (third, last) refl)
          | inr e'' ↦
              rw (e, e', e'')
                (pieces-escape (240 + n / 262144)
                    (escape (128 + n / 4096 % 64)
                      (escape (128 + n / 64 % 64) (escape (128 + n % 64) s)))
                    (omega arith)
                  ∙ rw
                      (
                        pieces-escape (128 + n / 4096 % 64)
                            (escape (128 + n / 64 % 64) (escape (128 + n % 64) s)) (omega arith),
                        third,
                        last,
                      )
                      refl)
        ]
      ]
    ]

decode_from-encode : (s : String) → decode_from 0 0 0 (pieces (encode s)) ≡ some s
unfolding encode decode_from pieces
decode_from-encode String.[] = refl
decode_from-encode (String.◌∷◌ c s) =
    let run = decode_from-encode s in
    elim (Bool-cases (is_kept (code c))) [
      | inl kept ↦ rw kept (rw (pieces-plain c (encode s) (ground (arith, kept)), run) refl)
      | inr other ↦ rw other (
          rw (pieces-octets (code c) (encode s) (code_lt c))
            (decode_octets c (pieces (encode s)) s run))
    ]

pub decode_uri_component-encode : (s : String) → decode_uri_component (encode s) ≡ ok s
unfolding decode_uri_component
decode_uri_component-encode s = rw (decode_from-encode s) refl
