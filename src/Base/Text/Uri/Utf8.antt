-- ===== src/Base/Text/Uri/Utf8.antt =====
-- The octets of a character in UTF-8, and their decoding.
use Prim.Native.Char.{Char, char, code, IsScalar}
use Prim.Native.Nat.{ℕ, suc, ◌+◌, ◌-◌, ◌*◌, ◌/◌, ◌%◌, ◌≤◌, ◌<◌, Ordering, compare}
use Prim.Native.String.{String}
use mathlib.Core.Bool.{Bool, true, false, ◌&&◌}
use mathlib.Core.List.{List, ◌∷◌}
use mathlib.Core.Logic.{inl, inr}
use mathlib.Core.Option.{some}
use mathlib.Core.Path.{◌≡◌, refl, ◌∙◌}
use native.Mathlib.Omega.{arith}
use file_space.Base.Equality.{ltb, leb, nat_eq, Bool-cases}
use file_space.Base.Text.Uri.{
  octets_onto, Scalars, char_of_orders, char_of, Piece, octet, cons_char, decode_from,
}

-- What no octet in front changes, the octets of a character do not.
pub octets_onto_lem {ℓ κ} :
    {A : Type ℓ} {B : Type κ} (f : A → B) (cons : ℕ → A → A)
    → ((b : ℕ) (a : A) → f (cons b a) ≡ f a)
    → (n : ℕ) (r : A) → f (octets_onto cons n r) ≡ f r
octets_onto_lem f cons h n r =
    let one = h (128 + n % 64) r in
    let two = h (128 + n / 64 % 64) (cons (128 + n % 64) r) ∙ one in
    elim (Bool-cases (ltb n 128)) [
      | inl e ↦ rw e (h n r)
      | inr e ↦ elim (Bool-cases (ltb n 2048)) [
        | inl e' ↦ rw (e, e') (h (192 + n / 64) (cons (128 + n % 64) r) ∙ one)
        | inr e' ↦ elim (Bool-cases (ltb n 65536)) [
          | inl e'' ↦
              rw (e, e', e'')
                (h (224 + n / 4096) (cons (128 + n / 64 % 64) (cons (128 + n % 64) r)) ∙ two)
          | inr e'' ↦
              rw (e, e', e'')
                (h (240 + n / 262144)
                    (cons (128 + n / 4096 % 64) (cons (128 + n / 64 % 64) (cons (128 + n % 64) r)))
                  ∙ h (128 + n / 4096 % 64) (cons (128 + n / 64 % 64) (cons (128 + n % 64) r))
                  ∙ two)
        ]
      ]
    ]

char_of-code : (c : Char) → char_of (code c) ≡ some c
unfolding char_of
char_of-code (char n p) = orders (compare n 55296) (compare 57343 n) (compare n 1114112) (λ q. q) p
  where
    orders :
        (a b c : Ordering) (f : Scalars a b c → IsScalar n) (p : Scalars a b c)
        → char_of_orders n a b c f ≡ some (char n (f p))
    orders Ordering.lt b c f p = refl
    orders Ordering.eq Ordering.lt Ordering.lt f p = refl
    orders Ordering.gt Ordering.lt Ordering.lt f p = refl
    orders Ordering.eq Ordering.lt Ordering.eq f p = elim p [ ]
    orders Ordering.eq Ordering.lt Ordering.gt f p = elim p [ ]
    orders Ordering.eq Ordering.eq c f p = elim p [ ]
    orders Ordering.eq Ordering.gt c f p = elim p [ ]
    orders Ordering.gt Ordering.lt Ordering.eq f p = elim p [ ]
    orders Ordering.gt Ordering.lt Ordering.gt f p = elim p [ ]
    orders Ordering.gt Ordering.eq c f p = elim p [ ]
    orders Ordering.gt Ordering.gt c f p = elim p [ ]

start_two :
    (b : ℕ) (r : List Piece)
    → 192 ≤ b
    → b < 224
    → decode_from 0 0 0 (octet b ∷ r) ≡ decode_from 1 (b - 192) 128 r
unfolding decode_from
start_two b r h k = ground arith

start_three :
    (b : ℕ) (r : List Piece)
    → 224 ≤ b
    → b < 240
    → decode_from 0 0 0 (octet b ∷ r) ≡ decode_from 2 (b - 224) 2048 r
unfolding decode_from
start_three b r h k = ground arith

start_four :
    (b : ℕ) (r : List Piece)
    → 240 ≤ b
    → b < 248
    → decode_from 0 0 0 (octet b ∷ r) ≡ decode_from 3 (b - 240) 65536 r
unfolding decode_from
start_four b r h k = ground arith

go_on :
    (k v l b : ℕ) (r : List Piece)
    → 128 ≤ b
    → b < 192
    → decode_from (suc (suc k)) v l (octet b ∷ r) ≡ decode_from (suc k) (v * 64 + (b - 128)) l r
unfolding decode_from
go_on k v l b r h h' = let e : (leb 128 b && ltb b 192) ≡ true = ground arith in rw e refl

-- The last octet of a character.
finish :
    (c : Char) (v l b : ℕ) (r : List Piece) (s : String)
    → 128 ≤ b
    → b < 192
    → l ≤ code c
    → v * 64 + (b - 128) ≡ code c
    → decode_from 0 0 0 r ≡ some s
    → decode_from 1 v l (octet b ∷ r) ≡ some (String.◌∷◌ c s)
unfolding decode_from
finish c v l b r s h h' fits e run =
    let test : (leb 128 b && ltb b 192 && leb l (code c)) ≡ true = ground arith in
    rw (e, test, char_of-code c, run) refl

start_one :
    (b : ℕ) (r : List Piece)
    → b < 128
    → decode_from 0 0 0 (octet b ∷ r) ≡ cons_char (char_of b) (decode_from 0 0 0 r)
unfolding decode_from
start_one b r h = let e : ltb b 128 ≡ true = ground arith in rw e refl

abbrev is_lt : Ordering → Bool
is_lt o = elim o [ Ordering.lt ↦ true | _ ↦ false ]

pub code_lt : (c : Char) → code c < 1114112
code_lt (char n p) = elim (Bool-cases (ltb n 1114112)) [
  | inl e ↦ ground (arith, e)
  | inr e ↦ elim (Bool-cases (ltb n 55296)) [
    | inl e' ↦ ground (arith, e')
    | inr e' ↦ absurd (outside (compare n 55296) (compare 57343 n) (compare n 1114112) p e' e)
  ]
]
  where
    outside : (a b c : Ordering) → Scalars a b c → is_lt a ≡ false → is_lt c ≡ false → ⊥
    outside Ordering.lt b c p e e' = absurd (cc)
    outside Ordering.eq Ordering.lt Ordering.lt p e e' = absurd (cc)
    outside Ordering.gt Ordering.lt Ordering.lt p e e' = absurd (cc)
    outside Ordering.eq Ordering.lt Ordering.eq p e e' = p
    outside Ordering.eq Ordering.lt Ordering.gt p e e' = p
    outside Ordering.eq Ordering.eq c p e e' = p
    outside Ordering.eq Ordering.gt c p e e' = p
    outside Ordering.gt Ordering.lt Ordering.eq p e e' = p
    outside Ordering.gt Ordering.lt Ordering.gt p e e' = p
    outside Ordering.gt Ordering.eq c p e e' = p
    outside Ordering.gt Ordering.gt c p e e' = p

module _ (c : Char) (r : List Piece) (s : String) (run : decode_from 0 0 0 r ≡ some s) where
  abbrev n : ℕ
  n = code c

  abbrev last_octet : List Piece
  last_octet = octet (128 + n % 64) ∷ r

  one_octet : n < 128 → decode_from 0 0 0 (octet n ∷ r) ≡ some (String.◌∷◌ c s)
  one_octet h = start_one n r h ∙ rw (char_of-code c, run) refl

  two_octets :
      128 ≤ n
      → n < 2048
      → decode_from 0 0 0 (octet (192 + n / 64) ∷ last_octet) ≡ some (String.◌∷◌ c s)
  two_octets h k =
      start_two (192 + n / 64) last_octet (omega arith) (omega arith)
      ∙ finish c (192 + n / 64 - 192) 128 (128 + n % 64) r s (omega arith) (omega arith) h
          (omega arith) run

  three_octets :
      2048 ≤ n
      → n < 65536
      → decode_from 0 0 0 (octet (224 + n / 4096) ∷ octet (128 + n / 64 % 64) ∷ last_octet)
        ≡ some (String.◌∷◌ c s)
  three_octets h k =
      start_three (224 + n / 4096) (octet (128 + n / 64 % 64) ∷ last_octet) (omega arith)
        (omega arith)
      ∙ go_on 0 (224 + n / 4096 - 224) 2048 (128 + n / 64 % 64) last_octet (omega arith)
          (omega arith)
      ∙ finish c ((224 + n / 4096 - 224) * 64 + (128 + n / 64 % 64 - 128)) 2048 (128 + n % 64) r s
          (omega arith) (omega arith) h (omega arith) run

  four_octets :
      65536 ≤ n
      → decode_from 0 0 0 (
          octet (240 + n / 262144)
          ∷ octet (128 + n / 4096 % 64)
          ∷ octet (128 + n / 64 % 64)
          ∷ last_octet)
        ≡ some (String.◌∷◌ c s)
  four_octets h =
      let bound = code_lt c in
      let v = 240 + n / 262144 - 240 in
      let w = v * 64 + (128 + n / 4096 % 64 - 128) in
      start_four (240 + n / 262144)
        (octet (128 + n / 4096 % 64) ∷ octet (128 + n / 64 % 64) ∷ last_octet) (omega arith)
        (omega arith)
      ∙ go_on 1 v 65536 (128 + n / 4096 % 64) (octet (128 + n / 64 % 64) ∷ last_octet) (omega arith)
          (omega arith)
      ∙ go_on 0 w 65536 (128 + n / 64 % 64) last_octet (omega arith) (omega arith)
      ∙ finish c (w * 64 + (128 + n / 64 % 64 - 128)) 65536 (128 + n % 64) r s (omega arith)
          (omega arith) h (omega arith) run

  pub decode_octets :
      decode_from 0 0 0 (octets_onto (λ b. λ q. octet b ∷ q) n r) ≡ some (String.◌∷◌ c s)
  decode_octets = elim (Bool-cases (ltb n 128)) [
    | inl e ↦ rw e (one_octet (ground (arith, e)))
    | inr e ↦ elim (Bool-cases (ltb n 2048)) [
      | inl e' ↦ rw (e, e') (two_octets (ground (arith, e)) (ground (arith, e')))
      | inr e' ↦ elim (Bool-cases (ltb n 65536)) [
        | inl e'' ↦ rw (e, e', e'') (three_octets (ground (arith, e')) (ground (arith, e'')))
        | inr e'' ↦ rw (e, e', e'') (four_octets (ground (arith, e'')))
      ]
    ]
  ]
