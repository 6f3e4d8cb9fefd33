-- ===== src/Sync/Hash/Injective.antt =====
-- The hex text of a digest, frontend/src/sync/hash.ts, and the digest itself.
use Prim.Native.Char.{code}
use Prim.Native.String.{count}
use file_space.Base.{
  ℕ, zero, suc, ◌+◌, ◌-◌, ◌*◌, ◌<◌, String, ◌<>◌, Bool, true, ◌&&◌, [], ◌∷◌, ◌≡◌, refl, sym, ◌∙◌,
  ap, inl, inr, arith, ◌==◌, nat_eq, if◌then◌else◌, ltb, length, All, ==-cases,
}
use file_space.Sync.Env.{Bytes}
use file_space.Sync.Hash.{hex_byte, hex}
use text.Mathlib.TextLemmas.{append-nil, nil-append, length-append, append_inj}

-- The value of a hex digit, and of a text of them.
abbrev digit_value : ℕ → ℕ
digit_value c = if ltb c 0x3a then c - 0x30 else c - 0x57

abbrev value : ℕ → String → ℕ
value n String.[] = n
value n (String.◌∷◌ c s) = value (n * 16 + digit_value (code c)) s

abbrev is_read_back : ℕ → Bool
is_read_back b = value 0 (hex_byte b) == b && count (hex_byte b) == 2

-- The test of every number below a bound.
abbrev all_below : (ℕ → Bool) → ℕ → Bool
all_below test zero = true
all_below test (suc n) = let rest = all_below test n in test n && rest

all_below_lem :
    (test : ℕ → Bool) (n : ℕ) → all_below test n ≡ true → (b : ℕ) → b < n → test b ≡ true
all_below_lem test zero h b l = absurd (omega arith)
all_below_lem test (suc n) h b l = elim (==-cases b n) [
  | inl e ↦ rw e (ground arith)
  | inr differs ↦ all_below_lem test n (ground arith) b (ground arith)
]

bytes_read_back : all_below is_read_back 256 ≡ true
unfolding hex_byte nat_eq
bytes_read_back = refl

byte_back : (b : ℕ) → b < 256 → (value 0 (hex_byte b) ≡ b) × (count (hex_byte b) ≡ 2)
byte_back b l =
    let both : is_read_back b ≡ true = all_below_lem is_read_back 256 bytes_read_back b l in
    (ground arith, ground arith)

hex-cons : (b : ℕ) (bytes : Bytes) → hex (b ∷ bytes) ≡ hex_byte b <> hex bytes
unfolding hex
hex-cons b [] = sym (append-nil (hex_byte b))
hex-cons b (c ∷ bytes) = ap (λ s. hex_byte b <> s) (nil-append _)

abbrev pub IsByte : ℕ → Type 0
IsByte b = b < 256

count-hex : (bytes : Bytes) → All IsByte bytes → count (hex bytes) ≡ 2 * length bytes
unfolding hex
count-hex [] h = refl
count-hex (b ∷ bytes) (l, h) =
    ap count (hex-cons b bytes)
    ∙ length-append (hex_byte b) (hex bytes)
    ∙ omega (arith, (byte_back b l).1, count-hex bytes h)

-- The hex text of bytes has two characters for each, and two digests with the same text are the
-- same digest, so that a test of the texts is one of the digests. A byte is a number below 256.
pub hex_injective :
    (a b : Bytes)
    → All IsByte a
    → All IsByte b
    → hex a ≡ hex b
    → (a ≡ b) × (count (hex a) ≡ 2 * length a)
hex_injective [] [] h k e = (refl, count-hex [] h)
hex_injective [] (y ∷ b) h k e =
    absurd (omega (arith, sym (count-hex [] h) ∙ ap count e ∙ count-hex (y ∷ b) k))
hex_injective (x ∷ a) [] h k e =
    absurd (omega (arith, sym (count-hex (x ∷ a) h) ∙ ap count e ∙ count-hex [] k))
hex_injective (x ∷ a) (y ∷ b) (i, h) (j, k) e =
    let same : hex_byte x <> hex a ≡ hex_byte y <> hex b = sym (hex-cons x a) ∙ e ∙ hex-cons y b in
    let (head, tail) = append_inj same ((byte_back x i).1 ∙ sym (byte_back y j).1) in
    let first : x ≡ y = sym (byte_back x i).0 ∙ ap (value 0) head ∙ (byte_back y j).0 in
    let rest : a ≡ b = (hex_injective a b h k tail).0 in
    (rw (first, rest) refl, count-hex (x ∷ a) (i, h))
