-- ===== src/Client/Download/Filename.antt =====
-- Which name a `Content-Disposition` header gives to a download.
use Prim.Native.Char.{Char, code}
use mathlib.Core.Option.{some-injective}
use text.Mathlib.TextLemmas.{cons-append, nil-append}
use file_space.Base.{
  List, [], ◌∷◌, All, zero, suc, ◌/◌, ◌%◌, ℕ, String, Bool, true, false, ◌||◌, Option, none, some,
  ◌<>◌, ◌==◌, nat_eq, string_eq, ◌≡◌, refl, ◌∙◌, ap, arith, Bool-cases, ==-cases, inl, inr,
}
use file_space.Base.Effect.{ok}
use file_space.Client.Download.{
  lower, strip, take_until, first_match, extended_at, parse_filename, is_semicolon,
}
use file_space.Base.Text.{get_or}
use file_space.Base.Text.Uri.{decode_uri_component, hex_char, hex_digits, escape}
use file_space.Base.Text.Uri.RoundTrip.{is_kept, encode, decode_uri_component-encode}
use file_space.Base.Text.Uri.Utf8.{octets_onto_lem}
use file_space.Client.Request.{truthy}

-- A text without a character.
abbrev HasNo : ℕ → String → Type 0
HasNo n String.[] = Unit
HasNo n (String.◌∷◌ c s) = (code c == n ≡ false) × HasNo n s

abbrev pub has : ℕ → String → Bool
has n String.[] = false
has n (String.◌∷◌ c s) = code c == n || has n s

has-HasNo : (n : ℕ) (s : String) → has n s ≡ false → HasNo n s
has-HasNo n String.[] e = tt
has-HasNo n (String.◌∷◌ c s) e = (ground (arith, e), has-HasNo n s (ground (arith, e)))

-- No match of a pattern with an asterisk reaches over a semicolon without one.
strip-before_semicolon :
    (p q : String) (c : Char) (r : String)
    → code c ≡ 59
    → HasNo 42 q
    → has 42 p ≡ true
    → has 59 p ≡ false
    → strip p (q <> String.◌∷◌ c r) ≡ none
unfolding strip
strip-before_semicolon String.[] q c r e h star bare = absurd (cc)
strip-before_semicolon (String.◌∷◌ d p) String.[] c r e h star bare =
    rw (nil-append (String.◌∷◌ c r)) (ground (arith, e, bare))
strip-before_semicolon (String.◌∷◌ d p) (String.◌∷◌ b q) c r e (g, h) star bare =
    rw (cons-append b q (String.◌∷◌ c r))
      (ground (arith, g, bare, star, strip-before_semicolon p q c r e h))

strip-append : (p m e : String) → strip p m ≡ some "" → strip p (m <> e) ≡ some e
unfolding strip
strip-append String.[] m e h =
    let empty : m ≡ "" = some-injective m "" h in rw empty (ap (λ s. some s) (nil-append e))
strip-append (String.◌∷◌ d p) String.[] e h = absurd (cc)
strip-append (String.◌∷◌ d p) (String.◌∷◌ c m) e h =
    rw (cons-append c m e) (elim (Bool-cases (lower (code c) == code d)) [
      | inl k ↦ rw k (strip-append p m e (rw k at h))
      | inr k ↦ absurd (let none_some : none ≡ some "" = rw k at h in cc)
    ])

take_until_none : (s : String) → HasNo 59 s → take_until is_semicolon s ≡ s
unfolding take_until
take_until_none String.[] h = refl
take_until_none (String.◌∷◌ c s) (f, h) = rw f (ap (λ r. String.◌∷◌ c r) (take_until_none s h))

first_match_hit :
    (match_at : String → Option String) (s group : String)
    → match_at s ≡ some group
    → first_match match_at s ≡ some group
unfolding first_match
first_match_hit match_at String.[] group h = h
first_match_hit match_at (String.◌∷◌ c s) group h = rw (h, first_match) refl

first_match_miss :
    (c : Char) (s : String)
    → strip "filename*=utf-8''" (String.◌∷◌ c s) ≡ none
    → first_match extended_at (String.◌∷◌ c s) ≡ first_match extended_at s
unfolding first_match extended_at
first_match_miss c s h = rw (h, first_match) refl

abbrev separated : String → String
separated s = String.◌∷◌ ";" (String.◌∷◌ " " s)

first_match-before_semicolon :
    (front s : String)
    → HasNo 42 front
    → first_match extended_at (front <> separated s) ≡ first_match extended_at s
unfolding first_match extended_at strip nat_eq
first_match-before_semicolon String.[] s h = rw (nil-append (separated s)) refl
first_match-before_semicolon (String.◌∷◌ c front) s (f, h) =
    let missed : strip "filename*=utf-8''" (String.◌∷◌ c front <> separated s) ≡ none =
      strip-before_semicolon "filename*=utf-8''" (String.◌∷◌ c front) ";" (String.◌∷◌ " " s) refl
        (f, h) refl refl in
    let stepped : first_match extended_at (String.◌∷◌ c (front <> separated s))
        ≡ first_match extended_at (front <> separated s) =
      first_match_miss c (front <> separated s)
        (rw (cons-append c front (separated s)) at missed) in
    rw (cons-append c front (separated s)) (stepped ∙ first_match-before_semicolon front s h)

extended_marked :
    (encoded : String)
    → HasNo 59 encoded
    → truthy (some encoded) ≡ some encoded
    → extended_at ("filename*=UTF-8''" <> encoded) ≡ some encoded
unfolding extended_at strip nat_eq
extended_marked encoded bare full =
    let rest : strip "filename*=utf-8''" ("filename*=UTF-8''" <> encoded) ≡ some encoded =
      strip-append "filename*=utf-8''" "filename*=UTF-8''" encoded refl in
    rw (rest, take_until_none encoded bare) full

abbrev pub is_empty : String → Bool
is_empty String.[] = true
is_empty (String.◌∷◌ c s) = false

truthy_lem : (s : String) → is_empty s ≡ false → truthy (some s) ≡ some s
truthy_lem s full = elim (==-cases s "") [
  | inl e ↦ absurd (let no : is_empty "" ≡ false = rw e at full in cc)
  | inr e ↦ rw e refl
]

header_present :
    (front s : String)
    → truthy (some (front <> String.◌∷◌ ";" s)) ≡ some (front <> String.◌∷◌ ";" s)
header_present String.[] s = rw (nil-append (String.◌∷◌ ";" s)) (truthy_lem (String.◌∷◌ ";" s) refl)
header_present (String.◌∷◌ c front) s =
    rw (cons-append c front (String.◌∷◌ ";" s))
      (truthy_lem (String.◌∷◌ c (front <> String.◌∷◌ ";" s)) refl)

parse_filename-prefers_extended :
    (front encoded name : String)
    → has 42 front ≡ false
    → has 59 encoded ≡ false
    → truthy (some encoded) ≡ some encoded
    → decode_uri_component encoded ≡ ok name
    → parse_filename (some (front <> separated ("filename*=UTF-8''" <> encoded))) ≡ ok (some name)
unfolding parse_filename
parse_filename-prefers_extended front encoded name plain bare full run =
    let marked = "filename*=UTF-8''" <> encoded in
    let group : extended_at marked ≡ some encoded =
      extended_marked encoded (has-HasNo 59 encoded bare) full in
    let found : first_match extended_at (front <> separated marked) ≡ some encoded =
      first_match-before_semicolon front marked (has-HasNo 42 front plain)
      ∙ first_match_hit extended_at marked encoded group in
    rw (header_present front (String.◌∷◌ " " marked), found, run) refl

get_or-All :
    (P : Char → Type 0) (r : List Char) (i : ℕ) (c : Char) → All P r → P c → P (get_or r i c)
get_or-All P [] i c h d = d
get_or-All P (x ∷ r) zero c (f, h) d = f
get_or-All P (x ∷ r) (suc i) c (f, h) d = get_or-All P r i c h d

hex_char_bare : (n : ℕ) → (code (hex_char n) == 59) ≡ false
unfolding nat_eq
hex_char_bare n =
    get_or-All (λ c. (code c == 59) ≡ false) hex_digits n "0"
      (
        refl,
        (
          refl,
          (
            refl,
            (
              refl,
              (
                refl,
                (
                  refl,
                  (
                    refl,
                    (refl, (refl, (refl, (refl, (refl, (refl, (refl, (refl, (refl, tt))))))))),
                  ),
                ),
              ),
            ),
          ),
        ),
      )
      refl

has-escape : (b : ℕ) (s : String) → has 59 (escape b s) ≡ has 59 s
unfolding nat_eq
has-escape b s = rw (hex_char_bare (b / 16), hex_char_bare (b % 16)) refl

is_empty-encode : (s : String) → is_empty s ≡ false → is_empty (encode s) ≡ false
unfolding encode
is_empty-encode String.[] h = absurd (cc)
is_empty-encode (String.◌∷◌ c s) h = ground arith

has-encode : (s : String) → has 59 (encode s) ≡ false
unfolding encode nat_eq
has-encode String.[] = refl
has-encode (String.◌∷◌ c s) = elim (Bool-cases (is_kept (code c))) [
  | inl kept ↦ rw kept (ground (arith, kept, has-encode s))
  | inr other ↦
      rw other (octets_onto_lem (has 59) escape has-escape (code c) (encode s) ∙ has-encode s)
]

-- A header as the server writes it: an extended name with the escapes of a name that is not empty
-- stands behind the last semicolon, and there is no asterisk in front of that. The name of the download is this name, whatever plain
-- name stands in front.
pub parse_filename-encode :
    (front name : String)
    → has 42 front ≡ false
    → is_empty name ≡ false
    → parse_filename
        (some (front <> String.◌∷◌ ";" (String.◌∷◌ " " ("filename*=UTF-8''" <> encode name))))
      ≡ ok (some name)
parse_filename-encode front name plain full =
    parse_filename-prefers_extended front (encode name) name plain (has-encode name)
      (truthy_lem (encode name) (is_empty-encode name full)) (decode_uri_component-encode name)
