-- ===== src/Base/Text/Avoids.antt =====
-- Texts without a given character.
use Prim.Native.Char.{Char, code}
use Prim.Native.Nat.{ℕ, zero, suc, ◌-◌, ◌/◌, ◌%◌}
use Prim.Native.String.{String, count, ◌++◌ as ◌<>◌}
use mathlib.Core.Bool.{true, false}
use mathlib.Core.List.{List, [], ◌∷◌}
use mathlib.Core.Logic.{inl, inr}
use mathlib.Core.Option.{none, some}
use mathlib.Core.Path.{◌≡◌, refl, ap}
use native.Mathlib.Omega.{arith}
use text.Mathlib.TextLemmas.{cons-append, nil-append, length-cons}
use file_space.Base.Equality.{ltb, ◌==◌, nat_eq, Bool-cases, Option-cases}
use file_space.Base.Text.{
  get_or, digits, digit, to_string_from, to_string, repeat, pad_start, last_index_of,
}

module _ (n : ℕ) where
  abbrev pub Avoids : String → Type 0
  Avoids String.[] = Unit
  Avoids (String.◌∷◌ c s) = (code c == n ≡ false) × Avoids s

  pub append-Avoids : (s t : String) → Avoids s → Avoids t → Avoids (s <> t)
  append-Avoids String.[] t h k = rw (nil-append t) k
  append-Avoids (String.◌∷◌ c s) t (f, h) k = rw (cons-append c s t) (f, append-Avoids s t h k)

  pub last_index_of-none : (s : String) → Avoids s → last_index_of n s ≡ none
  unfolding last_index_of
  last_index_of-none String.[] h = refl
  last_index_of-none (String.◌∷◌ c s) (f, h) = rw (last_index_of-none s h, f) refl

  pub none-Avoids : (s : String) → last_index_of n s ≡ none → Avoids s
  unfolding last_index_of
  none-Avoids String.[] h = tt
  none-Avoids (String.◌∷◌ c s) h = elim (Option-cases (last_index_of n s)) [
    | inl e ↦ (ground (arith, rw e at h), none-Avoids s e)
    | inr (i, e) ↦ absurd (let some_none : some (suc i) ≡ none = rw e at h in cc)
  ]

  repeat-Avoids : (k : ℕ) (fill : String) → Avoids fill → Avoids (repeat k fill)
  repeat-Avoids zero fill h = tt
  repeat-Avoids (suc k) fill h = append-Avoids fill (repeat k fill) h (repeat-Avoids k fill h)

  pub pad_start-Avoids :
      (width : ℕ) (fill s : String) → Avoids fill → Avoids s → Avoids (pad_start width fill s)
  unfolding pad_start
  pad_start-Avoids width fill s h k =
      append-Avoids (repeat (width - count s) fill) s (repeat-Avoids (width - count s) fill h) k

  pub last_index_of-Avoids :
      (s t : String) → Avoids t → last_index_of n (s <> t) ≡ last_index_of n s
  unfolding last_index_of
  last_index_of-Avoids String.[] t h = rw (nil-append t) (last_index_of-none t h)
  last_index_of-Avoids (String.◌∷◌ d s) t h =
      rw (cons-append d s t, last_index_of, last_index_of-Avoids s t h) refl

  -- What stands in front of the last place of a character, and behind it.
  pub last_index_of-append :
      (s t : String) (c : Char)
      → code c == n ≡ true
      → Avoids t
      → last_index_of n (s <> String.◌∷◌ c t) ≡ some (count s)
  unfolding last_index_of
  last_index_of-append String.[] t c e h =
      rw (nil-append (String.◌∷◌ c t), last_index_of-none t h, e) refl
  last_index_of-append (String.◌∷◌ d s) t c e h =
      rw
        (
          cons-append d s (String.◌∷◌ c t),
          last_index_of,
          last_index_of-append s t c e h,
          length-cons d s,
        )
        (ap (λ k. some k) (omega arith))

  abbrev AllAvoid : List String → Type 0
  AllAvoid [] = Unit
  AllAvoid (s ∷ r) = Avoids s × AllAvoid r

  get_or-Avoids : (r : List String) (i : ℕ) → AllAvoid r → Avoids (get_or r i "")
  get_or-Avoids [] i h = tt
  get_or-Avoids (s ∷ r) zero (f, h) = f
  get_or-Avoids (s ∷ r) (suc i) (f, h) = get_or-Avoids r i h

  to_string-Avoids :
      AllAvoid digits
      → (base fuel k : ℕ) (out : String) → Avoids out
      → Avoids (to_string_from base fuel k out)
  unfolding to_string_from digit
  to_string-Avoids h base zero k out o = o
  to_string-Avoids h base (suc fuel) k out o = elim (Bool-cases (ltb k base)) [
    | inl e ↦ rw e (append-Avoids (digit k) out (get_or-Avoids digits k h) o)
    | inr e ↦ rw e (
        to_string-Avoids h base fuel (k / base) (digit (k % base) <> out)
          (append-Avoids (digit (k % base)) out (get_or-Avoids digits (k % base) h) o))
  ]

-- No number has a full stop.
pub to_string-no_stop : (base k : ℕ) → Avoids b'.' (to_string base k)
unfolding to_string nat_eq
to_string-no_stop base k = to_string-Avoids b'.' no_stop base (suc k) k "" tt
  where
    no_stop : AllAvoid b'.' digits
    no_stop =
        let d : (false ≡ false) × Unit {0} = (refl, tt) in
        (d, (d, (d, (d, (d, (d, (d, (d, (d, (d, (d, (d, (d, (d, (d, (d, tt))))))))))))))))
