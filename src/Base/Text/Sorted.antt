-- ===== src/Base/Text/Sorted.antt =====
-- The order of `names.sort()`.
use Prim.Native.String.{String}
use mathlib.Core.Bool.{true, false, ◌||◌}
use mathlib.Core.List.{List, [], ◌∷◌}
use mathlib.Core.Logic.{inl, inr}
use mathlib.Core.Path.{◌≡◌, refl}
use native.Mathlib.Omega.{arith}
use Prim.Native.Nat.{ℕ}
use file_space.Base.Equality.{◌==◌, string_eq, nat_eq, Bool-cases}
use file_space.Base.Lists.{contains, Distinct}
use file_space.Base.Text.{comes_before, utf16, insert_sorted, sort_onto, sort}

-- The first text of a list is not in front of `s`.
abbrev pub IsHead : String → List String → Type 0
IsHead s [] = Unit
IsHead s (t ∷ r) = comes_before (utf16 t) (utf16 s) ≡ false

abbrev pub IsSorted : List String → Type 0
IsSorted [] = Unit
IsSorted (s ∷ r) = IsHead s r × IsSorted r

comes_before-asymmetric : (a b : List ℕ) → comes_before a b ≡ true → comes_before b a ≡ false
unfolding comes_before
comes_before-asymmetric a [] h = absurd (cc)
comes_before-asymmetric [] (y ∷ b) h = refl
comes_before-asymmetric (x ∷ a) (y ∷ b) h = ground (arith, h, comes_before-asymmetric a b)

contains-insert_sorted :
    (s : String) (r : List String) (t : String)
    → contains (insert_sorted s r) t ≡ (t == s || contains r t)
unfolding insert_sorted
contains-insert_sorted s [] t = refl
contains-insert_sorted s (u ∷ r) t = ground (arith, contains-insert_sorted s r t)

insert_sorted-Distinct :
    (s : String) (r : List String)
    → contains r s ≡ false
    → Distinct r
    → Distinct (insert_sorted s r)
unfolding insert_sorted
insert_sorted-Distinct s [] fresh d = (refl, tt)
insert_sorted-Distinct s (u ∷ r) fresh (f, d) =
    ground (arith, fresh, f, contains-insert_sorted s r u, insert_sorted-Distinct s r)

insert_sorted-IsHead :
    (s u : String) (r : List String)
    → comes_before (utf16 s) (utf16 u) ≡ false
    → IsHead u r
    → IsHead u (insert_sorted s r)
unfolding insert_sorted
insert_sorted-IsHead s u [] e h = e
insert_sorted-IsHead s u (v ∷ r) e h = elim (Bool-cases (comes_before (utf16 s) (utf16 v))) [
  | inl k ↦ rw k e
  | inr k ↦ rw k h
]

insert_sorted-IsSorted : (s : String) (r : List String) → IsSorted r → IsSorted (insert_sorted s r)
unfolding insert_sorted
insert_sorted-IsSorted s [] h = (tt, tt)
insert_sorted-IsSorted s (u ∷ r) (f, h) = elim (Bool-cases (comes_before (utf16 s) (utf16 u))) [
  | inl e ↦ rw e (comes_before-asymmetric (utf16 s) (utf16 u) e, (f, h))
  | inr e ↦ rw e (insert_sorted-IsHead s u r e f, insert_sorted-IsSorted s r h)
]

-- What `sort` makes of a list without repetitions.
pub record IsSortOf (names out : List String) : Type 0 where
  pub is_sorted : IsSorted out
  pub is_distinct : Distinct out
  pub same_members : (s : String) → contains out s ≡ contains names s

sort_onto-IsSortOf :
    (done rest : List String)
    → IsSorted done
    → Distinct done
    → Distinct rest
    → ((s : String) → contains rest s ≡ true → contains done s ≡ false)
    → (IsSorted (sort_onto done rest))
      × (Distinct (sort_onto done rest))
      × ((s : String) → contains (sort_onto done rest) s ≡ (contains done s || contains rest s))
unfolding sort_onto
sort_onto-IsSortOf done [] h d e apart = (h, d, λ s. ground arith)
sort_onto-IsSortOf done (t ∷ rest) h d (f, e) apart =
    let (sorted, distinct, same) =
      sort_onto-IsSortOf (insert_sorted t done) rest (insert_sorted-IsSorted t done h)
        (insert_sorted-Distinct t done (apart t (ground arith)) d) e
        (λ s m. ground (arith, m, f, apart s, contains-insert_sorted t done s)) in
    (sorted, distinct, λ s. ground (arith, same s, contains-insert_sorted t done s))

pub sort-IsSortOf : (names : List String) → Distinct names → IsSortOf names (sort names)
unfolding sort
sort-IsSortOf names d =
    let (sorted, distinct, same) = sort_onto-IsSortOf [] names tt tt d (λ s m. refl) in
    record { is_sorted = sorted; is_distinct = distinct; same_members = same }
