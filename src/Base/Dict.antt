-- ===== src/Base/Dict.antt =====
-- Text-keyed `Map` and `Record` values: association lists in insertion order, one pair for a key.
use file_space.Base.Equality.{◌==◌, string_eq, if◌then◌else◌}
use file_space.Base.Lists.{contains, Distinct}
use Prim.Native.String.{String}
use mathlib.Core.Path.{◌≡◌, refl}
use mathlib.Core.Logic.{◌↔◌}
use mathlib.Core.Bool.{Bool, false, true, ◌||◌}
use mathlib.Core.Option.{Option, none, some}
use mathlib.Core.List.{List, [], ◌∷◌}
use native.Mathlib.Omega.{arith}

abbrev pub Dict {ℓ} : Type ℓ → Type ℓ
Dict V = List (String × V)

module _ {ℓ} {V : Type ℓ} where
  -- `Object.keys(d)`, `map.keys()`
  unfoldable pub keys : Dict V → List String
  keys [] = []
  keys ((k, _) ∷ d) = k ∷ keys d

  -- `d[k]`, `map.get(k)`
  unfoldable pub lookup : String → Dict V → Option V
  lookup k [] = none
  lookup k ((j, v) ∷ d) = if k == j then some v else lookup k d

  -- `k in d`, `map.has(k)`
  unfoldable pub has : String → Dict V → Bool
  has k [] = false
  has k ((j, _) ∷ d) = k == j || has k d

  -- `d[k] = v`, `map.set(k, v)`: a key keeps its place
  unfoldable pub insert : String → V → Dict V → Dict V
  insert k v [] = (k, v) ∷ []
  insert k v ((j, w) ∷ d) = if k == j then (k, v) ∷ d else (j, w) ∷ insert k v d

  -- `delete d[k]`
  unfoldable pub erase : String → Dict V → Dict V
  erase k [] = []
  erase k ((j, w) ∷ d) = let rest = erase k d in if k == j then rest else (j, w) ∷ rest

  pub lookup-nil : (k : String) → lookup k [] ≡ none
  unfolding lookup
  lookup-nil k = refl

  pub lookup-cons :
      (j k : String) (v : V) (d : Dict V)
      → lookup j ((k, v) ∷ d) ≡ (if j == k then some v else lookup j d)
  unfolding lookup
  lookup-cons j k v d = refl

  pub lookup-insert :
      (j k : String) (v : V) (d : Dict V)
      → lookup j (insert k v d) ≡ (if j == k then some v else lookup j d)
  unfolding insert lookup
  lookup-insert j k v [] = refl
  lookup-insert j k v ((i, w) ∷ d) = ground (arith, lookup-insert j k v d)

  pub lookup-erase :
      (j k : String) (d : Dict V) → lookup j (erase k d) ≡ (if j == k then none else lookup j d)
  unfolding erase lookup
  lookup-erase j k [] = ground arith
  lookup-erase j k ((i, w) ∷ d) = ground (arith, lookup-erase j k d)

  pub has-lookup : (k : String) (d : Dict V) → (has k d ≡ false) ↔ (lookup k d ≡ none)
  unfolding has lookup
  has-lookup k [] = ground arith
  has-lookup k ((j, v) ∷ d) = ground (arith, has-lookup k d)

  pub contains-keys : (d : Dict V) (k : String) → contains (keys d) k ≡ has k d
  unfolding keys has
  contains-keys [] k = refl
  contains-keys ((j, v) ∷ d) k = ground (arith, contains-keys d k)

  -- One pair for a key.
  abbrev pub DistinctKeys : Dict V → Type 0
  DistinctKeys d = Distinct (keys d)

  pub has-cons_self : (k : String) (v : V) (d : Dict V) → has k ((k, v) ∷ d) ≡ true
  unfolding has
  has-cons_self k v d = ground arith

  pub has-cons : (j k : String) (v : V) (d : Dict V) → has j ((k, v) ∷ d) ≡ (j == k || has j d)
  unfolding has
  has-cons j k v d = refl

  pub DistinctKeys-cons :
      (k : String) (v : V) (d : Dict V)
      → DistinctKeys ((k, v) ∷ d)
      → (has k d ≡ false) × DistinctKeys d
  unfolding keys
  DistinctKeys-cons k v d (fresh, h) = (rw (← contains-keys d k) fresh, h)

  pub has-insert : (j k : String) (v : V) (d : Dict V) → has j (insert k v d) ≡ (j == k || has j d)
  unfolding insert has
  has-insert j k v [] = refl
  has-insert j k v ((i, w) ∷ d) = ground (arith, has-insert j k v d)

  pub has-erase :
      (j k : String) (d : Dict V) → has j (erase k d) ≡ (if j == k then false else has j d)
  unfolding erase has
  has-erase j k [] = ground arith
  has-erase j k ((i, w) ∷ d) = ground (arith, has-erase j k d)

  pub insert-DistinctKeys :
      (k : String) (v : V) (d : Dict V) → DistinctKeys d → DistinctKeys (insert k v d)
  unfolding insert keys has
  insert-DistinctKeys k v [] h = (refl, tt)
  insert-DistinctKeys k v ((j, w) ∷ d) (fresh, h) = ground (
    arith,
    insert-DistinctKeys k v d h,
    has-insert j k v d,
    contains-keys d j,
    contains-keys (insert k v d) j,
  )

  pub erase-DistinctKeys : (k : String) (d : Dict V) → DistinctKeys d → DistinctKeys (erase k d)
  unfolding erase keys has
  erase-DistinctKeys k [] h = tt
  erase-DistinctKeys k ((j, w) ∷ d) (fresh, h) = ground (
    arith,
    erase-DistinctKeys k d h,
    has-erase j k d,
    contains-keys d j,
    contains-keys (erase k d) j,
  )

pub has-nil {ℓ} : (V : Type ℓ) (k : String) → has {V = V} k [] ≡ false
unfolding has
has-nil V k = refl
