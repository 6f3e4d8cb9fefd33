-- ===== src/Sync/Panel/Sizes.antt =====
-- How exact the sizes of the conflicts are.
use file_space.Base.{
  ℕ, ◌+◌, ◌*◌, ◌≤◌, ◌<◌, String, [], ◌∷◌, ◌<>◌, ◌≡◌, refl, ◌⊎◌, inl, inr, ltb, leb, arith,
  Bool-cases,
}
use file_space.Base.Text.{to_string}
use file_space.Sync.Panel.{scale, tenths, show_tenths, byte_count}

-- The unit of a divisor.
pub data IsUnit : ℕ → String → Type 0 where
  kilo : IsUnit 1024 "KB"
  mega : IsUnit 1048576 "MB"
  giga : IsUnit 1073741824 "GB"

-- A number of tenths of a unit, at most half a tenth away from the size.
pub record IsRounded (bytes divisor n : ℕ) : Type 0 where
  pub lower : 2 * (n * divisor) ≤ 20 * bytes + divisor
  pub upper : 20 * bytes < 2 * (n * divisor) + divisor

tenths-IsRounded :
    (bytes divisor : ℕ) (unit : String)
    → IsUnit divisor unit
    → IsRounded bytes divisor (tenths bytes divisor)
unfolding tenths
tenths-IsRounded bytes divisor unit kilo = record { lower = omega arith; upper = omega arith }
tenths-IsRounded bytes divisor unit mega = record { lower = omega arith; upper = omega arith }
tenths-IsRounded bytes divisor unit giga = record { lower = omega arith; upper = omega arith }

-- The unit that the loop ends with fits the size.
pub record IsFitting (bytes divisor : ℕ) (unit : String) : Type 0 where
  pub is_unit : IsUnit divisor unit
  pub at_least : divisor ≤ bytes
  pub below : (unit ≡ "GB") ⊎ (bytes < 1024 * divisor)

scale-IsFitting :
    (bytes : ℕ)
    → 1024 ≤ bytes
    → IsFitting bytes
        (scale bytes 1024 "KB" ("MB" ∷ "GB" ∷ [])).0
        (scale bytes 1024 "KB" ("MB" ∷ "GB" ∷ [])).1
unfolding scale
scale-IsFitting bytes big = elim (Bool-cases (leb 1048576 bytes)) [
  | inr k ↦ rw k (record { is_unit = kilo; at_least = big; below = inr (ground (arith, k)) })
  | inl m ↦ elim (Bool-cases (leb 1073741824 bytes)) [
    | inr k ↦
        rw (m, k)
          (record { is_unit = mega; at_least = ground (arith, m); below = inr (ground (arith, k)) })
    | inl g ↦ rw (m, g) (record { is_unit = giga; at_least = ground (arith, g); below = inl refl })
  ]
]

tenths_ge :
    (bytes divisor : ℕ) (unit : String)
    → IsUnit divisor unit
    → divisor ≤ bytes
    → 10 ≤ tenths bytes divisor
unfolding tenths
tenths_ge bytes divisor unit kilo h = omega arith
tenths_ge bytes divisor unit mega h = omega arith
tenths_ge bytes divisor unit giga h = omega arith

tenths_le :
    (bytes divisor : ℕ) (unit : String)
    → IsUnit divisor unit
    → bytes < 1024 * divisor
    → tenths bytes divisor ≤ 10240
unfolding tenths
tenths_le bytes divisor unit kilo h = omega arith
tenths_le bytes divisor unit mega h = omega arith
tenths_le bytes divisor unit giga h = omega arith

-- What is shown of a size.
pub data IsCount (bytes : ℕ) : String → Type 0 where
  whole : bytes < 1024 → IsCount bytes (to_string 10 bytes <> " B")
  scaled :
      (divisor n : ℕ) (unit : String)
      → IsUnit divisor unit
      → divisor ≤ bytes
      → IsRounded bytes divisor n
      → 10 ≤ n
      → (unit ≡ "GB") ⊎ (n ≤ 10240)
      → IsCount bytes (show_tenths n <> (" " <> unit))

-- The size shown below 1024 bytes is exact. From there on it is at least 1.0 of the unit shown, it
-- differs from the size by half a tenth of that unit at most, and below the unit GB it is 1024.0
-- at most.
pub byte_count-IsCount : (bytes : ℕ) → IsCount bytes (byte_count bytes)
unfolding byte_count
byte_count-IsCount bytes = elim (Bool-cases (ltb bytes 1024)) [
  | inl small ↦ rw small (whole (ground (arith, small)))
  | inr big ↦
      let (divisor, unit) = scale bytes 1024 "KB" ("MB" ∷ "GB" ∷ []) in
      let fit = scale-IsFitting bytes (ground (arith, big)) in
      let bound : (unit ≡ "GB") ⊎ (tenths bytes divisor ≤ 10240) = elim fit.below [
        | inl e ↦ inl e
        | inr below ↦ inr (tenths_le bytes divisor unit fit.is_unit below)
      ] in
      rw big (
        scaled divisor (tenths bytes divisor) unit fit.is_unit fit.at_least
          (tenths-IsRounded bytes divisor unit fit.is_unit)
          (tenths_ge bytes divisor unit fit.is_unit fit.at_least) bound)
]
