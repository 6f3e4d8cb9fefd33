-- ===== src/Sync/CopyName/Laws.antt =====
-- The name of a conflict copy, `conflictCopyName` of frontend/src/sync/reconcile.ts.
use Prim.Native.Char.{code}
use Prim.Native.String.{count}
use file_space.Base.{
  ℕ, suc, ◌+◌, String, false, Option, none, some, ◌<>◌, ◌≡◌, refl, sym, ◌∙◌, ap, ◌≢◌, arith, ◌≤◌,
  ◌<◌, ◌==◌, nat_eq, if◌then◌else◌, inl, inr, Option-cases, ==-cases, ◌⊎◌,
}
use file_space.Base.Text.{last_index_of, slice_to, slice_from}
use file_space.Sync.CopyName.{LocalDate, date_suffix, copy_mark, name_copy, conflict_copy_name}
use mathlib.Core.Option.{some-injective, none-ne-some}
use text.Mathlib.TextEquality.{Char-path}
use text.Mathlib.TextLemmas.{length-append, nil-append, cons-append, length-cons}

add_one : (n : ℕ) → n + 1 ≡ suc n
add_one n = omega arith

slices_count :
    (n : ℕ) (s : String) → count s ≤ count (slice_to n s) + (1 + count (slice_from (suc n) s))
unfolding slice_to slice_from
slices_count ℕ.zero String.[] = omega arith
slices_count ℕ.zero (String.◌∷◌ c s) = rw length-cons (omega arith)
slices_count (suc n) String.[] = omega arith
slices_count (suc n) (String.◌∷◌ c s) =
    rw (length-cons c s, length-cons c (slice_to n s)) (omega (arith, slices_count n s))

pub mark_count : (today : LocalDate) → 1 ≤ count (copy_mark today)
mark_count today =
    rw
      (
        length-append " (conflict copy, " (date_suffix today <> ")"),
        length-append (date_suffix today) ")",
        length-cons ")" String.[],
      )
      (omega arith)

count-name_copy :
    (i : Option ℕ) (name : String) (today : LocalDate) → count name < count (name_copy i name today)
count-name_copy none name today =
    rw (length-append name (copy_mark today)) (omega (arith, mark_count today))
count-name_copy (some ℕ.zero) name today =
    rw (length-append name (copy_mark today)) (omega (arith, mark_count today))
count-name_copy (some (suc i)) name today =
    rw
      (
        length-append (slice_to (suc i) name)
            (copy_mark today <> ("." <> slice_from (suc i + 1) name)),
        length-append (copy_mark today) ("." <> slice_from (suc i + 1) name),
        length-append "." (slice_from (suc i + 1) name),
        add_one (suc i),
        length-cons "." String.[],
      )
      (omega (arith, mark_count today, slices_count (suc i) name))

-- The name of a copy is never the name of the file.
pub conflict_copy_name-≢ :
    (name : String) (today : LocalDate) → conflict_copy_name name today ≢ name
unfolding conflict_copy_name
conflict_copy_name-≢ name today e =
    let longer : count name < count name =
      rw e at (count-name_copy (last_index_of b'.' name) name today) in
    omega (arith, longer)

pub dot_append : (s : String) → "." <> s ≡ String.◌∷◌ "." s
dot_append s = cons-append "." String.[] s ∙ ap (String.◌∷◌ ".") (nil-append s)

-- Around its last full stop a text is what stands before it and what stands behind it, and there is
-- no full stop behind it.
pub slices_lem :
    (s : String) (i : ℕ)
    → last_index_of b'.' s ≡ some i
    → (s ≡ slice_to i s <> ("." <> slice_from (suc i) s))
      × (last_index_of b'.' (slice_from (suc i) s) ≡ none)
unfolding last_index_of slice_to slice_from nat_eq
slices_lem String.[] i h = absurd (cc)
slices_lem (String.◌∷◌ c s) i h = elim (Option-cases (last_index_of b'.' s)) [
  | inl e ↦ first_stop i (==-cases (code c) b'.') (rw e at h) e
  | inr (j, e) ↦ later_stop i j (slices_lem s j e) (some-injective _ _ (rw e at h))
]
  where
    first_stop :
        (i : ℕ)
        → (code c ≡ b'.') ⊎ ((code c == b'.') ≡ false)
        → (if code c == b'.' then some 0 else none) ≡ some i
        → last_index_of b'.' s ≡ none
        → (String.◌∷◌ c s ≡ slice_to i (String.◌∷◌ c s) <> ("." <> slice_from i s))
          × (last_index_of b'.' (slice_from i s) ≡ none)
    first_stop i (inl e) k n =
        rw (← zero_i)
          (ap (λ d. String.◌∷◌ d s) (Char-path c "." e) ∙ sym (nil-append _ ∙ dot_append s), n)
      where
        zero_i : 0 ≡ i
        zero_i = some-injective 0 i (rw e at k)
    first_stop i (inr e) k n = absurd (none-ne-some i (rw e at k))

    later_stop :
        (i j : ℕ)
        → (s ≡ slice_to j s <> ("." <> slice_from (suc j) s))
          × (last_index_of b'.' (slice_from (suc j) s) ≡ none)
        → suc j ≡ i
        → (String.◌∷◌ c s ≡ slice_to i (String.◌∷◌ c s) <> ("." <> slice_from i s))
          × (last_index_of b'.' (slice_from i s) ≡ none)
    later_stop i j (same, n) k =
        rw (← k) (ap (String.◌∷◌ c) same ∙ sym (cons-append c (slice_to j s) _), n)

-- A name with a full stop that is not its first character keeps what stands behind the last one: the
-- copy's name is the name with the mark put in front of that full stop.
pub conflict_copy_name-dot :
    (name : String) (today : LocalDate) (i : ℕ)
    → last_index_of b'.' name ≡ some (suc i)
    → (base : String) × (extension : String) × (name ≡ base <> ("." <> extension))
      × (last_index_of b'.' extension ≡ none)
      × (conflict_copy_name name today ≡ base <> (copy_mark today <> ("." <> extension)))
unfolding conflict_copy_name
conflict_copy_name-dot name today i h =
    let (same, n) = slices_lem name (suc i) h in
    (slice_to (suc i) name, slice_from (suc (suc i)) name, same, n, rw (h, add_one (suc i)) refl)
