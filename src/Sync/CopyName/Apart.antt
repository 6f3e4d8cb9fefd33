-- ===== src/Sync/CopyName/Apart.antt =====
-- The copies of different files have different names.
use Prim.Native.String.{count}
use file_space.Base.{
  ℕ, zero, suc, ◌+◌, String, Option, none, some, ◌<>◌, ◌≡◌, refl, sym, ◌∙◌, ap, ◌≢◌, arith, ◌⊎◌,
  inl, inr, nat_eq,
}
use mathlib.Core.Option.{some-injective, none-ne-some}
use text.Mathlib.TextLemmas.{length-append, append_assoc, append_inj}
use file_space.Base.Text.{to_string, last_index_of}
use file_space.Base.Text.Avoids.{
  Avoids, append-Avoids, none-Avoids, pad_start-Avoids, last_index_of-Avoids, last_index_of-append,
  to_string-no_stop,
}
use file_space.Sync.CopyName.{LocalDate, pad2, date_suffix, copy_mark, conflict_copy_name}
use file_space.Sync.CopyName.Laws.{
  dot_append, conflict_copy_name-dot, conflict_copy_name-≢, mark_count,
}

pad2-no_stop : (n : ℕ) → Avoids b'.' (pad2 n)
unfolding pad2 last_index_of nat_eq
pad2-no_stop n =
    pad_start-Avoids b'.' 2 "0" (to_string 10 n) (none-Avoids b'.' "0" refl)
      (to_string-no_stop 10 n)

mark-no_stop : (today : LocalDate) → Avoids b'.' (copy_mark today)
unfolding date_suffix last_index_of nat_eq
mark-no_stop today =
    let hyphen = none-Avoids b'.' "-" refl in
    append-Avoids b'.' " (conflict copy, " (date_suffix today <> ")")
      (none-Avoids b'.' " (conflict copy, " refl)
      (append-Avoids b'.' (date_suffix today) ")"
        (append-Avoids b'.' (to_string 10 today.full_year)
          ("-" <> (pad2 (today.month + 1) <> ("-" <> pad2 today.date)))
          (to_string-no_stop 10 today.full_year)
          (append-Avoids b'.' "-" (pad2 (today.month + 1) <> ("-" <> pad2 today.date)) hyphen (
            append-Avoids b'.' (pad2 (today.month + 1)) ("-" <> pad2 today.date)
              (pad2-no_stop (today.month + 1))
              (append-Avoids b'.' "-" (pad2 today.date) hyphen (pad2-no_stop today.date)))))
        (none-Avoids b'.' ")" refl))

module _ (today : LocalDate) where
  abbrev mark : String
  mark = copy_mark today

  -- How the name of a copy is made.
  data IsCopy (name copy : String) : Type 0 where
    dotted :
        (base extension : String)
        → name ≡ base <> ("." <> extension)
        → copy ≡ base <> (mark <> ("." <> extension))
        → last_index_of b'.' copy ≡ some (count base + count mark)
        → IsCopy name copy
    undotted :
        copy ≡ name <> mark
        → (last_index_of b'.' copy ≡ none) ⊎ (last_index_of b'.' copy ≡ some 0)
        → IsCopy name copy

  dotted_index :
      (base extension : String)
      → last_index_of b'.' extension ≡ none
      → last_index_of b'.' (base <> (mark <> ("." <> extension))) ≡ some (count base + count mark)
  unfolding nat_eq
  dotted_index base extension e =
      rw (dot_append extension, sym (append_assoc base mark (String.◌∷◌ "." extension)))
        (last_index_of-append b'.' (base <> mark) extension "." refl (none-Avoids b'.' extension e)
          ∙ ap (λ k. some k) (length-append base mark))

  undotted_index : (name : String) → last_index_of b'.' (name <> mark) ≡ last_index_of b'.' name
  undotted_index name = last_index_of-Avoids b'.' name mark (mark-no_stop today)

  conflict_copy_name-IsCopy :
      (name : String) (o : Option ℕ)
      → last_index_of b'.' name ≡ o
      → IsCopy name (conflict_copy_name name today)
  unfolding conflict_copy_name
  conflict_copy_name-IsCopy name none e = rw e (undotted refl (inl (undotted_index name ∙ e)))
  conflict_copy_name-IsCopy name (some zero) e =
      rw e (undotted refl (inr (undotted_index name ∙ e)))
  conflict_copy_name-IsCopy name (some (suc i)) e =
      let (base, extension, same, bare, copy) = conflict_copy_name-dot name today i e in
      dotted base extension same copy
        (ap (λ s. last_index_of b'.' s) copy ∙ dotted_index base extension bare)

  apart :
      (copy base : String)
      → last_index_of b'.' copy ≡ some (count base + count mark)
      → (last_index_of b'.' copy ≡ none) ⊎ (last_index_of b'.' copy ≡ some 0)
      → ⊥
  apart copy base e (inl n) = none-ne-some (count base + count mark) (sym n ∙ e)
  apart copy base e (inr z) =
      let zero_count = some-injective 0 (count base + count mark) (sym z ∙ e) in
      omega (arith, zero_count, mark_count today)

  same_name : (a b copy : String) → IsCopy a copy → IsCopy b copy → a ≡ b
  same_name a b copy (dotted base ext same made at_) (dotted base' ext' same' made' at') =
      let counts : count base ≡ count base' = omega (
        arith,
        some-injective (count base + count mark) (count base' + count mark) (sym at_ ∙ at'),
      ) in
      let (bases, rests) = append_inj (sym made ∙ made') counts in
      let (marks, exts) = append_inj rests refl in same ∙ rw (bases, exts) refl ∙ sym same'
  same_name a b copy (undotted made at_) (undotted made' at') =
      let lengths : count a + count mark ≡ count b + count mark =
        sym (length-append a mark) ∙ ap count (sym made ∙ made') ∙ length-append b mark in
      (append_inj (sym made ∙ made') (omega (arith, lengths))).0
  same_name a b copy (dotted base ext same made at_) (undotted made' at') =
      absurd (apart copy base at_ at')
  same_name a b copy (undotted made at_) (dotted base ext same made' at') =
      absurd (apart copy base at' at_)

-- The name of a copy is never the name of its file, and on one day the copies of two files with
-- different names have different names.
pub conflict_copy_name_injective :
    (a b : String) (today : LocalDate)
    → (conflict_copy_name a today ≢ a)
      × (conflict_copy_name a today ≡ conflict_copy_name b today → a ≡ b)
conflict_copy_name_injective a b today = (
  conflict_copy_name-≢ a today,
  λ e.
      same_name today a b (conflict_copy_name a today)
        (conflict_copy_name-IsCopy today a (last_index_of b'.' a) refl)
        (rw (sym e) at (conflict_copy_name-IsCopy today b (last_index_of b'.' b) refl)),
)
