-- ===== src/Sync/Panel/LogView.antt =====
-- The lines of the log that the pane shows.
use file_space.Base.{
  ℕ, ◌-◌, String, List, [], ◌∷◌, ◌++◌, ◌≡◌, refl, sym, ◌∙◌, ap, arith, length, take, drop, leb,
  Bool-cases, inl, inr, length-append, length-drop, take-append-drop, take_all, take_front,
}
use mathlib.Core.List.{append_assoc, append-nil}
use file_space.Sync.Panel.{reverse_onto, shown_log}

module _ {ℓ} {A : Type ℓ} where
  -- the specification of `reverse`
  abbrev pub reversed : List A → List A
  reversed [] = []
  reversed (x ∷ xs) = reversed xs ++ (x ∷ [])

  reverse_onto_lem : (out xs : List A) → reverse_onto out xs ≡ reversed xs ++ out
  reverse_onto_lem out [] = refl
  reverse_onto_lem out (x ∷ xs) =
      reverse_onto_lem (x ∷ out) xs ∙ sym (append_assoc (reversed xs) (x ∷ []) out)

  reversed-append : (xs ys : List A) → reversed (xs ++ ys) ≡ reversed ys ++ reversed xs
  reversed-append [] ys = sym (append-nil (reversed ys))
  reversed-append (x ∷ xs) ys =
      rw (reversed-append xs ys) (append_assoc (reversed ys) (reversed xs) (x ∷ []))

  length-reversed : (xs : List A) → length (reversed xs) ≡ length xs
  length-reversed [] = refl
  length-reversed (x ∷ xs) = omega (arith, length-append (reversed xs) (x ∷ []), length-reversed xs)

  last_reversed : (n : ℕ) (xs : List A) → reversed (drop (length xs - n) xs) ≡ take n (reversed xs)
  last_reversed n xs =
      let k = length xs - n in
      elim (Bool-cases (leb n (length xs))) [
        | inl long ↦
            let whole : reversed (drop k xs) ++ reversed (take k xs) ≡ reversed xs =
              sym (reversed-append (take k xs) (drop k xs)) ∙ ap reversed (take-append-drop k xs) in
            let size : length (reversed (drop k xs)) ≡ n =
              ground (arith, long, length-reversed (drop k xs), length-drop k xs) in
            sym (take_front n (reversed (drop k xs)) (reversed (take k xs)) size)
            ∙ ap (λ r. take n r) whole
        | inr short ↦
            let e : k ≡ 0 = ground (arith, short) in
            rw e (sym (take_all n (reversed xs) (ground (arith, short, length-reversed xs))))
      ]

-- The pane shows the last ten lines of the log, the newest first, and all lines of a shorter one.
pub shown_log-newest : (log : List String) → shown_log log ≡ take 10 (reversed log)
unfolding shown_log
shown_log-newest log =
    reverse_onto_lem [] (drop (length log - 10) log)
    ∙ append-nil (reversed (drop (length log - 10) log))
    ∙ last_reversed 10 log
