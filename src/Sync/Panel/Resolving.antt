-- ===== src/Sync/Panel/Resolving.antt =====
-- Conflicts that are being resolved, while the pane stays open.
use file_space.Base.{
  String, true, false, not, none, some, List, [], ◌∷◌, ◌++◌, ◌≡◌, refl, sym, ◌∙◌, ◌↔◌, arith, ◌==◌,
  string_eq, contains, contains-concat, filter, contains-filter, Distinct, filter-Distinct,
  Bool-cases, inl, inr,
}
use mathlib.Core.Option.{some-injective}
use file_space.Sync.Panel.{click, finish}

-- The set of the pane, and the conflicts whose handlers run.
pub record Pane : Type 0 where
  pub resolving_names : List String
  pub running : List String

pub data Reachable : Pane → Type 0 where
  opened : Reachable (record { resolving_names = []; running = [] })
  clicked :
      (p : Pane) (name : String) (names : List String)
      → Reachable p
      → click name p.resolving_names ≡ some names
      → Reachable (record { resolving_names = names; running = name ∷ p.running })
  finished :
      (p : Pane) (name : String)
      → Reachable p
      → contains p.running name ≡ true
      → Reachable (record {
        resolving_names = finish name p.resolving_names;
        running = filter (λ n. not (n == name)) p.running;
      })

click-none :
    (name : String) (names : List String) → (click name names ≡ none) ↔ (contains names name ≡ true)
unfolding click
click-none name names = elim (Bool-cases (contains names name)) [
  | inl e ↦ rw e (λ h. refl, λ h. refl)
  | inr e ↦ rw e (λ h. absurd (cc), λ h. absurd (cc))
]

click-some :
    (name : String) (names after : List String)
    → click name names ≡ some after
    → (contains names name ≡ false) × (names ++ (name ∷ []) ≡ after)
unfolding click
click-some name names after h = elim (Bool-cases (contains names name)) [
  | inl e ↦ absurd (let none_some : none ≡ some after = rw e at h in cc)
  | inr e ↦ (e, some-injective (names ++ (name ∷ [])) after (rw e at h))
]

abbrev IsExact : Pane → Type 0
IsExact p =
    Distinct p.running × ((n : String) → contains p.resolving_names n ≡ contains p.running n)

contains-finish :
    (name : String) (names running : List String)
    → ((n : String) → contains names n ≡ contains running n)
    → (n : String)
    → contains (finish name names) n ≡ contains (filter (λ m. not (m == name)) running) n
unfolding finish
contains-finish name names running same n = ground (
  arith,
  same n,
  contains-filter (λ (m : String). not (m == name)) names n,
  contains-filter (λ (m : String). not (m == name)) running n,
)

Reachable-IsExact : (p : Pane) → Reachable p → IsExact p
Reachable-IsExact p opened = (tt, λ n. refl)
Reachable-IsExact p (clicked before name names r e) =
    let (distinct, same) = Reachable-IsExact before r in
    let (fresh, added) = click-some name before.resolving_names names e in
    (
      (sym (same name) ∙ fresh, distinct),
      λ n. rw (sym added) (ground (arith, same n, contains-concat before.resolving_names name n)),
    )
Reachable-IsExact p (finished before name r e) =
    let (distinct, same) = Reachable-IsExact before r in
    (
      filter-Distinct (λ n. not (n == name)) before.running distinct,
      contains-finish name before.resolving_names before.running same,
    )

-- While the pane stays open, the handlers that run are those of different conflicts, and the
-- buttons that are disabled are those of the conflicts whose handlers run.
pub Reachable-Distinct :
    (p : Pane)
    → Reachable p
    → Distinct p.running
      × ((name : String) → (contains p.running name ≡ true) ↔ (click name p.resolving_names ≡ none))
Reachable-Distinct p r =
    let (distinct, same) = Reachable-IsExact p r in
    (distinct, λ name. ground (arith, same name, click-none name p.resolving_names))
