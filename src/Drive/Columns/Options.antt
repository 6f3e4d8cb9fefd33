-- ===== src/Drive/Columns/Options.antt =====
-- The menu of the extension filter.
use file_space.Api.Types.{ApiFileRecord}
use file_space.Base.{
  String, true, false, ◌||◌, some, List, [], ◌∷◌, ◌++◌, ◌≡◌, refl, ◌∙◌, ◌↔◌, inl, inr, arith, ◌==◌,
  string_eq, contains, add, contains-concat, Distinct, if◌then◌else◌, Bool-cases, map, not, ◌&&◌,
}
use file_space.Base.Text.Sorted.{IsSorted, sort-IsSortOf}
use file_space.Drive.Columns.{collect_extensions, extension_options, choose_extension}

abbrev extensions : List ApiFileRecord → List String
extensions = map (λ (f : ApiFileRecord). f.extension)

collect_extensions-contains :
    (set : List String) (files : List ApiFileRecord) (s : String)
    → contains (collect_extensions set files) s
      ≡ (contains set s || (contains (extensions files) s && not (s == "")))
unfolding collect_extensions
collect_extensions-contains set [] s = ground arith
collect_extensions-contains set (file ∷ files) s =
    let step : contains (if file.extension == "" then set else add set file.extension) s
        ≡ (contains set s || ((s == file.extension) && not (s == ""))) =
      ground (arith, contains-concat set file.extension s) in
    collect_extensions-contains (if file.extension == "" then set else add set file.extension) files
      s
    ∙ ground (arith, step)

add-Distinct : (set : List String) (s : String) → Distinct set → Distinct (add set s)
add-Distinct set s d = elim (Bool-cases (contains set s)) [
  | inl e ↦ rw e d
  | inr e ↦ rw e (concat-Distinct set s e d)
]
  where
    concat-Distinct :
        (set : List String) (s : String)
        → contains set s ≡ false
        → Distinct set
        → Distinct (set ++ (s ∷ []))
    concat-Distinct [] s e d = (refl, tt)
    concat-Distinct (t ∷ set) s e (f, d) =
        (ground (arith, contains-concat set s t, e, f), concat-Distinct set s (ground (arith, e)) d)

collect_extensions-Distinct :
    (set : List String) (files : List ApiFileRecord)
    → Distinct set
    → Distinct (collect_extensions set files)
unfolding collect_extensions
collect_extensions-Distinct set [] d = d
collect_extensions-Distinct set (file ∷ files) d = elim (Bool-cases (file.extension == "")) [
  | inl e ↦ rw e (collect_extensions-Distinct set files d)
  | inr e ↦ rw e (
      collect_extensions-Distinct (add set file.extension) files
        (add-Distinct set file.extension d))
]

-- The menu lists the extensions of the files, each once and sorted, and those only. It leaves the
-- empty extension out, and the choice of an extension that it lists filters by that extension.
pub extension_options_complete :
    (files : List ApiFileRecord)
    → let options = extension_options files in
      IsSorted options
      × Distinct options
      × ((s : String)
          → (contains options s ≡ true) ↔ (
              (contains (map (λ (f : ApiFileRecord). f.extension) files) s ≡ true)
              × (choose_extension s ≡ some s)))
unfolding extension_options choose_extension
extension_options_complete files =
    let found =
      sort-IsSortOf (collect_extensions [] files) (collect_extensions-Distinct [] files tt) in
    (
      found.is_sorted,
      found.is_distinct,
      λ s. ground (arith, found.same_members s, collect_extensions-contains [] files s),
    )
