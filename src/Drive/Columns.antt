-- ===== src/Drive/Columns.antt =====
-- The columns of the file table, frontend/src/columns.tsx, the settings that hide them,
-- frontend/src/SettingsModal.tsx, and the extension filter of frontend/src/App.tsx.
pub mod Fields
pub mod Options
use file_space.Api.Types.{ApiFileRecord}
use file_space.Base.{
  ℕ, String, Bool, true, false, not, Option, none, some, List, [], ◌∷◌, if◌then◌else◌, ◌==◌,
  string_eq, contains, add, filter,
}
use file_space.Base.Effect.{Result, ok, err}
use file_space.Base.Text.{sort}

-- A column definition. `enable_hiding` and `enable_sorting` are true where the source leaves them out.
pub record ColumnDef : Type 0 where
  pub id : String
  pub accessor_key : Option String
  pub header : String
  pub enable_hiding : Bool
  pub enable_sorting : Bool

abbrev data_column : String → String → ColumnDef
data_column key header = record {
  id = key;
  accessor_key = some key;
  header = header;
  enable_hiding = true;
  enable_sorting = true;
}

unfoldable pub create_columns : List ColumnDef
create_columns =
    record (data_column "name" "Name") { enable_hiding = false }
    ∷ data_column "createdAt" "Created"
    ∷ data_column "modifiedAt" "Modified"
    ∷ data_column "uploadedBy" "Uploaded by"
    ∷ data_column "editedBy" "Edited by"
    ∷ record {
      id = "actions";
      accessor_key = none;
      header = "Actions";
      enable_hiding = false;
      enable_sorting = false;
    }
    ∷ []

-- What a definition allows; the table library reads it in `getCanHide` and `getCanSort`.
abbrev pub can_hide : ColumnDef → Bool
can_hide column = column.enable_hiding

abbrev pub can_sort : ColumnDef → Bool
can_sort column = elim column.accessor_key [ none ↦ false | some key ↦ column.enable_sorting ]

-- The columns that the settings offer to hide.
unfoldable pub settings_columns : List ColumnDef → List ColumnDef
settings_columns columns = filter can_hide columns

abbrev pub previewable_extensions : List String
previewable_extensions = "java" ∷ "png" ∷ []

-- The name of such a file is a button that opens the preview.
unfoldable pub is_previewable : ApiFileRecord → Bool
unfolding string_eq
is_previewable file = contains previewable_extensions file.extension

-- The set of the loop over the files.
unfoldable pub collect_extensions : List String → List ApiFileRecord → List String
unfolding string_eq
collect_extensions set [] = set
collect_extensions set (file ∷ files) =
    collect_extensions (if file.extension == "" then set else add set file.extension) files

unfoldable pub extension_options : List ApiFileRecord → List String
unfolding collect_extensions sort
extension_options files = sort (collect_extensions [] files)

-- The value of the filter that a choice of the menu sets.
unfoldable pub choose_extension : String → Option String
unfolding string_eq
choose_extension value = if value == "" then none else some value
