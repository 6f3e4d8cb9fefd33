-- ===== src/Tests/Answers.antt =====
-- A cycle in an environment that answers.
use file_space.Base.{List, ◌∷◌, [], ◌≡◌, refl, String, string_eq, nat_eq}
use file_space.Base.Dict
use file_space.Base.Dict.{Dict}
use file_space.Base.Effect.{ok}
use file_space.Base.Text.{to_iso_string}
use file_space.Api.Types.{SyncManifestEntry}
use file_space.Sync.Env.{Env}
use file_space.Sync.Progress.{ReconcileResult, manifest_of}
use file_space.Sync.Reconcile.{reconcile}
use file_space.Sync.Reconcile.Cycle.{Learned}
use file_space.Sync.Reconcile.Total.{IsAnswering, reconcile_total}
use file_space.Sync.Scanner.{LocalFileEntry, ScanResult, scan}
use file_space.Tests.World
use file_space.Tests.World.{make_file, make_record, listing, diff, state, conflicts}

-- The folder of the tests with every file readable and of one content.
abbrev env : Env
env = record World.env { get_file = λ h name. ok (make_file name (7 ∷ [])) }

is_answering : IsAnswering env
is_answering = record {
  get_file_handle = λ h name create. refl;
  get_file = λ h name. (make_file name (7 ∷ []), refl);
  array_buffer = λ h f. (f.content, refl);
  create_writable = λ h name. refl;
  write = λ h name b. refl;
  close = λ h name. refl;
  download_file = λ h id. (7 ∷ [], refl);
  upload_file_in_chunks = λ h f. (_, refl);
  digest = λ b. (b, refl);
}

abbrev local : String → String × LocalFileEntry
local name = (name, record { handle = name; size = 1; mtime = 1000; sha256 = "07" })

abbrev scanned : ScanResult
scanned = record {
  entries = local "same" ∷ local "edited" ∷ local "new" ∷ local "broken" ∷ local "clash" ∷ [];
  unreadable_names = [];
}

abbrev manifest_entry : String → SyncManifestEntry
manifest_entry name = record {
  name = name;
  size = 1;
  mtime = "1970-01-01T00:00:01.000Z";
  sha256 = "07";
}

abbrev manifest : List SyncManifestEntry
manifest =
    manifest_entry "same"
    ∷ manifest_entry "edited"
    ∷ manifest_entry "new"
    ∷ manifest_entry "broken"
    ∷ manifest_entry "clash"
    ∷ []

was_scanned : (scan env []).0 ≡ ok scanned
unfolding scan string_eq nat_eq Dict.insert
was_scanned = refl

was_built : manifest_of scanned.entries ≡ ok manifest
unfolding manifest_of to_iso_string nat_eq
was_built = refl

abbrev learned : Learned env state conflicts []
learned = record {
  scanned = scanned;
  manifest = manifest;
  listed = listing;
  diff = diff;
  was_scanned = was_scanned;
  was_listed = refl;
  was_built = was_built;
  was_compared = refl;
}

reconcile_total_example :
    (r : ReconcileResult) × ((reconcile env state conflicts []).0 ≡ ok r)
    × (r.last_synced_version ≡ learned.diff.new_version)
reconcile_total_example = reconcile_total env is_answering state conflicts [] learned
