-- ===== src/Envdir/Tests.antt =====
-- A directory with a value, an empty file, and a name that is left out.
use golang_hw.Envdir.Merge.{Unique, overridden, lookup-merge_environment}
use golang_hw.Envdir.{
  Environment, find, Entry, assign, parse_value, first_line, replace_nul, trim_right, has_equals,
  read_entries, read_dir, merge_environment, inherited, added, variable_name, lookup_environment,
  strip_prefix,
}
use golang_hw.Prelude.{true, false, some, List, [], ◌∷◌, ◌≡◌, refl, Text, codes, text_eq, cut}

program : Unit {0}
unfolding read_dir read_entries has_equals parse_value first_line replace_nul trim_right assign
    text_eq find Unique merge_environment inherited added variable_name lookup_environment
    strip_prefix cut
program = tt

abbrev file : Text → Text → Entry
file name content = record { name = name; is_dir = false; content = some content }

abbrev directory : List Entry
directory =
    file (codes "BAR") (codes "bar \t\nmore") ∷ file (codes "GONE") [] ∷ file (codes "A=B") [] ∷ []

abbrev environment : Environment
environment =
    (codes "BAR", record { value = codes "bar"; need_remove = false })
    ∷ (codes "GONE", record { value = []; need_remove = true })
    ∷ []

reads : read_dir (some directory) ≡ some environment
unfolding program
reads = refl

abbrev parent : List Text
parent = codes "GONE=1" ∷ codes "HOME=/" ∷ []

merged : merge_environment parent environment ≡ codes "HOME=/" ∷ codes "BAR=bar" ∷ []
unfolding program
merged = refl

lookup-merge_environment_example :
    lookup_environment (merge_environment parent environment) (codes "HOME")
    ≡ overridden (find environment (codes "HOME")) (lookup_environment parent (codes "HOME"))
unfolding program
lookup-merge_environment_example =
    lookup-merge_environment parent environment (codes "HOME") (refl, (refl, tt))
      ((refl, (refl, (refl, tt))), ((refl, (refl, (refl, (refl, tt)))), tt))
      (refl, (refl, (refl, (refl, tt))))
