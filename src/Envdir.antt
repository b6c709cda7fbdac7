-- ===== src/Envdir.antt =====
-- hw08_envdir_tool. A directory, the parent's environment and the outcome of a command are what the
-- operating system answers; a text is its bytes. An `Environment` is the list of its entries in the
-- order in which a range visits the map, which may be any.
pub mod Merge
pub mod Names
pub mod Values
mod Tests
use golang_hw.Prelude.Int.{ℤ, pos, negsuc}
use golang_hw.Prelude.{
  ℕ, zero, suc, ◌+◌, Bool, true, false, not, ◌&&◌, ◌||◌, Option, none, some, List, [], ◌∷◌, ◌++◌,
  ◌==◌, if◌then◌else◌, length, map, ltb, Text, codes, text_eq, cut, is_empty,
}

pub record EnvValue : Type 0 where
  pub value : Text
  pub need_remove : Bool

abbrev pub Environment : Type 0
Environment = List (Text × EnvValue)

unfoldable pub find : Environment → Text → Option EnvValue
find [] name = none
find ((n, v) ∷ env) name = if text_eq n name then some v else find env name

-- `environment[name] = value`
unfoldable pub assign : Text → EnvValue → Environment → Environment
assign name value [] = (name, value) ∷ []
assign name value ((n, v) ∷ env) =
    if text_eq n name then (n, value) ∷ env else (n, v) ∷ assign name value env

-- A directory entry, and what reading it as a file gives.
pub record Entry : Type 0 where
  pub name : Text
  pub is_dir : Bool
  pub content : Option Text

-- `content[:lineEnd]` at the first newline
unfoldable pub first_line : Text → Text
first_line [] = []
first_line (c ∷ s) = if c == b'\n' then [] else c ∷ first_line s

-- `bytes.ReplaceAll(content, []byte{0}, []byte{'\n'})`
unfoldable pub replace_nul : Text → Text
replace_nul [] = []
replace_nul (c ∷ s) = (if c == 0 then b'\n' else c) ∷ replace_nul s

abbrev pub is_trimmed : ℕ → Bool
is_trimmed c = c == b' ' || c == b'\t'

-- `strings.TrimRight(s, " \t")`
unfoldable pub trim_right : Text → Text
trim_right [] = []
trim_right (c ∷ s) =
    let rest = trim_right s in if is_empty rest && is_trimmed c then [] else c ∷ rest

unfoldable pub parse_value : Text → EnvValue
unfolding first_line replace_nul trim_right
parse_value content =
    if is_empty content
    then record { value = []; need_remove = true }
    else record { value = trim_right (replace_nul (first_line content)); need_remove = false }

-- `strings.ContainsRune(name, '=')`
unfoldable pub has_equals : Text → Bool
has_equals [] = false
has_equals (c ∷ s) = c == b'=' || has_equals s

-- The loop of `ReadDir`; `none` is the failure to read a file.
unfoldable pub read_entries : Environment → List Entry → Option Environment
unfolding has_equals
read_entries env [] = some env
read_entries env (entry ∷ entries) =
    if entry.is_dir || has_equals entry.name then read_entries env entries else elim entry.content [
      | none ↦ none
      | some content ↦ read_entries (assign entry.name (parse_value content) env) entries
    ]

-- `entries` is what `os.ReadDir` gives.
unfoldable pub read_dir : Option (List Entry) → Option Environment
read_dir none = none
read_dir (some entries) = read_entries [] entries

-- The name of a variable of the parent: what stands before the first `=`, or all of it.
unfoldable pub variable_name : Text → Text
variable_name variable = elim (cut b'=' variable) [ none ↦ variable | some (name, v) ↦ name ]

abbrev pub is_some : {A : Type 0} → Option A → Bool
is_some none = false
is_some (some a) = true

-- The parent's variables that are not overridden.
unfoldable pub inherited : Environment → List Text → List Text
inherited overrides [] = []
inherited overrides (variable ∷ parent) =
    let rest = inherited overrides parent in
    if is_some (find overrides (variable_name variable)) then rest else variable ∷ rest

unfoldable pub added : Environment → List Text
added [] = []
added ((name, v) ∷ overrides) =
    let rest = added overrides in if v.need_remove then rest else (name ++ b'=' ∷ v.value) ∷ rest

unfoldable pub merge_environment : (parent : List Text) → Environment → List Text
merge_environment parent overrides = inherited overrides parent ++ added overrides

-- `strings.HasPrefix(s, prefix)`, with what is behind the prefix.
unfoldable pub strip_prefix : (prefix : Text) → Text → Option Text
strip_prefix [] s = some s
strip_prefix (p ∷ prefix) [] = none
strip_prefix (p ∷ prefix) (c ∷ s) = if p == c then strip_prefix prefix s else none

-- The loop runs from the last variable to the first.
unfoldable pub lookup_environment : List Text → (name : Text) → Option Text
lookup_environment [] name = none
lookup_environment (variable ∷ environment) name = elim (lookup_environment environment name) [
  | some value ↦ some value
  | none ↦ strip_prefix (name ++ b'=' ∷ []) variable
]

abbrev pub error_exit_code : ℤ
error_exit_code = pos 111

-- What `filepath` and `exec.LookPath` do.
pub record Os : Type 0 where
  pub split_list : Text → List Text
  pub join_path : Text → Text → Text
  pub base : Text → Text
  pub look_path : Text → Option Text

-- What `command.Run` gives: success, an `ExitError` with its code and its signal, or another failure.
pub data Run : Type 0 where
  success : Run
  exited : (code : ℤ) (signal : Option ℕ) → Run
  not_run : Run

unfoldable pub exit_code : Run → ℤ
exit_code success = pos 0
exit_code (exited (pos code) signal) = pos code
exit_code (exited (negsuc n) (some signal)) = pos (128 + signal)
exit_code (exited (negsuc n) none) = error_exit_code
exit_code not_run = error_exit_code

module _ (os : Os) where
  -- The loop over the directories of PATH.
  unfoldable pub look_in : List Text → (file : Text) → Option Text
  look_in [] file = none
  look_in (d ∷ directories) file =
      let rest = look_in directories file in
      let directory = if is_empty d then codes "." else d in
      let candidate = os.join_path directory file in
      let path =
        if text_eq (os.base candidate) candidate then codes "./" ++ candidate else candidate in
      elim (os.look_path path) [ some resolved ↦ some resolved | none ↦ rest ]

  unfoldable pub look_path_in_environment : (file : Text) → List Text → Option Text
  look_path_in_environment file environment = elim (lookup_environment environment (codes "PATH")) [
    | none ↦ none
    | some path ↦ look_in (os.split_list path) file
  ]

  -- `execute` runs a program, if one was found, with its arguments and its environment.
  unfoldable pub run_cmd :
      (execute : Option Text → List Text → List Text → Run)
      → (parent cmd : List Text) → Environment
      → ℤ
  run_cmd execute parent [] env = error_exit_code
  run_cmd execute parent (name ∷ arguments) env =
      let environment = merge_environment parent env in
      let program =
        if text_eq (os.base name) name
        then look_path_in_environment name environment
        else some name in
      exit_code (execute program arguments environment)

  -- `main` without the program's name: the directory, and the command.
  unfoldable pub run :
      (execute : Option Text → List Text → List Text → Run)
      → (read : Text → Option (List Entry)) → (parent arguments : List Text) → ℤ
  run execute read parent (directory ∷ name ∷ arguments) = elim (read_dir (read directory)) [
    | none ↦ error_exit_code
    | some environment ↦ run_cmd execute parent (name ∷ arguments) environment
  ]
  run execute read parent _ = error_exit_code
