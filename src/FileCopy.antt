-- ===== src/FileCopy.antt =====
-- hw07_file_copying/copy.go and main.go. What the operating system answers is data; `io.CopyN` is a
-- parameter that gives the writes it makes, with the answers to them. The percentage, which the code
-- computes in floating point, is a parameter too. A file is the list of its bytes.
pub mod Contents
pub mod Guards
pub mod Progress
mod Tests
use golang_hw.Prelude.Int.{ℤ, pos, negsuc, eq_ℤ}
use golang_hw.Prelude.{
  ℕ, ◌+◌, ◌-◌, Bool, true, false, not, ◌&&◌, Option, none, some, List, [], ◌∷◌, ◌++◌, ◌⊎◌, inl, inr,
  ltb, if◌then◌else◌, take, drop, Text, is_empty,
}

abbrev pub Failure : Type 0
Failure = Text

-- The calls whose failures are reported with their name.
pub data Call : Type 0 where
  open_source stat_source seek_source open_destination stat_destination : Call
  truncate_destination close_destination copy_contents : Call

pub data Error : Type 0 where
  negative_offset negative_limit unsupported_file offset_exceeds_file_size same_file : Error
  failed : Call → Failure → Error

pub record Info : Type 0 where
  pub is_regular : Bool
  pub size : ℕ

pub record Source : Type 0 where
  pub bytes : Text
  pub stat : Failure ⊎ Info
  pub seek : Option Failure

-- The opened destination, with what it holds by then.
pub record Destination : Type 0 where
  pub bytes : Text
  pub stat : Option Failure
  pub is_source : Bool
  pub truncate : Option Failure
  pub close : Option Failure

pub record Files : Type 0 where
  pub source : Failure ⊎ Source
  pub destination : Failure ⊎ Destination

-- A call of `Write`: the data, how much of it the file took, and the error.
pub record Write : Type 0 where
  pub data_in : Text
  pub taken : ℕ
  pub err : Option Failure

pub record Copy : Type 0 where
  pub writes : List Write
  pub err : Option Failure

-- The lines of the progress output.
pub data Shown : Type 0 where
  copying : ℤ → Shown
  newline : Shown

-- `progressWriter`, with the bytes of the file behind it and the output, the newest first.
pub record ProgressWriter : Type 0 where
  pub file : Text
  pub output : List Shown
  pub total : ℕ
  pub written : ℕ
  pub last_percent : ℤ

-- The error, what the destination holds if it was opened, and the output.
pub record Outcome : Type 0 where
  pub result : Option Error
  pub file : Option Text
  pub output : List Shown

abbrev pub exit_success : ℕ
exit_success = 0

abbrev pub exit_failure : ℕ
exit_failure = 1

abbrev pub exit_usage : ℕ
exit_usage = 2

-- What `flags.Parse` answers, if it accepts the arguments.
pub record Flags : Type 0 where
  pub from_path : Text
  pub to_path : Text
  pub offset : ℤ
  pub limit : ℤ

unfoldable pub report : ℤ → ProgressWriter → ProgressWriter
report percentage w = if eq_ℤ percentage w.last_percent then w else record {
  file = w.file;
  output = copying percentage ∷ w.output;
  total = w.total;
  written = w.written;
  last_percent = percentage;
}

unfoldable pub bytes_to_copy : (size offset limit : ℕ) → ℕ
bytes_to_copy size offset limit =
    if ltb 0 limit && ltb limit (size - offset) then limit else size - offset

unfoldable pub new_progress : ℕ → ProgressWriter
new_progress total = record {
  file = [];
  output = [];
  total = total;
  written = 0;
  last_percent = negsuc 0;
}

-- What the file took, and the count of it.
unfoldable pub advance : Write → ProgressWriter → ProgressWriter
advance c w = record {
  file = w.file ++ take c.taken c.data_in;
  output = w.output;
  total = w.total;
  written = w.written + c.taken;
  last_percent = w.last_percent;
}

unfoldable pub refused : Option Text → Error → Outcome
refused file err = record { result = some err; file = file; output = [] }

-- The deferred `Close` of the destination.
unfoldable pub close_with : Destination → Option Error → Option Error
close_with d (some err) = some err
close_with d none = elim d.close [ none ↦ none | some err ↦ some (failed close_destination err) ]

module _ (percent : ℕ → ℕ → ℤ) where
  -- `Write`
  unfoldable pub write : Write → ProgressWriter → ProgressWriter
  unfolding report advance
  write c w = elim c.err [
    | some err ↦ advance c w
    | none ↦
        report (if ltb 0 w.total then percent (w.written + c.taken) w.total else pos 100)
          (advance c w)
  ]

  unfoldable pub write_all : List Write → ProgressWriter → ProgressWriter
  unfolding write
  write_all [] w = w
  write_all (c ∷ writes) w = write_all writes (write c w)

module _ (percent : ℕ → ℕ → ℤ) (copy_n : Text → ℕ → Copy) where
  -- From `progress := progressWriter{...}` on.
  unfoldable pub copy_part : Destination → Text → ℕ → Outcome
  unfolding write_all report new_progress close_with
  copy_part d rest n =
      let copy = copy_n rest n in
      let w = write_all percent copy.writes (report (pos 0) (new_progress n)) in
      elim copy.err [
        | some err ↦ record {
          result = close_with d (some (failed copy_contents err));
          file = some w.file;
          output = newline ∷ w.output;
        }
        | none ↦ record {
          result = close_with d none;
          file = some w.file;
          output = newline ∷ (report (pos 100) w).output;
        }
      ]

  -- From the opening of the destination on.
  unfoldable pub copy_to : Failure ⊎ Destination → Text → ℕ → Outcome
  unfolding refused copy_part
  copy_to destination rest n = elim destination [
    | inl err ↦ refused none (failed open_destination err)
    | inr d ↦ elim d.stat [
      | some err ↦ refused (some d.bytes) (failed stat_destination err)
      | none ↦ if d.is_source then refused (some d.bytes) same_file else elim d.truncate [
        | some err ↦ refused (some d.bytes) (failed truncate_destination err)
        | none ↦ copy_part d rest n
      ]
    ]
  ]

  -- From the opening of the source on.
  unfoldable pub copy_from : Files → (offset limit : ℕ) → Outcome
  unfolding refused copy_to bytes_to_copy
  copy_from files offset limit = elim files.source [
    | inl err ↦ refused none (failed open_source err)
    | inr s ↦ elim s.stat [
      | inl err ↦ refused none (failed stat_source err)
      | inr info ↦
          if not info.is_regular
          then refused none unsupported_file
          else if ltb info.size offset
          then refused none offset_exceeds_file_size
          else elim s.seek [
            | some err ↦ refused none (failed seek_source err)
            | none ↦
                copy_to files.destination (drop offset s.bytes)
                  (bytes_to_copy info.size offset limit)
          ]
    ]
  ]

  unfoldable pub copy_file : Files → (offset limit : ℤ) → Outcome
  unfolding refused copy_from
  copy_file files (negsuc n) limit = refused none negative_offset
  copy_file files (pos offset) (negsuc n) = refused none negative_limit
  copy_file files (pos offset) (pos limit) = copy_from files offset limit

  -- `run`: the exit code.
  unfoldable pub run : (open_files : Text → Text → Files) → Option Flags → ℕ
  unfolding copy_file
  run open_files flags = elim flags [
    | none ↦ exit_usage
    | some f ↦
        if is_empty f.from_path
        then exit_usage
        else if is_empty f.to_path
        then exit_usage
        else elim (copy_file (open_files f.from_path f.to_path) f.offset f.limit).result [
          | some err ↦ exit_failure
          | none ↦ exit_success
        ]
  ]
