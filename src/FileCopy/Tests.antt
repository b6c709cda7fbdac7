-- ===== src/FileCopy/Tests.antt =====
-- A copy of two bytes of a file of four, which `io.CopyN` writes at once.
use golang_hw.FileCopy.Contents.{IsCopyN, sent, limited, copy_file-Copies}
use golang_hw.FileCopy.Guards.{IsRefused, IsBegun, copy_file-Guarded}
use golang_hw.FileCopy.Progress.{IsOutput, IsWhole, copy_file-IsOutput}
use golang_hw.FileCopy.{
  Source, Destination, Files, Copy, copy_file, copy_from, copy_to, copy_part, bytes_to_copy,
}
use golang_hw.Prelude.Int.{ℤ, pos}
use golang_hw.Prelude.{
  ℕ, ◌*◌, ◌/◌, true, false, none, some, [], ◌∷◌, inr, ◌≡◌, ◌≢◌, ◌⊎◌, refl, Text, arith, take,
  length, leb, if◌then◌else◌, append-nil, codes, drop,
}

program : Unit {0}
unfolding copy_file copy_from copy_to copy_part bytes_to_copy sent limited
program = tt

abbrev percent : ℕ → ℕ → ℤ
percent written total = pos (written * 100 / total)

abbrev copy_n : Text → ℕ → Copy
copy_n rest n = record {
  writes = record { data_in = take n rest; taken = length (take n rest); err = none } ∷ [];
  err = if leb n (length rest) then none else some (codes "EOF");
}

copy_n-IsCopyN : IsCopyN copy_n
unfolding sent
copy_n-IsCopyN = record { exact = λ rest n e. (((refl, refl), tt), append-nil (take n rest)) }

abbrev source : Source
source = record {
  bytes = codes "abcd";
  stat = inr (record { is_regular = true; size = 4 });
  seek = none;
}

abbrev destination : Destination
destination = record {
  bytes = codes "old";
  stat = none;
  is_source = false;
  truncate = none;
  close = none;
}

abbrev files : Files
files = record { source = inr source; destination = inr destination }

copy_file-Copies_example :
    ((copy_file percent copy_n files (pos 1) (pos 2)).result ≡ none)
    × ((copy_file percent copy_n files (pos 1) (pos 2)).file
        ≡ some (limited 2 (drop 1 (codes "abcd"))))
unfolding program
copy_file-Copies_example =
    copy_file-Copies percent copy_n copy_n-IsCopyN files source
      (record { is_regular = true; size = 4 }) destination 1 2 refl refl refl refl (omega arith)
      refl refl refl refl refl refl refl

copy_file-Guarded_example :
    IsRefused files (copy_file percent copy_n files (pos 9) (pos 2))
    ⊎ ((o l : ℕ) × (pos 9 ≡ pos o)
        × (pos 2 ≡ pos l)
        × IsBegun percent copy_n files (copy_file percent copy_n files (pos 9) (pos 2)) o l)
copy_file-Guarded_example = copy_file-Guarded percent copy_n files (pos 9) (pos 2)

copy_file-IsOutput_example :
    ((copy_file percent copy_n files (pos 1) (pos 2)).result ≢ none)
      × ((copy_file percent copy_n files (pos 1) (pos 2)).output ≡ [])
    ⊎ (IsOutput (copy_file percent copy_n files (pos 1) (pos 2)).output
        × IsWhole percent copy_n (copy_file percent copy_n files (pos 1) (pos 2)))
copy_file-IsOutput_example = copy_file-IsOutput percent copy_n files (pos 1) (pos 2)
