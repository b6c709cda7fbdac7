-- ===== src/FileCopy/Guards.antt =====
-- When hw07_file_copying/copy.go begins to write.
use golang_hw.FileCopy.{
  Info, Source, Destination, Files, Copy, Outcome, copy_part, copy_to, copy_from, copy_file,
  refused, Error, bytes_to_copy, failed, open_source, stat_source, seek_source, open_destination,
  stat_destination, truncate_destination, same_file, unsupported_file, offset_exceeds_file_size,
  negative_offset, negative_limit,
}
use golang_hw.Prelude.Int.{ℤ, pos, negsuc}
use golang_hw.Prelude.{
  ℕ, ◌≤◌, true, false, Option, none, some, inl, inr, ◌≡◌, ◌⊎◌, refl, Text, arith, Bool-cases,
  Option-cases, outcome-cases, ltb, drop, ◌∙◌, sym, subst,
}

-- The destination holds what it held, if it was opened at all.
unfoldable pub Kept : Files → Option Text → Type 0
Kept files file =
    (file ≡ none) ⊎ ((d : Destination) × (files.destination ≡ inr d) × (file ≡ some d.bytes))

-- An error, and nothing was written.
unfoldable pub IsRefused : Files → Outcome → Type 0
IsRefused files out =
    (file : Option Text) × (err : Error) × (out ≡ refused file err) × Kept files file

-- Not the source itself, and emptied.
unfoldable pub MayWrite : Files → Destination → Type 0
MayWrite files d = (files.destination ≡ inr d) × (d.is_source ≡ false) × (d.truncate ≡ none)

-- A regular file with the offset in it.
unfoldable pub MayRead : Files → Source → Info → ℕ → Type 0
MayRead files s info offset =
    (files.source ≡ inr s)
    × (s.stat ≡ inr info)
    × (info.is_regular ≡ true)
    × (offset ≤ info.size)
    × (s.seek ≡ none)

not_opened :
    (files : Files) (out : Outcome) (err : Error) → out ≡ refused none err → IsRefused files out
unfolding IsRefused Kept
not_opened files out err p = (none, err, p, inl refl)

not_emptied :
    (files : Files) (out : Outcome) (d : Destination) (err : Error)
    → files.destination ≡ inr d
    → out ≡ refused (some d.bytes) err
    → IsRefused files out
unfolding IsRefused Kept
not_emptied files out d err h p = (some d.bytes, err, p, inr (d, h, refl))

module _ (percent : ℕ → ℕ → ℤ) (copy_n : Text → ℕ → Copy) where
  unfoldable pub WritesPart : Files → Outcome → Text → ℕ → Type 0
  WritesPart files out rest n =
      (d : Destination) × MayWrite files d × (out ≡ copy_part percent copy_n d rest n)

  unfoldable pub IsBegun : Files → Outcome → (offset limit : ℕ) → Type 0
  IsBegun files out offset limit =
      (s : Source) × (info : Info) × MayRead files s info offset
      × WritesPart files out (drop offset s.bytes) (bytes_to_copy info.size offset limit)

  copy_to_lem :
      (files : Files) (rest : Text) (n : ℕ)
      → IsRefused files (copy_to percent copy_n files.destination rest n)
        ⊎ WritesPart files (copy_to percent copy_n files.destination rest n) rest n
  unfolding copy_to WritesPart MayWrite
  copy_to_lem files rest n = elim (outcome-cases files.destination) [
    | inl (err, h) ↦ inl (
        not_opened files (copy_to percent copy_n files.destination rest n)
          (failed open_destination err) (rw (h, copy_to) refl))
    | inr (d, h) ↦ elim (Option-cases d.stat) [
      | inr (err, k) ↦ inl (
          not_emptied files (copy_to percent copy_n files.destination rest n) d
            (failed stat_destination err) h (rw (h, k, copy_to) refl))
      | inl k ↦ elim (Bool-cases d.is_source) [
        | inl same ↦ inl (
            not_emptied files (copy_to percent copy_n files.destination rest n) d same_file h
              (rw (h, k, same, copy_to) refl))
        | inr other ↦ elim (Option-cases d.truncate) [
          | inr (err, t) ↦ inl (
              not_emptied files (copy_to percent copy_n files.destination rest n) d
                (failed truncate_destination err) h (rw (h, k, other, t, copy_to) refl))
          | inl t ↦ inr (d, (h, other, t), rw (h, k, other, t, copy_to) refl)
        ]
      ]
    ]
  ]

  copy_from_lem :
      (files : Files) (offset limit : ℕ)
      → IsRefused files (copy_from percent copy_n files offset limit)
        ⊎ IsBegun files (copy_from percent copy_n files offset limit) offset limit
  unfolding copy_from IsBegun MayRead WritesPart
  copy_from_lem files offset limit = elim (outcome-cases files.source) [
    | inl (err, h) ↦ inl (
        not_opened files (copy_from percent copy_n files offset limit) (failed open_source err)
          (rw (h, copy_from) refl))
    | inr (s, h) ↦ elim (outcome-cases s.stat) [
      | inl (err, k) ↦ inl (
          not_opened files (copy_from percent copy_n files offset limit) (failed stat_source err)
            (rw (h, k, copy_from) refl))
      | inr (info, k) ↦ elim (Bool-cases info.is_regular) [
        | inr odd ↦ inl (
            not_opened files (copy_from percent copy_n files offset limit) unsupported_file
              (rw (h, k, odd, copy_from) refl))
        | inl regular ↦ elim (Bool-cases (ltb info.size offset)) [
          | inl far ↦ inl (
              not_opened files (copy_from percent copy_n files offset limit)
                offset_exceeds_file_size (rw (h, k, regular, far, copy_from) refl))
          | inr near ↦ elim (Option-cases s.seek) [
            | inr (err, t) ↦ inl (
                not_opened files (copy_from percent copy_n files offset limit)
                  (failed seek_source err) (rw (h, k, regular, near, t, copy_from) refl))
            | inl t ↦
                let rest = drop offset s.bytes in
                let n = bytes_to_copy info.size offset limit in
                let run : copy_from percent copy_n files offset limit
                    ≡ copy_to percent copy_n files.destination rest n =
                  rw (h, k, regular, near, t, copy_from) refl in
                elim (copy_to_lem files rest n) [
                  | inl r ↦ inl (subst (IsRefused files) (sym run) r)
                  | inr (d, may, p) ↦
                      inr (s, info, (h, k, regular, ground arith, t), (d, may, run ∙ p))
                ]
          ]
        ]
      ]
    ]
  ]

  -- `Copy` either ends with an error before it writes, and the destination holds what it held if it
  -- was opened; or the offset and the limit are not negative, the source is a regular file that the
  -- offset lies in, the destination is another file, and was emptied, and the copying begins.
  pub copy_file-Guarded :
      (files : Files) (offset limit : ℤ)
      → IsRefused files (copy_file percent copy_n files offset limit)
        ⊎ ((o l : ℕ) × (offset ≡ pos o)
            × (limit ≡ pos l)
            × IsBegun files (copy_file percent copy_n files offset limit) o l)
  unfolding copy_file
  copy_file-Guarded files (negsuc n) limit =
      inl (not_opened files (refused none negative_offset) negative_offset refl)
  copy_file-Guarded files (pos offset) (negsuc n) =
      inl (not_opened files (refused none negative_limit) negative_limit refl)
  copy_file-Guarded files (pos offset) (pos limit) = elim (copy_from_lem files offset limit) [
    | inl r ↦ inl r
    | inr b ↦ inr (offset, limit, refl, refl, b)
  ]
