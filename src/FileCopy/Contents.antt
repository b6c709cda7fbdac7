-- ===== src/FileCopy/Contents.antt =====
-- What hw07_file_copying/copy.go leaves in the destination.
use golang_hw.FileCopy.{
  Info, Source, Destination, Files, Write, Copy, ProgressWriter, report, advance, bytes_to_copy,
  new_progress, close_with, write, write_all, copy_part, copy_to, copy_from, copy_file,
}
use golang_hw.Prelude.Int.{ℤ, pos}
use golang_hw.Prelude.{
  ℕ, zero, suc, ◌+◌, ◌-◌, ◌≤◌, true, false, none, some, List, [], ◌∷◌, ◌++◌, inl, inr, ◌≡◌, refl,
  sym, ap, ◌∙◌, length, take, drop, Text, All, arith, if◌then◌else◌, append_assoc, append-nil,
  Bool-cases, take_of_length-le, ltb, ◌==◌,
}

-- The bytes of all writes.
unfoldable pub sent : List Write → Text
sent [] = []
sent (c ∷ writes) = c.data_in ++ sent writes

-- The file took the whole of it.
abbrev pub IsComplete : Write → Type 0
IsComplete c = (c.err ≡ none) × (c.taken ≡ length c.data_in)

-- The contract of `io.CopyN`: without an error it has written exactly the bytes asked for.
pub record IsCopyN (copy_n : Text → ℕ → Copy) : Type 0 where
  pub exact :
      (rest : Text) (n : ℕ)
      → (copy_n rest n).err ≡ none
      → All IsComplete (copy_n rest n).writes × (sent (copy_n rest n).writes ≡ take n rest)

take_all : (l : Text) (n : ℕ) → n ≡ length l → take n l ≡ l
take_all l n h = take_of_length-le n l (omega arith)

report_file : (p : ℤ) (w : ProgressWriter) → (report p w).file ≡ w.file
unfolding report
report_file p w = ground arith

module _ (percent : ℕ → ℕ → ℤ) where
  write_file :
      (c : Write) (w : ProgressWriter)
      → IsComplete c
      → (write percent c w).file ≡ w.file ++ c.data_in
  unfolding write advance
  write_file c w (e, t) =
      let p = if ltb 0 w.total then percent (w.written + c.taken) w.total else pos 100 in
      rw (e) (report_file p (advance c w) ∙ ap (λ l. w.file ++ l) (take_all c.data_in c.taken t))

  write_all_file :
      (writes : List Write) (w : ProgressWriter)
      → All IsComplete writes
      → (write_all percent writes w).file ≡ w.file ++ sent writes
  unfolding write_all sent
  write_all_file [] w h = sym (append-nil w.file)
  write_all_file (c ∷ writes) w (h, k) =
      write_all_file writes (write percent c w) k
      ∙ ap (λ l. l ++ sent writes) (write_file c w h)
      ∙ append_assoc w.file c.data_in (sent writes)

-- What the limit leaves of the rest of the source.
unfoldable pub limited : ℕ → Text → Text
limited limit rest = if limit == 0 then rest else take limit rest

length-drop : (n : ℕ) (l : Text) → length (drop n l) ≡ length l - n
length-drop zero l = omega arith
length-drop (suc n) [] = omega arith
length-drop (suc n) (c ∷ l) = omega (arith, length-drop n l)

take_bytes :
    (bytes : Text) (size offset limit : ℕ)
    → size ≡ length bytes
    → take (bytes_to_copy size offset limit) (drop offset bytes) ≡ limited limit (drop offset bytes)
unfolding bytes_to_copy limited
take_bytes bytes size offset limit h =
    let k = length-drop offset bytes in
    let whole = take_of_length-le (size - offset) (drop offset bytes) (omega arith) in
    elim (Bool-cases (ltb 0 limit)) [
      | inl p ↦ elim (Bool-cases (ltb limit (size - offset))) [
        | inl q ↦ ground arith
        | inr q ↦
            let all = take_of_length-le limit (drop offset bytes) (ground arith) in
            ground (arith, whole, all)
      ]
      | inr p ↦ ground (arith, whole)
    ]

module _ (percent : ℕ → ℕ → ℤ) (copy_n : Text → ℕ → Copy) (contract : IsCopyN copy_n) where
  copy_part_lem :
      (d : Destination) (rest : Text) (n : ℕ)
      → (copy_n rest n).err ≡ none
      → d.close ≡ none
      → ((copy_part percent copy_n d rest n).result ≡ none)
        × ((copy_part percent copy_n d rest n).file ≡ some (take n rest))
  unfolding copy_part close_with new_progress
  copy_part_lem d rest n e c =
      let (full, s) = contract.exact rest n e in
      let w = report (pos 0) (new_progress n) in
      rw (e, c, copy_part)
        (
          refl,
          ap some (
              write_all_file percent (copy_n rest n).writes w full
              ∙ ap (λ l. l ++ sent (copy_n rest n).writes) (report_file (pos 0) (new_progress n))
              ∙ s),
        )

  -- Where the source is a regular file of the size that it says, the offset lies within it and no call
  -- fails on two different files, `Copy` succeeds, and the destination holds the source from the
  -- offset on, cut at the limit unless that is zero.
  pub copy_file-Copies :
      (files : Files) (s : Source) (info : Info) (d : Destination) (offset limit : ℕ)
      → files.source ≡ inr s
      → s.stat ≡ inr info
      → info.is_regular ≡ true
      → info.size ≡ length s.bytes
      → offset ≤ info.size
      → s.seek ≡ none
      → files.destination ≡ inr d
      → d.stat ≡ none
      → d.is_source ≡ false
      → d.truncate ≡ none
      → (copy_n (drop offset s.bytes) (bytes_to_copy info.size offset limit)).err ≡ none
      → d.close ≡ none
      → ((copy_file percent copy_n files (pos offset) (pos limit)).result ≡ none)
        × ((copy_file percent copy_n files (pos offset) (pos limit)).file
            ≡ some (limited limit (drop offset s.bytes)))
  unfolding copy_file copy_from copy_to
  copy_file-Copies files s info d offset limit a b r z o k f g h t e c =
      let n = bytes_to_copy info.size offset limit in
      let (p, q) = copy_part_lem d (drop offset s.bytes) n e c in
      let run : copy_file percent copy_n files (pos offset) (pos limit)
          ≡ copy_part percent copy_n d (drop offset s.bytes) n =
        ground (arith, a, b, r, o, k, f, g, h, t) in
      (
        ap (λ x. x.result) run ∙ p,
        ap (λ x. x.file) run ∙ q ∙ ap some (take_bytes s.bytes info.size offset limit z),
      )
