-- ===== src/CommsLog/FileTests.antt =====
-- The rotating file on concrete records.
use sessionbus.Base.{
  [], arith, false, first, length, none, refl, some, suc, true, zero, ℕ, ◌∷◌, ◌≡◌, ◌≤◌,
}
use sessionbus.CommsLog.File.{
  Faults, Files, RotatingFile, append, appended, body, create, move_up, rotate, set_file, shift,
  shifted, write_record,
}
use sessionbus.CommsLog.Records.{IsWritten, write_record-IsWritten}
use sessionbus.CommsLog.Rotation.{contents}
use sessionbus.CommsLog.Sizes.{IsSized, write_record-IsSized}
use sessionbus.CommsLog.State.{Bytes}

abbrev no_faults : Faults
no_faults c = false

-- Two files of four bytes, the older one empty.
abbrev small_file : RotatingFile
small_file = record { max_bytes = 4; max_files = 2; is_open = true; size = 3; files = one_file }
  where
    one_file : Files
    one_file zero = some (1 ∷ 2 ∷ 3 ∷ [])
    one_file (suc n) = none

abbrev next_record : Bytes
next_record = 4 ∷ 5 ∷ []

rotates :
    contents 2 (write_record no_faults small_file next_record 2 false).0.files
    ≡ 1 ∷ 2 ∷ 3 ∷ 4 ∷ 5 ∷ []
unfolding write_record rotate shift move_up set_file create shifted append appended first
rotates = refl

write_record-IsWritten_example :
    IsWritten 1 small_file.files next_record (write_record no_faults small_file next_record 2 false)
write_record-IsWritten_example =
    write_record-IsWritten no_faults small_file 1 next_record 2 false refl

small_file-IsSized : IsSized 4 small_file
small_file-IsSized = record { limit = refl; exact = λ _. refl; fit = sizes }
  where
    sizes : (i : ℕ) → length (body (small_file.files i)) ≤ 4
    sizes zero = omega arith
    sizes (suc i) = omega arith

write_record-IsSized_example : IsSized 4 (write_record no_faults small_file next_record 2 false).0
write_record-IsSized_example =
    write_record-IsSized no_faults small_file next_record 2 false (omega arith) small_file-IsSized
