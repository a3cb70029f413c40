-- ===== src/CommsLog/Sizes.antt =====
-- file.go of bus/internal/commslog: no file of the log grows beyond its limit.
use sessionbus.Base.{
  Bool, Option, [], ap, arith, false, first, if_cases, is_none, length, length-append, length-first,
  ltb, none, not, refl, some, suc, sym, true, zero, ℕ, ◌&&◌, ◌++◌, ◌+◌, ◌-◌, ◌==◌, ◌||◌, ◌≡◌, ◌≤◌,
}
use sessionbus.CommsLog.File.{
  Faults, Files, RotatingFile, append, appended, body, create, inspects, move_up, opens_new,
  removes_oldest, renames, rotate, set_file, shift, shifted, stats_new, syncs_and_closes, validates,
  write_record,
}
use sessionbus.CommsLog.Loss.{set_file-at}
use sessionbus.CommsLog.State.{Bytes}
use sessionbus.CommsLog.Writer.{failed}

abbrev AllFit : ℕ → Files → Type 0
AllFit b fs = (i : ℕ) → length (body (fs i)) ≤ b

-- The recorded size of an open file is its size, and every file is within the limit.
pub record IsSized (b : ℕ) (f : RotatingFile) : Type 0 where
  pub limit : f.max_bytes ≡ b
  pub exact : f.is_open ≡ true → f.size ≡ length (body (f.files 0))
  pub fit : (i : ℕ) → length (body (f.files i)) ≤ b

set_file-AllFit :
    (b n : ℕ) (v : Option Bytes) (fs : Files)
    → length (body v) ≤ b
    → AllFit b fs
    → AllFit b (set_file n v fs)
unfolding set_file
set_file-AllFit b n v fs l h i = if_cases (λ o. length (body o) ≤ b) (i == n) (λ _. l) (λ _. h i)

shift-AllFit : (fails : Faults) (b n : ℕ) (fs : Files) → AllFit b fs → AllFit b (shift fails n fs).0
unfolding shift
shift-AllFit fails b zero fs h = h
shift-AllFit fails b (suc n) fs h =
    if_cases P (fails (validates n) || fails (inspects n)) (λ _. h)
      λ _.
        if_cases P (is_none (fs n)) (λ _. shift-AllFit fails b n fs h)
          λ _.
            if_cases P (fails (renames n)) (λ _. h)
              λ _. shift-AllFit fails b n (move_up n fs) (
                unfold move_up in
                set_file-AllFit b n none _ (omega arith)
                  (set_file-AllFit b (suc n) (fs n) fs (h n) h))
  where
    P : Files × Bool → Type 0
    P r = AllFit b r.0

-- What `rotate` leaves: an empty open file if it succeeded.
record IsRotated (b : ℕ) (r : RotatingFile × Bool) : Type 0 where
  sized : IsSized b r.0
  empty : r.1 ≡ true → (r.0.size ≡ 0) × (r.0.files 0 ≡ some [])

create-IsRotated :
    (fails : Faults) (b : ℕ) (f : RotatingFile)
    → f.is_open ≡ false
    → IsSized b f
    → IsRotated b (create fails f)
unfolding create
create-IsRotated fails b f c h =
    if_cases (IsRotated b) (fails opens_new)
      (λ _. record { sized = h; empty = λ e. absurd (ground arith) })
      λ _.
        if_cases (IsRotated b) (fails stats_new)
          (λ _. record {
            sized = record { limit = h.limit; exact = λ o. absurd (ground arith); fit = fitted };
            empty = λ e. absurd (ground arith);
          })
          (λ _. record {
            sized = record {
              limit = h.limit;
              exact = λ _. sym (ap (λ o. length (body o)) (set_file-at 0 (some []) f.files));
              fit = fitted;
            };
            empty = λ _. (refl, set_file-at 0 (some []) f.files);
          })
  where
    fitted : AllFit b (set_file 0 (some []) f.files)
    fitted = set_file-AllFit b 0 (some []) f.files (omega arith) h.fit

shifted-IsRotated :
    (fails : Faults) (b : ℕ) (f : RotatingFile) (gs : Files) (ok : Bool)
    → f.is_open ≡ false
    → f.max_bytes ≡ b
    → AllFit b gs
    → IsRotated b (shifted fails f (gs, ok))
unfolding shifted
shifted-IsRotated fails b f gs false c l h = record {
  sized = record { limit = l; exact = λ o. absurd (ground arith); fit = h };
  empty = λ e. absurd (ground arith);
}
shifted-IsRotated fails b f gs true c l h =
    create-IsRotated fails b (record f { files = gs }) c
      (record { limit = l; exact = λ o. absurd (ground arith); fit = h })

rotate-IsRotated :
    (fails : Faults) (b : ℕ) (f : RotatingFile) → IsSized b f → IsRotated b (rotate fails f)
unfolding rotate
rotate-IsRotated fails b f h =
    if_cases (IsRotated b) (fails syncs_and_closes)
      (λ _. record { sized = h; empty = λ e. absurd (ground arith) })
      λ _.
        if_cases (IsRotated b) (f.max_files == 1) (λ _. create-IsRotated fails b g refl shut)
          λ _.
            if_cases (IsRotated b) (fails removes_oldest)
              (λ _. record { sized = shut; empty = λ e. absurd (ground arith) })
              λ _. shifted-IsRotated fails b g _ _ refl h.limit (
                shift-AllFit fails b n removed
                  (set_file-AllFit b n none f.files (omega arith) h.fit))
  where
    g : RotatingFile
    g = record f { is_open = false }

    n : ℕ
    n = f.max_files - 1

    removed : Files
    removed = set_file n none f.files

    shut : IsSized b g
    shut = record { limit = h.limit; exact = λ o. absurd (ground arith); fit = h.fit }

append-IsSized :
    (b : ℕ) (f : RotatingFile) (raw : Bytes) (count : ℕ) (failed : Bool)
    → f.size + length raw ≤ b
    → count ≤ length raw
    → IsSized b f
    → IsSized b (append f raw count failed).0
unfolding append
append-IsSized b f raw count failed l c h =
    if_cases {A = RotatingFile × Bool} (λ r. IsSized b r.0) f.is_open
      {x = (
        record f {
          files = set_file 0 (some (body (f.files 0) ++ first count raw)) f.files;
          size = f.size + count;
        },
        not failed && count == length raw,
      )}
      (λ o. record {
        limit = h.limit;
        exact = λ _. omega (arith, h.exact o, grown, here);
        fit = set_file-AllFit b 0 _ f.files (omega (arith, h.exact o, grown, l, c)) h.fit;
      })
      (λ _. h)
  where
    grown : length (body (f.files 0) ++ first count raw) ≡ length (body (f.files 0)) + count
    grown =
        omega (arith, length-append (body (f.files 0)) (first count raw), length-first count raw c)

    here :
        length (body (set_file 0 (some (body (f.files 0) ++ first count raw)) f.files 0))
        ≡ length (body (f.files 0) ++ first count raw)
    here =
        ap (λ o. length (body o))
          (set_file-at 0 (some (body (f.files 0) ++ first count raw)) f.files)

appended-IsSized :
    (b : ℕ) (r : RotatingFile × Bool) (raw : Bytes) (count : ℕ) (failed : Bool)
    → length raw ≤ b
    → count ≤ length raw
    → IsRotated b r
    → IsSized b (appended r raw count failed).0
unfolding appended
appended-IsSized b (f, false) raw count failed l c h = h.sized
appended-IsSized b (f, true) raw count failed l c h =
    append-IsSized b f raw count failed (omega (arith, (h.empty refl).0, l)) c h.sized

-- Whichever calls of the operating system fail, if a write takes at most the record, a call of
-- `WriteRecord` keeps the recorded size of an open file exact and every file of the log within
-- `max_bytes`.
pub write_record-IsSized :
    (fails : Faults) (f : RotatingFile) (raw : Bytes) (count : ℕ) (failed : Bool)
    → count ≤ length raw
    → IsSized f.max_bytes f
    → IsSized f.max_bytes (write_record fails f raw count failed).0
unfolding write_record
write_record-IsSized fails f raw count failed c h =
    if_cases P (ltb f.max_bytes (length raw)) (λ _. h)
      λ fits.
        if_cases P (not (f.size == 0) && ltb f.max_bytes (f.size + length raw))
          (λ _.
            appended-IsSized f.max_bytes (rotate fails f) raw count failed (ground arith) c
              (rotate-IsRotated fails f.max_bytes f h))
          (λ room. append-IsSized f.max_bytes f raw count failed (ground arith) c h)
  where
    P : RotatingFile × Bool → Type 0
    P r = IsSized f.max_bytes r.0
