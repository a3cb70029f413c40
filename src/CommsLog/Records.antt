-- ===== src/CommsLog/Records.antt =====
-- file.go of bus/internal/commslog: `WriteRecord`, in a log of at least one file.
use mathlib.Core.List.{append-nil, append_assoc}
use sessionbus.Base.{
  Bool, [], ap, arith, false, first, first-rest, if_cases, inl, length, ltb, not, refl, rest, subst,
  suc, sym, true, ℕ, ◌&&◌, ◌++◌, ◌+◌, ◌==◌, ◌∙◌, ◌∷◌, ◌≡◌, ◌⊎◌,
}
use sessionbus.CommsLog.File.{
  Faults, Files, RotatingFile, append, appended, body, rotate, write_record,
}
use sessionbus.CommsLog.Loss.{Drops, contents-append, rotate-Drops}
use sessionbus.CommsLog.Rotation.{contents}
use sessionbus.CommsLog.State.{Bytes}
use sessionbus.CommsLog.Writer.{failed}

-- What a call of `WriteRecord` on `f` did: `sent` was appended, all of the record if the call
-- succeeded, and of what the log held nothing is gone, or the oldest file.
pub record IsWritten (k : ℕ) (fs : Files) (raw : Bytes) (r : RotatingFile × Bool) : Type 0 where
  pub sent : Bytes
  pub left : Bytes
  pub lost : Bytes
  pub oldest : (lost ≡ []) ⊎ (lost ≡ body (fs k))
  pub part : sent ++ left ≡ raw
  pub whole : r.1 ≡ true → sent ≡ raw
  pub kept : contents (suc k) fs ++ sent ≡ lost ++ contents (suc k) r.0.files

-- What `append` does: nothing is lost.
record IsAppended (k : ℕ) (fs : Files) (raw : Bytes) (r : RotatingFile × Bool) : Type 0 where
  sent : Bytes
  left : Bytes
  part : sent ++ left ≡ raw
  whole : r.1 ≡ true → sent ≡ raw
  kept : contents (suc k) fs ++ sent ≡ contents (suc k) r.0.files

first-all : (xs : Bytes) → first (length xs) xs ≡ xs
unfolding first
first-all [] = refl
first-all (x ∷ xs) = ap (λ (r : Bytes). x ∷ r) (first-all xs)

untouched-IsAppended :
    (k : ℕ) (f : RotatingFile) (raw : Bytes) → IsAppended k f.files raw (f, false)
untouched-IsAppended k f raw = record {
  sent = [];
  left = raw;
  part = refl;
  whole = λ e. absurd (ground arith);
  kept = append-nil (contents (suc k) f.files);
}

append-IsAppended :
    (k : ℕ) (f : RotatingFile) (raw : Bytes) (count : ℕ) (failed : Bool)
    → IsAppended k f.files raw (append f raw count failed)
unfolding append
append-IsAppended k f raw count failed =
    if_cases (IsAppended k f.files raw) f.is_open
      (λ o. record {
        sent = first count raw;
        left = rest count raw;
        part = first-rest count raw;
        whole = λ e. subst (λ n. first n raw ≡ raw) {x = length raw} (ground arith) (first-all raw);
        kept = sym (contents-append k f.files (first count raw));
      })
      (λ o. untouched-IsAppended k f raw)

-- What was appended to a log from which `rotate` had dropped something.
after-IsAppended :
    (k : ℕ) (fs gs : Files) (raw : Bytes) (r : RotatingFile × Bool)
    → Drops k fs gs
    → IsAppended k gs raw r
    → IsWritten k fs raw r
after-IsAppended k fs gs raw r (d, o, e) w = record {
  sent = w.sent;
  left = w.left;
  lost = d;
  oldest = o;
  part = w.part;
  whole = w.whole;
  kept =
      ap (λ c. c ++ w.sent) e
      ∙ append_assoc d (contents (suc k) gs) w.sent
      ∙ ap (λ c. d ++ c) w.kept;
}

appended-IsAppended :
    (k : ℕ) (f : RotatingFile) (ok : Bool) (raw : Bytes) (count : ℕ) (failed : Bool)
    → IsAppended k f.files raw (appended (f, ok) raw count failed)
unfolding appended
appended-IsAppended k f false raw count failed = untouched-IsAppended k f raw
appended-IsAppended k f true raw count failed = append-IsAppended k f raw count failed

-- Whichever calls of the operating system fail, and however many bytes the write takes, a call of
-- `WriteRecord` on a log of `k + 1` files appends a prefix of the record to the log's bytes, the
-- whole record if it returns nil, and loses of the log nothing or exactly its oldest file.
pub write_record-IsWritten :
    (fails : Faults) (f : RotatingFile) (k : ℕ) (raw : Bytes) (count : ℕ) (failed : Bool)
    → f.max_files ≡ suc k
    → IsWritten k f.files raw (write_record fails f raw count failed)
unfolding write_record
write_record-IsWritten fails f k raw count failed m =
    let P : RotatingFile × Bool → Type 0 = IsWritten k f.files raw in
    if_cases P (ltb f.max_bytes (length raw))
      (λ _.
        after-IsAppended k f.files f.files raw _ ([], inl refl, refl)
          (untouched-IsAppended k f raw))
      λ _.
        if_cases P (not (f.size == 0) && ltb f.max_bytes (f.size + length raw))
          (λ _.
            after-IsAppended k f.files (rotate fails f).0.files raw _ (rotate-Drops fails f k m)
              (appended-IsAppended k (rotate fails f).0 (rotate fails f).1 raw count failed))
          (λ _.
            after-IsAppended k f.files f.files raw _ ([], inl refl, refl)
              (append-IsAppended k f raw count failed))
