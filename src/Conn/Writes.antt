-- ===== src/Conn/Writes.antt =====
-- conn.go: `writeFull`, against a socket that takes a part of what it is given.
use mathlib.Core.List.{append_assoc}
use sessionbus.Base.{
  Bool, List, [], ap, arith, first, first-rest, if_cases, if◌then◌else◌, length, length-rest, refl,
  rest, suc, ℕ, ◌++◌, ◌<◌, ◌==◌, ◌∙◌, ◌∷◌, ◌≡◌, ◌≢◌,
}
use sessionbus.Conn.Socket.{Bytes}

-- What one `Write` answers: how many bytes it took, and whether it failed.
pub record Taken : Type 0 where
  pub count : ℕ
  pub failed : Bool

pub data Outcome : Type 0 where
  whole : Outcome
  short_write write_error : Outcome
  -- the socket has not answered the next `Write` yet
  unanswered : Outcome

-- The bytes that the socket took and how the call ends, by the socket's answers.
unfoldable pub write_full : Bytes → List Taken → Bytes × Outcome
unfolding first rest
write_full [] answers = ([], whole)
write_full (b ∷ bs) [] = ([], unanswered)
write_full (b ∷ bs) (a ∷ answers) =
    let body = b ∷ bs in
    let later = write_full (rest a.count body) answers in
    if a.failed
    then (first a.count body, write_error)
    else if a.count == 0
    then ([], short_write)
    else (first a.count body ++ later.0, later.1)

-- The bytes that the socket took and `left` make up the body.
abbrev pub IsPrefix : Bytes → Bytes → Type 0
IsPrefix p body = (left : Bytes) × (p ++ left ≡ body)

-- What holds of a call that ends with `r`, after `n` answers.
record IsWrite (body : Bytes) (n : ℕ) (r : Bytes × Outcome) : Type 0 where
  sent : IsPrefix r.0 body
  all_sent : r.1 ≡ whole → r.0 ≡ body
  waiting : r.1 ≡ unanswered → n < length body

-- One write that took `k` bytes, and the rest of the call.
more-IsWrite :
    (b : ℕ) (bs : Bytes) (k n : ℕ) (r : Bytes × Outcome)
    → k ≢ 0
    → IsWrite (rest k (b ∷ bs)) n r
    → IsWrite (b ∷ bs) (suc n) (first k (b ∷ bs) ++ r.0, r.1)
more-IsWrite b bs k n r h w =
    let body = b ∷ bs in
    let (left, e) = w.sent in
    record {
      sent = (
        left,
        append_assoc (first k body) r.0 left ∙ ap (λ t. first k body ++ t) e ∙ first-rest k body,
      );
      all_sent = λ q. ap (λ t. first k body ++ t) (w.all_sent q) ∙ first-rest k body;
      waiting = λ q. omega (arith, w.waiting q, length-rest k b bs h);
    }

write_full-IsWrite :
    (body : Bytes) (answers : List Taken) → IsWrite body (length answers) (write_full body answers)
unfolding write_full
write_full-IsWrite [] answers = record {
  sent = ([], refl);
  all_sent = λ _. refl;
  waiting = λ e. absurd (ground arith);
}
write_full-IsWrite (b ∷ bs) [] = record {
  sent = (b ∷ bs, refl);
  all_sent = λ e. absurd (ground arith);
  waiting = λ _. omega arith;
}
write_full-IsWrite (b ∷ bs) (a ∷ answers) =
    let ih = write_full-IsWrite (rest a.count (b ∷ bs)) answers in
    if_cases (IsWrite (b ∷ bs) (suc (length answers))) a.failed
      (λ _. record {
        sent = (rest a.count (b ∷ bs), first-rest a.count (b ∷ bs));
        all_sent = λ e. absurd (ground arith);
        waiting = λ e. absurd (ground arith);
      })
      λ _.
        if_cases (IsWrite (b ∷ bs) (suc (length answers))) (a.count == 0)
          (λ _. record {
            sent = (b ∷ bs, refl);
            all_sent = λ e. absurd (ground arith);
            waiting = λ e. absurd (ground arith);
          })
          λ c. more-IsWrite b bs a.count (length answers) _ (ground arith) ih

-- Whatever part of its argument each `Write` takes, `writeFull` has sent a prefix of the body; the
-- whole body if it returns nil; and while it has not returned, it has made fewer writes than the body
-- has bytes.
pub write_full-prefix :
    (body : Bytes) (answers : List Taken)
    → IsPrefix (write_full body answers).0 body
      × ((write_full body answers).1 ≡ whole → (write_full body answers).0 ≡ body)
      × ((write_full body answers).1 ≡ unanswered → length answers < length body)
write_full-prefix body answers =
    let w = write_full-IsWrite body answers in (w.sent, w.all_sent, w.waiting)
