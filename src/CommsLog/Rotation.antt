-- ===== src/CommsLog/Rotation.antt =====
-- file.go of bus/internal/commslog: what rotation loses.
use sessionbus.Base.{
  Bool, [], ap, arith, false, if_cases, is_none, none, refl, suc, sym, true, zero, ℕ, ◌++◌, ◌<◌,
  ◌||◌, ◌∙◌, ◌≡◌, ◌≢◌,
}
use sessionbus.CommsLog.File.{
  Faults, Files, body, inspects, move_up, renames, set_file, shift, validates,
}
use sessionbus.CommsLog.State.{Bytes}

-- The bytes of the first `n` files, oldest first.
abbrev pub contents : ℕ → Files → Bytes
contents zero fs = []
contents (suc n) fs = body (fs n) ++ contents n fs

pub contents-cong :
    (n : ℕ) (fs gs : Files)
    → ((i : ℕ) → i < n → body (fs i) ≡ body (gs i))
    → contents n fs ≡ contents n gs
contents-cong zero fs gs h = refl
contents-cong (suc n) fs gs h =
    ap (λ b. b ++ contents n fs) (h n (omega arith))
    ∙ ap (λ c. body (gs n) ++ c) (contents-cong n fs gs (λ i l. h i (omega (arith, l))))

move_up-next : (n : ℕ) (fs : Files) → move_up n fs (suc n) ≡ fs n
unfolding move_up set_file
move_up-next n fs = ground arith

move_up-here : (n : ℕ) (fs : Files) → move_up n fs n ≡ none
unfolding move_up set_file
move_up-here n fs = ground arith

move_up-other : (n : ℕ) (fs : Files) (i : ℕ) → i ≢ n → i ≢ suc n → move_up n fs i ≡ fs i
unfolding move_up set_file
move_up-other n fs i a b = ground arith

-- The loop keeps the bytes in order, and on its end file 0 is gone.
pub record IsShift (n : ℕ) (fs : Files) (r : Files × Bool) : Type 0 where
  pub above : (i : ℕ) → n < i → r.0 i ≡ fs i
  pub kept : contents (suc n) r.0 ≡ contents (suc n) fs
  pub gone : r.1 ≡ true → body (r.0 0) ≡ []

stopped-IsShift : (n : ℕ) (fs : Files) → IsShift n fs (fs, false)
stopped-IsShift n fs = record {
  above = λ i l. refl;
  kept = refl;
  gone = λ e. absurd (ground arith);
}

skipped-IsShift : (n : ℕ) (fs : Files) (r : Files × Bool) → IsShift n fs r → IsShift (suc n) fs r
skipped-IsShift n fs r h = record {
  above = λ i l. h.above i (omega (arith, l));
  kept =
      ap (λ b. body b ++ contents (suc n) r.0) (h.above (suc n) (omega arith))
      ∙ ap (λ c. body (fs (suc n)) ++ c) h.kept;
  gone = h.gone;
}

moved-IsShift :
    (n : ℕ) (fs : Files) (r : Files × Bool)
    → body (fs (suc n)) ≡ []
    → IsShift n (move_up n fs) r
    → IsShift (suc n) fs r
moved-IsShift n fs r e h = record {
  above = λ i l.
      h.above i (omega (arith, l))
      ∙ move_up-other n fs i (λ q. omega (arith, q, l)) (λ q. omega (arith, q, l));
  kept =
      ap (λ b. body b ++ contents (suc n) r.0) (h.above (suc n) (omega arith) ∙ move_up-next n fs)
      ∙ ap (λ c. body (fs n) ++ c) (h.kept ∙ emptied)
      ∙ sym (ap (λ b. b ++ contents (suc n) fs) e);
  gone = h.gone;
}
  where
    emptied : contents (suc n) (move_up n fs) ≡ contents n fs
    emptied =
        ap (λ b. body b ++ contents n (move_up n fs)) (move_up-here n fs)
        ∙ contents-cong n (move_up n fs) fs (λ i l.
          ap body (move_up-other n fs i (λ q. omega (arith, q, l)) (λ q. omega (arith, q, l))))

pub shift-IsShift :
    (fails : Faults) (n : ℕ) (fs : Files) → body (fs n) ≡ [] → IsShift n fs (shift fails n fs)
unfolding shift
shift-IsShift fails zero fs e = record { above = λ i l. refl; kept = refl; gone = λ _. e }
shift-IsShift fails (suc n) fs e =
    let P : Files × Bool → Type 0 = IsShift (suc n) fs in
    if_cases P (fails (validates n) || fails (inspects n)) (λ _. stopped-IsShift (suc n) fs)
      λ _.
        if_cases P (is_none (fs n))
          (λ absent. skipped-IsShift n fs _ (shift-IsShift fails n fs (ground arith)))
          λ _.
            if_cases P (fails (renames n)) (λ _. stopped-IsShift (suc n) fs)
              λ _.
                moved-IsShift n fs _ e
                  (shift-IsShift fails n (move_up n fs) (ap body (move_up-here n fs)))
