-- ===== src/CommsLog/Loss.antt =====
-- file.go of bus/internal/commslog: a record is written whole, and only the oldest bytes are lost.
use mathlib.Core.List.{append-nil, append_assoc}
use sessionbus.Base.{
  Bool, Option, [], ap, arith, false, if_cases, inl, inr, none, refl, some, subst, suc, sym, true,
  zero, ℕ, ◌++◌, ◌-◌, ◌<◌, ◌==◌, ◌∙◌, ◌≡◌, ◌≢◌, ◌⊎◌,
}
use sessionbus.CommsLog.File.{
  Faults, Files, RotatingFile, body, create, opens_new, removes_oldest, rotate, set_file, shift,
  shifted, stats_new, syncs_and_closes,
}
use sessionbus.CommsLog.Rotation.{IsShift, contents, contents-cong, shift-IsShift}
use sessionbus.CommsLog.State.{Bytes}

-- The log of the files up to `k` keeps its bytes, or all but those of the oldest file.
abbrev pub Drops : ℕ → Files → Files → Type 0
Drops k fs gs =
    (d : Bytes) × ((d ≡ []) ⊎ (d ≡ body (fs k))) × (contents (suc k) fs ≡ d ++ contents (suc k) gs)

pub set_file-at : (n : ℕ) (v : Option Bytes) (fs : Files) → set_file n v fs n ≡ v
unfolding set_file
set_file-at n v fs = ground arith

pub set_file-other :
    (n : ℕ) (v : Option Bytes) (fs : Files) (i : ℕ) → i ≢ n → set_file n v fs i ≡ fs i
unfolding set_file
set_file-other n v fs i h = ground arith

-- The bytes that the oldest file held are lost with it.
remove-Drops : (k : ℕ) (fs : Files) → Drops k fs (set_file k none fs)
remove-Drops k fs = (
  body (fs k),
  inr refl,
  ap (λ c. body (fs k) ++ c)
      (contents-cong k fs (set_file k none fs)
          (λ i l. ap body (sym (set_file-other k none fs i (λ q. omega (arith, q, l)))))
        ∙ sym (ap (λ b. body b ++ contents k (set_file k none fs)) (set_file-at k none fs))),
)

-- A new file 0 loses nothing if there was none.
create-kept :
    (n : ℕ) (fs : Files) → body (fs 0) ≡ [] → contents n (set_file 0 (some []) fs) ≡ contents n fs
create-kept n fs e = contents-cong n (set_file 0 (some []) fs) fs same
  where
    same : (i : ℕ) → i < n → body (set_file 0 (some []) fs i) ≡ body (fs i)
    same zero l = ap body (set_file-at 0 (some []) fs) ∙ sym e
    same (suc i) l = ap body (set_file-other 0 (some []) fs (suc i) (λ q. omega (arith, q)))

create-Drops :
    (fails : Faults) (f : RotatingFile) (k : ℕ)
    → Drops k f.files (set_file 0 (some []) f.files)
    → Drops k f.files (create fails f).0.files
unfolding create
create-Drops fails f k d =
    if_cases P (fails opens_new) (λ _. ([], inl refl, refl))
      λ _. if_cases P (fails stats_new) (λ _. d) (λ _. d)
  where
    P : RotatingFile × Bool → Type 0
    P r = Drops k f.files r.0.files

-- If there was no file 0, creating one keeps all.
create_same :
    (fails : Faults) (f : RotatingFile) (n : ℕ)
    → body (f.files 0) ≡ []
    → contents n (create fails f).0.files ≡ contents n f.files
unfolding create
create_same fails f n e =
    if_cases P (fails opens_new) (λ _. refl)
      λ _.
        if_cases P (fails stats_new) (λ _. create-kept n f.files e) (λ _. create-kept n f.files e)
  where
    P : RotatingFile × Bool → Type 0
    P r = contents n r.0.files ≡ contents n f.files

shifted-Drops :
    (fails : Faults) (f : RotatingFile) (k : ℕ) (fs gs : Files) (ok : Bool)
    → Drops k fs gs
    → (ok ≡ true → body (gs 0) ≡ [])
    → Drops k fs (shifted fails f (gs, ok)).0.files
unfolding shifted
shifted-Drops fails f k fs gs false d h = d
shifted-Drops fails f k fs gs true (d, o, e) h = (
  d,
  o,
  e ∙ ap (λ c. d ++ c) (sym (create_same fails (record f { files = gs }) (suc k) (h refl))),
)

pub rotate-Drops :
    (fails : Faults) (f : RotatingFile) (k : ℕ)
    → f.max_files ≡ suc k
    → Drops k f.files (rotate fails f).0.files
unfolding rotate
rotate-Drops fails f k m =
    if_cases P (fails syncs_and_closes) (λ _. ([], inl refl, refl))
      λ _.
        if_cases P (f.max_files == 1)
          (λ one. create-Drops fails (record f { is_open = false }) k (only one))
          λ _. if_cases P (fails removes_oldest) (λ _. ([], inl refl, refl)) λ _. many
  where
    P : RotatingFile × Bool → Type 0
    P r = Drops k f.files r.0.files

    only : (f.max_files == 1) ≡ true → Drops k f.files (set_file 0 (some []) f.files)
    only one =
        let z : k ≡ 0 = ground arith in
        subst (λ j. Drops j f.files (set_file 0 (some []) f.files)) (sym z)
          (
            body (f.files 0),
            inr refl,
            sym (ap (λ b. body (f.files 0) ++ (body b ++ [])) (set_file-at 0 (some []) f.files)),
          )

    removed : Files
    removed = set_file k none f.files

    many : P (
        shifted fails
          (record f { is_open = false })
          (shift fails (f.max_files - 1) (set_file (f.max_files - 1) none f.files)))
    many =
        let z : f.max_files - 1 ≡ k = omega (arith, m) in
        let h : IsShift k removed (shift fails k removed) =
          shift-IsShift fails k removed (ap body (set_file-at k none f.files)) in
        let (d, o, e) = remove-Drops k f.files in
        subst
          (λ j. P (
            shifted fails (record f { is_open = false }) (shift fails j (set_file j none f.files))))
          (sym z)
          (shifted-Drops fails (record f { is_open = false }) k f.files (shift fails k removed).0
            (shift fails k removed).1 (d, o, e ∙ ap (λ c. d ++ c) (sym h.kept)) h.gone)

-- What `append` adds stands at the end.
pub contents-append :
    (k : ℕ) (fs : Files) (t : Bytes)
    → contents (suc k) (set_file 0 (some (body (fs 0) ++ t)) fs) ≡ contents (suc k) fs ++ t
contents-append zero fs t =
    ap (λ b. body b ++ []) (set_file-at 0 _ fs)
    ∙ append-nil (body (fs 0) ++ t)
    ∙ ap (λ c. c ++ t) (sym (append-nil (body (fs 0))))
contents-append (suc k) fs t =
    ap (λ b. body b ++ contents (suc k) (set_file 0 (some (body (fs 0) ++ t)) fs))
      (set_file-other 0 _ fs (suc k) (λ q. omega (arith, q)))
    ∙ ap (λ c. body (fs (suc k)) ++ c) (contents-append k fs t)
    ∙ sym (append_assoc (body (fs (suc k))) (contents (suc k) fs) t)
