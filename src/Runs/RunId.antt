-- ===== src/Runs/RunId.antt =====
-- The text of a run's identifier: `reserveRun` of bus/internal/daemon/policy.go prints it and
-- `runSequence` of bus/sdk/go/runs.go reads it. `strings.Cut`, `strconv.FormatUint` and
-- `strconv.ParseUint` are Go's, at base ten and 64 bits.
use mathlib.Core.List.{tail}
use mathlib.Core.Path.{ap₂}
use native.Mathlib.Nat.{pow-suc}
use sessionbus.Base.{
  Bool, Bool-cases, Option, Text, [], ap, arith, false, if◌then◌else◌, inl, inr, is_empty, leb, ltb,
  none, not, refl, some, suc, text_eq, text_eq_iff, text_eq_refl, true, zero, ℕ, ◌%◌, ◌&&◌, ◌*◌,
  ◌++◌, ◌+◌, ◌-◌, ◌/◌, ◌<◌, ◌==◌, ◌^◌, ◌∙◌, ◌∷◌, ◌≡◌, ◌≢◌,
}

abbrev slash : ℕ
slash = 47

abbrev word : ℕ
word = 18446744073709551616

-- `strings.Cut(s, "/")`.
unfoldable pub cut : Text → Text × Text × Bool
cut [] = ([], [], false)
cut (c ∷ cs) = if c == slash then ([], cs, true) else (c ∷ (cut cs).0, (cut cs).1, (cut cs).2)

-- A 64-bit number has at most twenty digits.
unfoldable pub format_digits : ℕ → ℕ → Text
format_digits zero n = []
format_digits (suc fuel) n =
    let front = format_digits fuel (n / 10) in
    if ltb n 10 then (48 + n) ∷ [] else front ++ (48 + n % 10) ∷ []

unfoldable pub format_uint : ℕ → Text
format_uint n = format_digits 20 n

abbrev is_digit : ℕ → Bool
is_digit c = leb 48 c && leb c 57

unfoldable pub parse_digits : ℕ → Text → Option ℕ
parse_digits acc [] = some acc
parse_digits acc (c ∷ cs) =
    let v = acc * 10 + (c - 48) in
    let rest = parse_digits v cs in if is_digit c && ltb v word then rest else none

-- `none` is any error: no digits, a byte that is no digit, or a value out of range.
unfoldable pub parse_uint : Text → Option ℕ
unfolding parse_digits
parse_uint [] = none
parse_uint (c ∷ cs) = parse_digits 0 (c ∷ cs)

-- `s.runGeneration + "/" + strconv.FormatUint(s.runSequence, 10)`.
unfoldable pub run_name : Text → ℕ → Text
run_name generation sequence = generation ++ slash ∷ format_uint sequence

-- `runSequence`: the prefix, the number and whether the identifier is canonical. On an error
-- `ParseUint` also returns a number, which no caller reads.
abbrev pub checked : Text → Text → Bool → Option ℕ → Text × ℕ × Bool
checked prefix tail ok none = (prefix, 0, false)
checked prefix tail ok (some n) =
    (prefix, n, ok && not (is_empty prefix) && ltb 0 n && text_eq (format_uint n) tail)

unfoldable pub run_sequence : Text → Text × ℕ × Bool
run_sequence id = let (prefix, tail, ok) = cut id in checked prefix tail ok (parse_uint tail)

parse_digits-append :
    (acc v : ℕ) (xs ys : Text)
    → parse_digits acc xs ≡ some v
    → parse_digits acc (xs ++ ys) ≡ parse_digits v ys
unfolding parse_digits
parse_digits-append acc v [] ys h = ground arith
parse_digits-append acc v (x ∷ xs) ys h =
    ground (arith, parse_digits-append (acc * 10 + (x - 48)) v xs ys)

parse_digit :
    (acc n : ℕ)
    → n < 10
    → acc * 10 + n < word
    → parse_digits acc ((48 + n) ∷ []) ≡ some (acc * 10 + n)
unfolding parse_digits
parse_digit acc n h w = ground arith

parse-format :
    (fuel n : ℕ) → n < 10 ^ fuel → n < word → parse_digits 0 (format_digits fuel n) ≡ some n
unfolding format_digits
parse-format zero n h w = unfold parse_digits in ap some (omega arith)
parse-format (suc fuel) n h w = elim (Bool-cases (ltb n 10)) [
  | inl small ↦ rw small (parse_digit 0 n (ground arith) (ground arith) ∙ ap some (omega arith))
  | inr large ↦ rw large (
      parse_digits-append 0 (n / 10) (format_digits fuel (n / 10)) ((48 + n % 10) ∷ [])
        (parse-format fuel (n / 10) (omega (arith, pow-suc 10 fuel)) (omega arith))
      ∙ parse_digit (n / 10) (n % 10) (omega arith) (omega arith)
      ∙ ap some (omega arith))
]

format_digits-ne-nil : (fuel n : ℕ) → is_empty (format_digits (suc fuel) n) ≡ false
unfolding format_digits
format_digits-ne-nil fuel n = elim (Bool-cases (ltb n 10)) [
  | inl small ↦ rw small
  | inr large ↦ rw large (snoc (format_digits fuel (n / 10)))
]
  where
    snoc : (xs : Text) → is_empty (xs ++ (48 + n % 10) ∷ []) ≡ false
    snoc [] = refl
    snoc (x ∷ xs) = refl

-- A generation with no slash.
abbrev pub NoSlash : Text → Type 0
NoSlash [] = Unit {0}
NoSlash (c ∷ cs) = (c ≢ slash) × NoSlash cs

cut-run_name : (g t : Text) → NoSlash g → cut (g ++ slash ∷ t) ≡ (g, t, true)
unfolding cut
cut-run_name [] t h = refl
cut-run_name (c ∷ g) t h = ground (arith, cut-run_name g t h.1)

parse_uint-format : (n : ℕ) → n < word → parse_uint (format_uint n) ≡ some n
unfolding format_uint
parse_uint-format n w =
    by_head (format_digits 20 n) (format_digits-ne-nil 19 n) (parse-format 20 n (omega arith) w)
  where
    by_head : (t : Text) → is_empty t ≡ false → parse_digits 0 t ≡ some n → parse_uint t ≡ some n
    by_head [] e h = cc
    by_head (c ∷ cs) e h = unfold parse_uint in h

-- The worker reads back the generation and the number of every identifier that the daemon prints,
-- and finds it canonical, for a non-empty generation without a slash and a positive 64-bit number.
pub run_sequence-run_name :
    (g : Text) (n : ℕ)
    → is_empty g ≡ false
    → NoSlash g
    → 0 < n
    → n < word
    → run_sequence (run_name g n) ≡ (g, n, true)
unfolding run_sequence run_name
run_sequence-run_name g n ne h pos_n w =
    ap (λ (c : Text × Text × Bool). checked c.0 c.1 c.2 (parse_uint c.1))
      (cut-run_name g (format_uint n) h)
    ∙ ap (checked g (format_uint n) true) (parse_uint-format n w)
    ∙ ground (arith, text_eq_refl (format_uint n))

cut-rebuild : (id : Text) → (cut id).2 ≡ true → id ≡ (cut id).0 ++ slash ∷ (cut id).1
unfolding cut
cut-rebuild [] h = cc
cut-rebuild (c ∷ cs) h = ground (arith, cut-rebuild cs)

checked-canonical :
    (prefix t : Text) (ok : Bool) (o : Option ℕ) (g : Text) (n : ℕ)
    → checked prefix t ok o ≡ (g, n, true)
    → (ok ≡ true) × (prefix ≡ g) × (t ≡ format_uint n)
checked-canonical prefix t ok none g n h = ground arith
checked-canonical prefix t ok (some m) g n h = ground (arith, text_eq_iff (format_uint m) t)

-- An identifier that the worker accepts is the one that the daemon prints for its generation and
-- number: two identifiers of one run are equal.
pub run_sequence-canonical :
    (id g : Text) (n : ℕ) → run_sequence id ≡ (g, n, true) → id ≡ run_name g n
unfolding run_sequence run_name
run_sequence-canonical id g n h =
    let c : ((cut id).2 ≡ true) × ((cut id).0 ≡ g) × ((cut id).1 ≡ format_uint n) =
      checked-canonical (cut id).0 (cut id).1 (cut id).2 (parse_uint (cut id).1) g n h in
    cut-rebuild id c.0 ∙ ap₂ (λ (x y : Text). x ++ slash ∷ y) c.1 c.2
