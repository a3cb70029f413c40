-- ===== src/Daemon/Names.antt =====
-- helpers.go of bus/internal/daemon: names of sessions and lanes with the host they are on. Whether
-- the part before the host is valid (`validIDPart`, `validNamePart`) depends on Unicode's tables and
-- is the parameter `valid`; a host is an ASCII pattern.
use sessionbus.Base.{
  Bool, Option, Text, [], all_of, ap, arith, false, if◌then◌else◌, is_empty, leb, length, none, not,
  refl, some, subst, sym, text_eq, text_eq_refl, true, ℕ, ◌&&◌, ◌++◌, ◌==◌, ◌||◌, ◌∙◌, ◌∷◌, ◌≡◌,
}
use sessionbus.Protocol.{Code, invalid_frame, no_error, unknown_host}

abbrev at_sign : ℕ
at_sign = 64

-- `[a-z0-9]`.
abbrev host_start : ℕ → Bool
host_start c = leb 97 c && leb c 122 || leb 48 c && leb c 57

-- `[a-z0-9-]`.
abbrev host_char : ℕ → Bool
host_char c = host_start c || c == 45

-- `^[a-z0-9][a-z0-9-]{0,31}$`.
unfoldable pub valid_host : Text → Bool
valid_host [] = false
valid_host (c ∷ cs) = host_start c && leb (length cs) 31 && all_of host_char cs

unfoldable pub qualify : Text → Text → Text
qualify [] host = []
qualify (c ∷ cs) host = (c ∷ cs) ++ at_sign ∷ host

-- `strings.LastIndexByte(s, '@')`: the text before the last `@` and the text after it.
abbrev pub after_char : ℕ → Text → Option (Text × Text) → Option (Text × Text)
after_char c cs (some (a, b)) = some (c ∷ a, b)
after_char c cs none = if c == at_sign then some ([], cs) else none

unfoldable pub last_at : Text → Option (Text × Text)
last_at [] = none
last_at (c ∷ cs) = after_char c cs (last_at cs)

unfoldable pub unqualify : Text → Text
unfolding last_at
unqualify t = elim (last_at t) [ none ↦ t | some p ↦ p.0 ]

module _ (valid : Text → Bool) where
  abbrev pub target_parts : Text → Text → Option (Text × Text) → Text × Text × Code
  target_parts value local (some (name, host)) =
      if not (valid name) || not (valid_host host)
      then ([], [], invalid_frame)
      else (value, host, no_error)
  target_parts value local none =
      if not (valid value) then ([], [], invalid_frame) else (qualify value local, local, no_error)

  unfoldable pub canonical_target : Text → Text → Text × Text × Code
  canonical_target value local = target_parts value local (last_at value)

  abbrev pub canonical_parts : Text → Text → Option (Text × Text) → Text × Code
  canonical_parts value host (some (name, on)) =
      if not (valid name)
      then ([], invalid_frame)
      else if not (valid_host on) || not (text_eq on host)
      then ([], unknown_host)
      else (value, no_error)
  canonical_parts value host none =
      if not (valid value) then ([], invalid_frame) else (qualify value host, no_error)

  unfoldable pub canonical : Text → Text → Text × Code
  canonical value host = canonical_parts value host (last_at value)

after_char-rebuild :
    (c : ℕ) (cs a b : Text) (o : Option (Text × Text))
    → ((x y : Text) → o ≡ some (x, y) → cs ≡ x ++ at_sign ∷ y)
    → after_char c cs o ≡ some (a, b)
    → c ∷ cs ≡ a ++ at_sign ∷ b
after_char-rebuild c cs a b none ih h = ground arith
after_char-rebuild c cs a b (some (x, y)) ih h = ground (arith, ih x y refl)

last_at-rebuild : (t a b : Text) → last_at t ≡ some (a, b) → t ≡ a ++ at_sign ∷ b
unfolding last_at
last_at-rebuild [] a b h = ground arith
last_at-rebuild (c ∷ cs) a b h = after_char-rebuild c cs a b (last_at cs) (last_at-rebuild cs) h

last_at-append : (a b : Text) → last_at b ≡ none → last_at (a ++ at_sign ∷ b) ≡ some (a, b)
unfolding last_at
last_at-append [] b h = ap (after_char at_sign b) h
last_at-append (c ∷ a) b h = ap (after_char c (a ++ at_sign ∷ b)) (last_at-append a b h)

last_at-host_chars : (t : Text) → all_of host_char t ≡ true → last_at t ≡ none
unfolding last_at all_of
last_at-host_chars [] h = refl
last_at-host_chars (c ∷ cs) h =
    ap (after_char c cs) (last_at-host_chars cs (ground arith)) ∙ ground arith

-- A valid host has no `@`.
last_at-host : (h : Text) → valid_host h ≡ true → last_at h ≡ none
unfolding valid_host last_at
last_at-host [] v = refl
last_at-host (c ∷ cs) v = ap (after_char c cs) (last_at-host_chars cs (ground arith)) ∙ ground arith

last_at-qualify :
    (t h : Text) → is_empty t ≡ false → valid_host h ≡ true → last_at (qualify t h) ≡ some (t, h)
last_at-qualify [] h n v = cc
last_at-qualify (c ∷ cs) h n v = unfold qualify in last_at-append (c ∷ cs) h (last_at-host h v)

-- Taking the host off a name with a valid host gives the name back, if it is not empty.
pub unqualify-qualify :
    (t h : Text) → is_empty t ≡ false → valid_host h ≡ true → unqualify (qualify t h) ≡ t
unfolding unqualify
unqualify-qualify t h n v = ground (arith, last_at-qualify t h n v)

module _ (valid : Text → Bool) (nonempty : valid [] ≡ false) where
  -- The target that a daemon makes of a name.
  pub record IsTarget (target host : Text) : Type 0 where
    pub reachable : valid_host host ≡ true
    pub named : valid (unqualify target) ≡ true
    pub whole : target ≡ qualify (unqualify target) host
    pub accepted : canonical valid target host ≡ (target, no_error)

  valid-is_empty : (t : Text) → valid t ≡ true → is_empty t ≡ false
  valid-is_empty [] v = cc
  valid-is_empty (c ∷ cs) v = refl

  qualify-append : (t h : Text) → is_empty t ≡ false → qualify t h ≡ t ++ at_sign ∷ h
  unfolding qualify
  qualify-append [] h n = cc
  qualify-append (c ∷ cs) h n = refl

  -- A text that ends in a valid name's host is a target of that host.
  split-IsTarget :
      (target name host : Text)
      → last_at target ≡ some (name, host)
      → target ≡ qualify name host
      → valid name ≡ true
      → valid_host host ≡ true
      → IsTarget target host
  unfolding canonical
  split-IsTarget target name host e q v h =
      let same : unqualify target ≡ name = unfold unqualify in ground arith in
      record {
        reachable = h;
        named = ap valid same ∙ v;
        whole = q ∙ sym (ap (λ t. qualify t host) same);
        accepted = rw e (ground (arith, text_eq_refl host));
      }

  parts-IsTarget :
      (value local target host : Text) (o : Option (Text × Text))
      → last_at value ≡ o
      → valid_host local ≡ true
      → target_parts valid value local o ≡ (target, host, no_error)
      → IsTarget target host
  parts-IsTarget value local target host none e l h =
      let v : valid value ≡ true = ground arith in
      let whole : qualify value local ≡ target = ground arith in
      let there : local ≡ host = ground arith in
      let n : is_empty value ≡ false = valid-is_empty value v in
      subst (λ t. IsTarget t host) whole
        (subst (IsTarget (qualify value local)) there (
          split-IsTarget (qualify value local) value local (last_at-qualify value local n l) refl v
            l))
  parts-IsTarget value local target host (some (name, on)) e l h =
      let v : valid name ≡ true = ground arith in
      let r : valid_host on ≡ true = ground arith in
      let whole : value ≡ target = ground arith in
      let there : on ≡ host = ground arith in
      subst (λ t. IsTarget t host) whole
        (subst (IsTarget value) there (
          split-IsTarget value name on e
            (last_at-rebuild value name on e ∙ sym (qualify-append name on (valid-is_empty name v)))
            v r))

  -- On a valid local host, and with a notion of validity that excludes the empty name, every target
  -- that `canonicalTarget` returns is a valid name followed by the valid host that it returns, and
  -- the daemon of that host accepts it with `canonical`, which changes nothing.
  pub canonical_target-IsTarget :
      (value local target host : Text)
      → valid_host local ≡ true
      → canonical_target valid value local ≡ (target, host, no_error)
      → IsTarget target host
  unfolding canonical_target
  canonical_target-IsTarget value local target host l h =
      parts-IsTarget value local target host (last_at value) refl l h
