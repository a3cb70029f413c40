-- ===== src/Daemon/Groups.antt =====
-- helpers.go of bus/internal/daemon: the groups of sessions, and the options that a product supports.
use mathlib.Core.Bool.{false≢true}
use sessionbus.Base.{
  Bool, Bool-cases, List, Text, [], any_of, arith, codes, contains, false, if◌then◌else◌, inl, inr,
  is_empty, not, refl, subst, text_eq, text_eq_iff, true, ◌&&◌, ◌++◌, ◌||◌, ◌↔◌, ◌∷◌, ◌≡◌,
}

unfoldable pub shares : List Text → List Text → Bool
shares left right = any_of (λ value. contains right value) left

unfoldable pub ordered_peer_groups : List Text → Text → List Text
ordered_peer_groups declared private_group =
    if not (contains declared private_group) then declared ++ private_group ∷ [] else declared

-- `OpenOptions`.
pub record OpenOptions : Type 0 where
  pub cwd : Text
  pub permission_mode : Text
  pub model : Text
  pub reasoning_effort : Text
  pub arguments : List Text

-- The table of `unsupported`: the fields' names and whether they are set.
unfoldable pub option_fields : OpenOptions → List (Text × Bool)
option_fields o =
    (codes "cwd", not (is_empty o.cwd))
    ∷ (codes "permission_mode", not (is_empty o.permission_mode))
    ∷ (codes "model", not (is_empty o.model))
    ∷ (codes "reasoning_effort", not (is_empty o.reasoning_effort))
    ∷ (codes "arguments", not (is_empty o.arguments))
    ∷ []

unfoldable pub first_unsupported : List (Text × Bool) → List Text → Text
first_unsupported [] supported = []
first_unsupported (field ∷ fields) supported =
    if field.1 && not (contains supported field.0)
    then field.0
    else first_unsupported fields supported

unfoldable pub unsupported : OpenOptions → List Text → Text
unfolding option_fields first_unsupported
unsupported o supported = first_unsupported (option_fields o) supported

contains-eq :
    (xs : List Text) (y t : Text) → contains xs y ≡ true → text_eq y t ≡ true → contains xs t ≡ true
contains-eq xs y t c e = subst (λ z. contains xs z ≡ true) ((text_eq_iff y t).0 e) c

contains_refl : (y : Text) (b : List Text) → contains (y ∷ b) y ≡ true
unfolding contains
contains_refl y b = ground (arith, (text_eq_iff y y).1 refl)

shares-found :
    (a b : List Text)
    → shares a b ≡ true
    → (t : Text) × (contains a t ≡ true) × (contains b t ≡ true)
unfolding shares any_of contains
shares-found [] b h = absurd (false≢true h)
shares-found (x ∷ a) b h = elim (Bool-cases (contains b x)) [
  | inl c ↦ (x, contains_refl x a, c)
  | inr n ↦ let (t, p, q) = shares-found a b (ground arith) in (t, ground arith, q)
]

shares-common :
    (a b : List Text) (t : Text) → contains a t ≡ true → contains b t ≡ true → shares a b ≡ true
unfolding shares any_of contains
shares-common [] b t p q = absurd (false≢true p)
shares-common (x ∷ a) b t p q =
    ground (arith, shares-common a b t, contains-eq b t x, text_eq_iff x t)

-- Two sessions share a group exactly if there is a group in the lists of both.
pub shares-exact :
    (a b : List Text)
    → (shares a b ≡ true) ↔ ((t : Text) × (contains a t ≡ true) × (contains b t ≡ true))
shares-exact a b = (shares-found a b, λ h. shares-common a b h.0 h.1 h.2)

contains-snoc :
    (xs : List Text) (y t : Text) → contains (xs ++ y ∷ []) t ≡ (contains xs t || text_eq y t)
unfolding contains
contains-snoc [] y t = ground arith
contains-snoc (x ∷ xs) y t = ground (arith, contains-snoc xs y t)

-- A peer is in exactly the groups that it declares and its private one.
pub ordered_peer_groups-exact :
    (declared : List Text) (p t : Text)
    → contains (ordered_peer_groups declared p) t ≡ (contains declared t || text_eq p t)
unfolding ordered_peer_groups
ordered_peer_groups-exact declared p t =
    ground (arith, contains-snoc declared p t, contains-eq declared p t)

-- `unsupported` returns the empty text exactly if the product supports every option that is set.
pub unsupported-exact :
    (o : OpenOptions) (supported : List Text)
    → (unsupported o supported ≡ []) ↔ (
        (is_empty o.cwd ≡ false → contains supported (codes "cwd") ≡ true)
        × (is_empty o.permission_mode ≡ false → contains supported (codes "permission_mode") ≡ true)
        × (is_empty o.model ≡ false → contains supported (codes "model") ≡ true)
        × (is_empty o.reasoning_effort ≡ false
            → contains supported (codes "reasoning_effort") ≡ true)
        × (is_empty o.arguments ≡ false → contains supported (codes "arguments") ≡ true))
unfolding unsupported option_fields first_unsupported
unsupported-exact o supported = (
  λ h. (
    λ e. ground arith,
    λ e. ground arith,
    λ e. ground arith,
    λ e. ground arith,
    λ e. ground arith,
  ),
  λ h. ground (arith, h.0, h.1, h.2, h.3, h.4),
)
