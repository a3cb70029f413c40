-- ===== src/Rpc/Calls.antt =====
-- rpc.go: the map from request identifiers to the calls that wait for a response.
use sessionbus.Base.{
  Bool, List, Option, Text, [], arith, if◌then◌else◌, length, none, refl, some, ℕ, ◌++◌, ◌+◌, ◌==◌,
  ◌∷◌, ◌≡◌, ◌≤◌,
}

-- A call under way: `token` stands for its channel `done`, which no other call has.
pub record Call : Type 0 where
  pub token : ℕ
  pub method : Text
  -- `seen` is not nil
  pub observes : Bool
  pub drain : Bool

abbrev pub Calls : Type 0
Calls = List (ℕ × Call)

unfoldable pub find_call : ℕ → Calls → Option Call
find_call id [] = none
find_call id ((k, c) ∷ cs) = if id == k then some c else find_call id cs

-- `delete(c.pending, id)`.
unfoldable pub delete_call : ℕ → Calls → Calls
delete_call id [] = []
delete_call id ((k, c) ∷ cs) = if id == k then cs else (k, c) ∷ delete_call id cs

-- `c.pending[id] = p` for a key that is there.
unfoldable pub replace_call : ℕ → Call → Calls → Calls
replace_call id d [] = []
replace_call id d ((k, c) ∷ cs) = if id == k then (k, d) ∷ cs else (k, c) ∷ replace_call id d cs

-- How often a channel stands in the map.
unfoldable pub waiting : ℕ → Calls → ℕ
waiting t [] = 0
waiting t ((k, c) ∷ cs) = (if c.token == t then 1 else 0) + waiting t cs

pub waiting-append : (t : ℕ) (a b : Calls) → waiting t (a ++ b) ≡ waiting t a + waiting t b
unfolding waiting
waiting-append t [] b = omega arith
waiting-append t (c ∷ a) b = omega (arith, waiting-append t a b)

pub waiting-delete :
    (t id : ℕ) (cs : Calls) (c : Call)
    → find_call id cs ≡ some c
    → waiting t cs ≡ waiting t (delete_call id cs) + (if c.token == t then 1 else 0)
unfolding waiting delete_call find_call
waiting-delete t id [] c h = ground arith
waiting-delete t id ((k, d) ∷ cs) c h = ground (arith, waiting-delete t id cs c)

pub waiting-replace :
    (t id : ℕ) (cs : Calls) (c d : Call)
    → find_call id cs ≡ some c
    → d.token ≡ c.token
    → waiting t (replace_call id d cs) ≡ waiting t cs
unfolding waiting replace_call find_call
waiting-replace t id [] c d h e = refl
waiting-replace t id ((k, x) ∷ cs) c d h e = ground (arith, waiting-replace t id cs c d)

pub length-delete : (id : ℕ) (cs : Calls) → length (delete_call id cs) ≤ length cs
unfolding delete_call
length-delete id [] = omega arith
length-delete id ((k, c) ∷ cs) = ground (arith, length-delete id cs)

pub length-replace : (id : ℕ) (d : Call) (cs : Calls) → length (replace_call id d cs) ≡ length cs
unfolding replace_call
length-replace id d [] = refl
length-replace id d ((k, c) ∷ cs) = ground (arith, length-replace id d cs)

pub waiting-nil : (t : ℕ) → waiting t [] ≡ 0
unfolding waiting
waiting-nil t = refl
