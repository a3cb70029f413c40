-- ===== src/Daemon/Lifetimes.antt =====
-- policy.go of bus/internal/daemon: what holds of every policy that `normalizePolicy` returns.
use sessionbus.Base.{
  Bool-cases, Option, Text, [], arith, false, if_cases, if◌then◌else◌, inl, inr, is_empty, none,
  not, refl, some, subst, text_eq, true, ℕ, ◌&&◌, ◌*◌, ◌<◌, ◌∙◌, ◌≡◌,
}
use sessionbus.Base.Int.{negsuc, pos, ℤ}
use sessionbus.Daemon.Policy.{
  LanePolicy, PolicyResult, SpawnRequest, checked_target, default_auto_close_ms, demotes,
  finish_policy, given, inherited, no_request, normal, normalize_policy, notification, refused,
  run_text, start_policy, valid_policy, with_lifetime, with_target,
}

module _ (owner : Text) where
  -- A policy of the daemon: it runs on a delivery; an owned lane notifies its owner only; a
  -- persistent lane has no owner, and a target if and only if it notifies.
  pub record IsNormal (v : LanePolicy) : Type 0 where
    pub runs : v.idle_message ≡ run_text
    pub owned : v.persistent ≡ false → (v.owner_session_id ≡ owner) × (v.notify_target ≡ [])
    pub ownerless :
        v.persistent ≡ true → (v.owner_session_id ≡ []) × (is_empty v.notify_target ≡ not v.notify)

  -- What `notification` makes of a value.
  abbrev Notifies : PolicyResult → Type 0
  Notifies (refused e) = Unit {0}
  Notifies (normal v) = IsNormal v

  checked_target-IsNormal :
      (v : LanePolicy)
      → v.persistent ≡ true
      → v.idle_message ≡ run_text
      → v.owner_session_id ≡ []
      → Notifies (checked_target v)
  unfolding checked_target
  checked_target-IsNormal v p r o = ground arith

  -- What the persistent arm does before it checks the target.
  prepared :
      (i : SpawnRequest) (p : Option LanePolicy) (v : LanePolicy)
      → let w = with_target i (inherited p v) in
        (w.persistent ≡ v.persistent)
        × (w.idle_message ≡ v.idle_message)
        × (w.owner_session_id ≡ [])
  unfolding with_target inherited
  prepared i none v = ground arith
  prepared i (some q) v = ground arith

  notification-IsNormal :
      (i : SpawnRequest) (p : Option LanePolicy) (v : LanePolicy)
      → v.idle_message ≡ run_text
      → v.owner_session_id ≡ owner
      → Notifies (notification i p owner v)
  unfolding notification
  notification-IsNormal i p v r o =
      let (same, runs, ownerless) = prepared i p v in
      if_cases Notifies v.persistent
        (λ e. checked_target-IsNormal _ (same ∙ e) (runs ∙ r) ownerless)
        (λ e.
          if_cases Notifies (not (is_empty i.notify_target) && not (text_eq i.notify_target owner))
            {y = normal (record v { notify = given i.notify true; notify_target = [] })} (λ _. tt)
            λ _. record {
              runs = r;
              owned = λ _. (o, refl);
              ownerless = λ h. absurd (ground arith);
            })

-- What `finish_policy` lets through.
finish_policy-ok :
    (i : SpawnRequest) (r : PolicyResult) (v : LanePolicy)
    → finish_policy i r ≡ normal v
    → (r ≡ normal v) × (valid_policy v ≡ true)
unfolding finish_policy
finish_policy-ok i (refused e) v h = ground arith
finish_policy-ok i (normal w) v h = ground arith

-- A valid policy's delay as nanoseconds, the `time.Duration` of `turnReady`, is an int64.
valid_policy-delay :
    (v : LanePolicy)
    → valid_policy v ≡ true
    → (n : ℕ) × (v.auto_close_ms ≡ pos n) × (n * 1000000 < 9223372036854775808)
unfolding valid_policy
valid_policy-delay v h = by_sign v.auto_close_ms refl
  where
    by_sign :
        (z : ℤ)
        → v.auto_close_ms ≡ z
        → (n : ℕ) × (v.auto_close_ms ≡ pos n) × (n * 1000000 < 9223372036854775808)
    by_sign (pos n) e = (n, e, ground arith)
    by_sign (negsuc n) e = absurd (ground arith)

normalize_policy-ok :
    (i : SpawnRequest) (p : Option LanePolicy) (owner : Text) (v : LanePolicy)
    → normalize_policy i p owner ≡ normal v
    → IsNormal owner v × (valid_policy v ≡ true)
unfolding normalize_policy
normalize_policy-ok i p owner v h =
    let w = with_lifetime i (start_policy p owner) in
    let kept : finish_policy i (notification i p owner w) ≡ normal v = ground arith in
    let (r, valid) : (notification i p owner w ≡ normal v) × (valid_policy v ≡ true) =
      finish_policy-ok i (notification i p owner w) v kept in
    (
      subst (Notifies owner) r
          (notification-IsNormal owner i p w (unfold with_lifetime in refl) (start-owner p)),
      valid,
    )
  where
    start-owner :
        (p : Option LanePolicy) → (with_lifetime i (start_policy p owner)).owner_session_id ≡ owner
    start-owner none = unfold with_lifetime start_policy in refl
    start-owner (some q) = unfold with_lifetime start_policy in refl

-- Every policy that `normalizePolicy` returns runs the lane on a delivery. An owned lane has the
-- given owner and no other target; a persistent one has no owner, and a target exactly if it
-- notifies; and the delay before the lane closes, in nanoseconds, fits an int64.
pub normalize_policy-IsNormal :
    (i : SpawnRequest) (p : Option LanePolicy) (owner : Text) (v : LanePolicy)
    → normalize_policy i p owner ≡ normal v
    → IsNormal owner v × ((n : ℕ) × (v.auto_close_ms ≡ pos n) × (n * 1000000 < 9223372036854775808))
normalize_policy-IsNormal i p owner v h =
    let (n, valid) = normalize_policy-ok i p owner v h in (n, valid_policy-delay v valid)

-- The policy that a lane has after an empty request.
abbrev pub renewed : LanePolicy → LanePolicy
renewed v = record v {
  auto_close_ms = default_auto_close_ms;
  notify = if v.persistent then v.notify else true;
}

again_result :
    (v : LanePolicy) (owner : Text)
    → IsNormal owner v
    → notification no_request
        (some v)
        owner
        (with_lifetime no_request (start_policy (some v) owner))
      ≡ normal (renewed v)
unfolding notification with_lifetime start_policy inherited with_target checked_target
again_result v owner n = elim (Bool-cases v.persistent) [
  | inl e ↦ elim (Bool-cases v.notify) [
    | inl f ↦ let a = n.ownerless e in let b = n.runs in ground arith
    | inr f ↦ let a = n.ownerless e in let b = n.runs in ground arith
  ]
  | inr e ↦ let a = n.owned e in let b = n.runs in ground arith
]

renewed-valid : (v : LanePolicy) → valid_policy v ≡ true → valid_policy (renewed v) ≡ true
unfolding valid_policy
renewed-valid v h = ground arith

-- Asking again changes nothing but the delay and, of an owned lane, the notification: a lane that is
-- resumed with an empty request, by the same owner, gets the default delay and keeps the rest of its
-- policy, if that was one that `normalizePolicy` returned for this owner; but an owned lane notifies
-- again.
pub normalize_policy_again :
    (i : SpawnRequest) (p : Option LanePolicy) (owner : Text) (v : LanePolicy)
    → normalize_policy i p owner ≡ normal v
    → normalize_policy no_request (some v) owner ≡ normal (renewed v)
unfolding normalize_policy demotes finish_policy
normalize_policy_again i p owner v h =
    let (n, valid) = normalize_policy-ok i p owner v h in
    ground (arith, again_result v owner n, renewed-valid v valid)

-- A request that is granted never ends a persistent lifetime; and an owned lane that notified, made
-- persistent by a request that names no target and does not speak of notification, notifies its
-- former owner, who is not empty.
pub normalize_policy_promotes :
    (i : SpawnRequest) (q : LanePolicy) (owner : Text) (v : LanePolicy)
    → normalize_policy i (some q) owner ≡ normal v
    → (q.persistent ≡ true → v.persistent ≡ true)
      × (q.persistent ≡ false
          → q.notify ≡ true
          → i.persistent ≡ some true
          → i.notify ≡ none
          → i.notify_target ≡ []
          → (v.notify ≡ true) × (v.notify_target ≡ q.owner_session_id))
unfolding normalize_policy notification with_lifetime start_policy inherited with_target
    checked_target finish_policy demotes
normalize_policy_promotes i q owner v h = (λ e. ground arith, λ a b c d e. ground arith)
