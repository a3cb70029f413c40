-- ===== src/Daemon/Tests.antt =====
-- The daemon's policies and names on concrete inputs.
use sessionbus.Base.{
  Bool, Text, [], all_of, codes, contains, false, is_empty, none, not, refl, some, text_eq, true, ℕ,
  ◌*◌, ◌<◌, ◌||◌, ◌↔◌, ◌∷◌, ◌≡◌,
}
use sessionbus.Base.Int.{pos}
use sessionbus.Daemon.Groups.{
  OpenOptions, first_unsupported, option_fields, ordered_peer_groups, ordered_peer_groups-exact,
  shares, shares-exact, unsupported, unsupported-exact,
}
use sessionbus.Daemon.Lifetimes.{
  IsNormal, normalize_policy-IsNormal, normalize_policy_again, normalize_policy_promotes, renewed,
}
use sessionbus.Daemon.Names.{
  IsTarget, canonical_target, canonical_target-IsTarget, last_at, qualify, unqualify,
  unqualify-qualify, valid_host,
}
use sessionbus.Daemon.Policy.{
  LanePolicy, SpawnRequest, checked_target, demotes, finish_policy, inherited, no_request, normal,
  normalize_policy, notification, run_text, start_policy, valid_policy, with_lifetime, with_target,
}
use sessionbus.Protocol.{no_error}

abbrev notify_request : SpawnRequest
notify_request = record {
  persistent = some true;
  auto_close_ms = some (pos 5);
  notify = none;
  notify_target = [];
}

abbrev owned_policy : LanePolicy
owned_policy = record {
  persistent = false;
  auto_close_ms = pos 60000;
  idle_message = run_text;
  notify = true;
  notify_target = [];
  owner_session_id = codes "o";
  trace = [];
}

abbrev promoted_policy : LanePolicy
promoted_policy = record {
  persistent = true;
  auto_close_ms = pos 5;
  idle_message = run_text;
  notify = true;
  notify_target = codes "o";
  owner_session_id = [];
  trace = [];
}

promotes : normalize_policy notify_request (some owned_policy) (codes "o") ≡ normal promoted_policy
unfolding normalize_policy start_policy demotes with_lifetime notification inherited with_target
    checked_target finish_policy valid_policy contains text_eq
promotes = refl

new_persistent :
    normalize_policy notify_request none (codes "o")
    ≡ normal (record promoted_policy { notify = false; notify_target = [] })
unfolding normalize_policy start_policy demotes with_lifetime notification inherited with_target
    checked_target finish_policy valid_policy contains text_eq
new_persistent = refl

normalize_policy-IsNormal_example :
    IsNormal (codes "o") promoted_policy
    × ((n : ℕ) × (promoted_policy.auto_close_ms ≡ pos n) × (n * 1000000 < 9223372036854775808))
normalize_policy-IsNormal_example =
    normalize_policy-IsNormal notify_request (some owned_policy) (codes "o") promoted_policy
      promotes

normalize_policy_again_example :
    normalize_policy no_request (some promoted_policy) (codes "o")
    ≡ normal (renewed promoted_policy)
normalize_policy_again_example =
    normalize_policy_again notify_request (some owned_policy) (codes "o") promoted_policy promotes

normalize_policy_promotes_example :
    (owned_policy.persistent ≡ true → promoted_policy.persistent ≡ true)
    × (owned_policy.persistent ≡ false
        → owned_policy.notify ≡ true
        → notify_request.persistent ≡ some true
        → notify_request.notify ≡ none
        → notify_request.notify_target ≡ []
        → (promoted_policy.notify ≡ true)
          × (promoted_policy.notify_target ≡ owned_policy.owner_session_id))
normalize_policy_promotes_example =
    normalize_policy_promotes notify_request owned_policy (codes "o") promoted_policy promotes

-- The names without `@` that are not empty.
abbrev plain : Text → Bool
plain t = not (is_empty t)

here_target :
    canonical_target plain (codes "lane") (codes "h1") ≡ (codes "lane@h1", codes "h1", no_error)
unfolding canonical_target last_at qualify
here_target = refl

there_target :
    canonical_target plain (codes "a@b@h2") (codes "h1") ≡ (codes "a@b@h2", codes "h2", no_error)
unfolding canonical_target last_at valid_host all_of
there_target = refl

local_host : valid_host (codes "h1") ≡ true
unfolding valid_host all_of
local_host = refl

canonical_target-IsTarget_example : IsTarget plain refl (codes "a@b@h2") (codes "h2")
canonical_target-IsTarget_example =
    canonical_target-IsTarget plain refl (codes "a@b@h2") (codes "h1") (codes "a@b@h2") (codes "h2")
      local_host there_target

unqualify-qualify_example : unqualify (qualify (codes "a@b") (codes "h1")) ≡ codes "a@b"
unqualify-qualify_example = unqualify-qualify (codes "a@b") (codes "h1") refl local_host

abbrev bare_options : OpenOptions
bare_options = record {
  cwd = codes "/";
  permission_mode = [];
  model = [];
  reasoning_effort = codes "high";
  arguments = [];
}

cwd_only : unsupported bare_options (codes "cwd" ∷ []) ≡ codes "reasoning_effort"
unfolding unsupported option_fields first_unsupported contains text_eq
cwd_only = refl

shares-exact_example : (shares (codes "a" ∷ codes "b" ∷ []) (codes "b" ∷ []) ≡ true) ↔ (
    (t : Text) × (contains (codes "a" ∷ codes "b" ∷ []) t ≡ true)
    × (contains (codes "b" ∷ []) t ≡ true))
shares-exact_example = shares-exact (codes "a" ∷ codes "b" ∷ []) (codes "b" ∷ [])

ordered_peer_groups-exact_example :
    contains (ordered_peer_groups (codes "a" ∷ []) (codes "session:s")) (codes "b")
    ≡ (contains (codes "a" ∷ []) (codes "b") || text_eq (codes "session:s") (codes "b"))
ordered_peer_groups-exact_example =
    ordered_peer_groups-exact (codes "a" ∷ []) (codes "session:s") (codes "b")

unsupported-exact_example : (unsupported bare_options (codes "cwd" ∷ []) ≡ []) ↔ (
    (is_empty bare_options.cwd ≡ false → contains (codes "cwd" ∷ []) (codes "cwd") ≡ true)
    × (is_empty bare_options.permission_mode ≡ false
        → contains (codes "cwd" ∷ []) (codes "permission_mode") ≡ true)
    × (is_empty bare_options.model ≡ false → contains (codes "cwd" ∷ []) (codes "model") ≡ true)
    × (is_empty bare_options.reasoning_effort ≡ false
        → contains (codes "cwd" ∷ []) (codes "reasoning_effort") ≡ true)
    × (is_empty bare_options.arguments ≡ false
        → contains (codes "cwd" ∷ []) (codes "arguments") ≡ true))
unsupported-exact_example = unsupported-exact bare_options (codes "cwd" ∷ [])
