-- ===== src/Daemon/Policy.antt =====
-- policy.go of bus/internal/daemon: the policy of a lane, from a spawn request and the policy that
-- the lane had. `EncodeResult` is used to check the policy's shape in session.schema.json.
use sessionbus.Base.{
  Bool, Option, Text, [], codes, contains, false, if◌then◌else◌, is_empty, none, not, some, text_eq,
  true, ℕ, ◌&&◌, ◌∷◌,
}
use sessionbus.Base.Int.{ltb_ℤ, pos, ℤ}

-- `LanePolicy`; the milliseconds are an int64.
pub record LanePolicy : Type 0 where
  pub persistent : Bool
  pub auto_close_ms : ℤ
  pub idle_message : Text
  pub notify : Bool
  pub notify_target : Text
  pub owner_session_id : Text
  pub trace : Text

-- The fields of `LaneSpawnRequest` that the policy comes from; `none` is a nil pointer.
pub record SpawnRequest : Type 0 where
  pub persistent : Option Bool
  pub auto_close_ms : Option ℤ
  pub notify : Option Bool
  pub notify_target : Text

pub data PolicyError : Type 0 where
  demoted missing_target foreign_target disabled_target invalid_shape : PolicyError

pub data PolicyResult : Type 0 where
  refused : PolicyError → PolicyResult
  normal : LanePolicy → PolicyResult

abbrev pub default_auto_close_ms : ℤ
default_auto_close_ms = pos 60000

abbrev pub maximum_auto_close_ms : ℕ
maximum_auto_close_ms = 9223372036854

abbrev pub run_text : Text
run_text = codes "run"

-- A pointer that is set replaces the value.
abbrev pub given {ℓ} : {A : Type ℓ} → Option A → A → A
given none a = a
given (some b) a = b

unfoldable pub start_policy : Option LanePolicy → Text → LanePolicy
start_policy none owner = record {
  persistent = false;
  auto_close_ms = default_auto_close_ms;
  idle_message = run_text;
  notify = true;
  notify_target = [];
  owner_session_id = owner;
  trace = [];
}
start_policy (some p) owner = record p {
  auto_close_ms = default_auto_close_ms;
  owner_session_id = owner;
}

-- Whether the request would end a persistent lifetime.
unfoldable pub demotes : SpawnRequest → LanePolicy → Bool
demotes input value = value.persistent && not (given input.persistent true)

unfoldable pub with_lifetime : SpawnRequest → LanePolicy → LanePolicy
with_lifetime input value = record value {
  persistent = given input.persistent value.persistent;
  auto_close_ms = given input.auto_close_ms value.auto_close_ms;
  idle_message = run_text;
}

-- Whom a persistent lane notifies before the request is read: a new one nobody, one that was owned
-- until now its owner.
unfoldable pub inherited : Option LanePolicy → LanePolicy → LanePolicy
inherited none value = record value { owner_session_id = []; notify = false }
inherited (some p) value =
    if not p.persistent && p.notify
    then record value { owner_session_id = []; notify_target = p.owner_session_id }
    else record value { owner_session_id = [] }

unfoldable pub with_target : SpawnRequest → LanePolicy → LanePolicy
with_target input value =
    if not (is_empty input.notify_target)
    then record value { notify_target = input.notify_target; notify = given input.notify true }
    else record value { notify = given input.notify value.notify }

unfoldable pub checked_target : LanePolicy → PolicyResult
checked_target value =
    if not value.notify
    then normal (record value { notify_target = [] })
    else if is_empty value.notify_target
    then refused missing_target
    else normal value

-- The two arms of `if value.Persistent`.
unfoldable pub notification : SpawnRequest → Option LanePolicy → Text → LanePolicy → PolicyResult
unfolding inherited with_target checked_target
notification input previous owner value =
    if value.persistent
    then checked_target (with_target input (inherited previous value))
    else if not (is_empty input.notify_target) && not (text_eq input.notify_target owner)
    then refused foreign_target
    else normal (record value { notify = given input.notify true; notify_target = [] })

-- The shape `LanePolicy` of the schema; an empty optional text is left out of the JSON.
unfoldable pub valid_policy : LanePolicy → Bool
valid_policy v =
    not (ltb_ℤ v.auto_close_ms (pos 0))
    && not (ltb_ℤ (pos maximum_auto_close_ms) v.auto_close_ms)
    && contains (codes "stage" ∷ run_text ∷ []) v.idle_message
    && contains ([] ∷ codes "off" ∷ codes "events" ∷ codes "content" ∷ []) v.trace

-- The two checks after the arms.
unfoldable pub finish_policy : SpawnRequest → PolicyResult → PolicyResult
unfolding valid_policy
finish_policy input (refused e) = refused e
finish_policy input (normal v) =
    if not (given input.notify true) && not (is_empty input.notify_target)
    then refused disabled_target
    else if valid_policy v
    then normal v
    else refused invalid_shape

unfoldable pub normalize_policy : SpawnRequest → Option LanePolicy → Text → PolicyResult
unfolding start_policy demotes with_lifetime notification finish_policy
normalize_policy input previous owner =
    let value = start_policy previous owner in
    if demotes input value
    then refused demoted
    else finish_policy input (notification input previous owner (with_lifetime input value))

-- A request that says nothing about the policy.
abbrev pub no_request : SpawnRequest
no_request = record { persistent = none; auto_close_ms = none; notify = none; notify_target = [] }
