-- ===== src/CommsLog/Options.antt =====
-- commslog.go: the options of a log and their validation.
use sessionbus.Base.{
  Bool, List, Option, Text, [], all_of, false, if◌then◌else◌, is_empty, length, ltb, none, not,
  some, true, ◌||◌, ◌∷◌,
}
use sessionbus.Base.Int.{ltb_ℤ, pos, ℤ}
use sessionbus.CommsLog.Events.{
  Mode, content, maximum_filters, maximum_label_bytes, metadata, off, other_mode,
}

pub record Options : Type 0 where
  pub mode : Mode
  pub path : Text
  pub host : Text
  pub incarnation : Text
  pub max_file_bytes : ℤ
  pub max_files : ℤ
  pub queue_bytes : ℤ
  pub sessions : List Text
  pub groups : List Text
  pub on_error : Bool

pub data OptionsError : Type 0 where
  invalid_mode missing_label label_too_long invalid_bounds invalid_filter : OptionsError

abbrev pub minimum_file_bytes : ℤ
minimum_file_bytes = pos 4096

abbrev pub minimum_queue_bytes : ℤ
minimum_queue_bytes = pos 4096

-- The modes that record something.
abbrev pub records : Mode → Bool
records metadata = true
records content = true
records off = false
records (other_mode t) = false

unfoldable pub valid_filters : List Text → Bool
valid_filters values =
    if ltb maximum_filters (length values)
    then false
    else all_of (λ value. not (is_empty value || ltb maximum_label_bytes (length value))) values

unfoldable pub validate_options : Options → Option OptionsError
unfolding valid_filters
validate_options o =
    if not (records o.mode)
    then some invalid_mode
    else if is_empty o.path || is_empty o.host || is_empty o.incarnation
    then some missing_label
    else if ltb maximum_label_bytes (length o.host)
        || ltb maximum_label_bytes (length o.incarnation)
    then some label_too_long
    else if ltb_ℤ o.max_file_bytes minimum_file_bytes
        || ltb_ℤ o.queue_bytes minimum_queue_bytes
        || ltb_ℤ o.max_files (pos 1)
    then some invalid_bounds
    else if not (valid_filters o.sessions) || not (valid_filters o.groups)
    then some invalid_filter
    else none

-- A set is the list of its members; the empty text is never one.
unfoldable pub string_set : List Text → List Text
string_set [] = []
string_set (v ∷ vs) = if is_empty v then string_set vs else v ∷ string_set vs
