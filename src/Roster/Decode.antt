-- ===== src/Roster/Decode.antt =====
-- roster.go: the checks of `DecodeRemote`. The JSON decoder is the parameter `decode`, which answers
-- `none` on an error; a slice of Go is `none` where it is nil.
use sessionbus.Base.{
  Bool, List, Option, Text, [], codes, contains, if◌then◌else◌, is_empty, is_none, length, ltb,
  none, not, some, text_eq, ℕ, ◌&&◌, ◌-◌, ◌^◌, ◌||◌, ◌∷◌,
}

pub record Row : Type 0 where
  pub permission_mode : Text
  pub session_id : Text
  pub name : Text
  pub kind : Text
  pub product : Text
  pub groups : Option (List Text)
  pub connected : Bool
  pub running : Bool
  pub owner : Text
  pub persistent : Bool

pub record Host : Type 0 where
  pub host : Text
  pub products : Option (List Text)
  pub sessions : Option (List Row)
  pub error : Text

pub record Remote : Type 0 where
  pub hosts : Option (List Host)

abbrev pub max_rows : ℕ
max_rows = 4096

-- `protocol.MaxFrameBytes` - 1024.
abbrev pub max_bytes : ℕ
max_bytes = 2 ^ 20 - 1024

pub data RosterError : Type 0 where
  invalid_roster invalid_host invalid_row : RosterError

-- The inner loop, with the identifiers of the rows before; the first error, if any.
unfoldable pub check_rows : List Text → List Row → Option RosterError
check_rows ids [] = none
check_rows ids (r ∷ rs) =
    let rest = check_rows (r.session_id ∷ ids) rs in
    if is_empty r.session_id
      || contains ids r.session_id
      || is_none r.groups
      || not (text_eq r.kind (codes "peer")) && not (text_eq r.kind (codes "lane"))
    then some invalid_row
    else rest

abbrev pub or_else : Option RosterError → Option RosterError → Option RosterError
or_else none next = next
or_else (some e) next = some e

-- The checks of a host's own fields, whose sessions are not nil.
abbrev pub host_sessions : Host → Option (List Row)
host_sessions h = elim h.products [ none ↦ none | some p ↦ h.sessions ]

-- The outer loop, with the names of the hosts before.
unfoldable pub check_hosts : List Text → List Host → Option RosterError
unfolding check_rows
check_hosts seen [] = none
check_hosts seen (h ∷ hs) =
    let rest = check_hosts (h.host ∷ seen) hs in
    if is_empty h.host || contains seen h.host then some invalid_host else elim (host_sessions h) [
      | none ↦ some invalid_host
      | some rows ↦
          if ltb max_rows (length rows)
          then some invalid_host
          else or_else (check_rows [] rows) rest
    ]

unfoldable pub check_remote : Remote → Option RosterError
unfolding check_hosts
check_remote v = elim v.hosts [
  | none ↦ some invalid_roster
  | some hosts ↦ if ltb max_rows (length hosts) then some invalid_roster else check_hosts [] hosts
]

module _ (decode : List ℕ → Option Remote) where
  -- The value, or the error.
  unfoldable pub decode_remote : List ℕ → Option Remote × Option RosterError
  unfolding check_remote
  decode_remote raw =
      if ltb max_bytes (length raw) then (none, some invalid_roster) else elim (decode raw) [
        | none ↦ (none, some invalid_roster)
        | some v ↦ (some v, check_remote v)
      ]
