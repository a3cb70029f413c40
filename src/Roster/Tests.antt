-- ===== src/Roster/Tests.antt =====
-- A roster of two hosts.
use sessionbus.Base.{
  List, Option, [], codes, contains, false, length, none, refl, some, text_eq, true, ℕ, ◌↔◌, ◌∷◌,
  ◌≡◌, ◌≤◌,
}
use sessionbus.Roster.Decode.{
  Remote, Row, check_hosts, check_remote, check_rows, decode_remote, max_bytes,
}
use sessionbus.Roster.Unique.{IsRoster, decode_remote-exact}

abbrev peer_row : Row
peer_row = record {
  permission_mode = [];
  session_id = codes "s@h1";
  name = [];
  kind = codes "peer";
  product = codes "p";
  groups = some [];
  connected = true;
  running = false;
  owner = [];
  persistent = false;
}

abbrev two_hosts : Remote
two_hosts = record {
  hosts = some (
      record { host = codes "h1"; products = some []; sessions = some (peer_row ∷ []); error = [] }
      ∷ record { host = codes "h2"; products = some []; sessions = some []; error = [] }
      ∷ []);
}

two_hosts_ok : check_remote two_hosts ≡ none
unfolding check_remote check_hosts check_rows contains text_eq
two_hosts_ok = refl

abbrev toy_text : List ℕ
toy_text = 123 ∷ []

-- Decodes every text to this roster.
abbrev toy_decode : List ℕ → Option Remote
toy_decode raw = some two_hosts

decode_remote-exact_example :
    (decode_remote toy_decode toy_text ≡ (some two_hosts, none))
    ↔ ((length toy_text ≤ max_bytes) × (toy_decode toy_text ≡ some two_hosts) × IsRoster two_hosts)
decode_remote-exact_example = decode_remote-exact toy_decode toy_text two_hosts
