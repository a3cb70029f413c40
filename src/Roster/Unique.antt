-- ===== src/Roster/Unique.antt =====
-- roster.go: which rosters `DecodeRemote` accepts.
use sessionbus.Base.{
  List, Option, Option-cases, Text, [], ap, arith, codes, contains, false, if◌then◌else◌, inl, inr,
  is_empty, is_none, length, ltb, none, refl, some, subst, text_eq_iff, ℕ, ◌↔◌, ◌∙◌, ◌∷◌, ◌≡◌, ◌≤◌,
  ◌⊎◌,
}
use sessionbus.Roster.Decode.{
  Host, Remote, RosterError, Row, check_hosts, check_remote, check_rows, decode_remote,
  host_sessions, invalid_host, max_bytes, max_rows, or_else,
}

abbrev pub NoneIn : List Text → List Text → Type 0
NoneIn seen [] = Unit {0}
NoneIn seen (x ∷ xs) = (contains seen x ≡ false) × NoneIn seen xs

-- The texts differ from one another.
abbrev pub Distinct : List Text → Type 0
Distinct [] = Unit {0}
Distinct (x ∷ xs) = NoneIn (x ∷ []) xs × Distinct xs

NoneIn-tail : (a : Text) (seen xs : List Text) → NoneIn (a ∷ seen) xs → NoneIn seen xs
unfolding contains
NoneIn-tail a seen [] h = tt
NoneIn-tail a seen (x ∷ xs) h = (ground arith, NoneIn-tail a seen xs h.1)

NoneIn-head : (a : Text) (seen xs : List Text) → NoneIn (a ∷ seen) xs → NoneIn (a ∷ []) xs
unfolding contains
NoneIn-head a seen [] h = tt
NoneIn-head a seen (x ∷ xs) h = (ground arith, NoneIn-head a seen xs h.1)

NoneIn-cons :
    (a : Text) (seen xs : List Text) → NoneIn (a ∷ []) xs → NoneIn seen xs → NoneIn (a ∷ seen) xs
unfolding contains
NoneIn-cons a seen [] h k = tt
NoneIn-cons a seen (x ∷ xs) h k = (ground arith, NoneIn-cons a seen xs h.1 k.1)

NoneIn-nil : (xs : List Text) → NoneIn [] xs
unfolding contains
NoneIn-nil [] = tt
NoneIn-nil (x ∷ xs) = (refl, NoneIn-nil xs)

abbrev pub row_ids : List Row → List Text
row_ids [] = []
row_ids (r ∷ rs) = r.session_id ∷ row_ids rs

abbrev pub host_names : List Host → List Text
host_names [] = []
host_names (h ∷ hs) = h.host ∷ host_names hs

-- A row has an identifier, groups, and one of the two kinds.
pub record IsRow (r : Row) : Type 0 where
  pub named : is_empty r.session_id ≡ false
  pub grouped : is_none r.groups ≡ false
  pub kind : (r.kind ≡ codes "peer") ⊎ (r.kind ≡ codes "lane")

abbrev pub AllRows : List Row → Type 0
AllRows [] = Unit {0}
AllRows (r ∷ rs) = IsRow r × AllRows rs

check_rows-ok :
    (ids : List Text) (rs : List Row)
    → check_rows ids rs ≡ none
    → NoneIn ids (row_ids rs) × Distinct (row_ids rs) × AllRows rs
unfolding check_rows
check_rows-ok ids [] h = (tt, tt, tt)
check_rows-ok ids (r ∷ rs) h =
    let (n, d, a) : NoneIn (r.session_id ∷ ids) (row_ids rs) × Distinct (row_ids rs) × AllRows rs =
      check_rows-ok (r.session_id ∷ ids) rs (ground arith) in
    (
      (ground arith, NoneIn-tail r.session_id ids (row_ids rs) n),
      (NoneIn-head r.session_id ids (row_ids rs) n, d),
      (
        record {
          named = ground arith;
          grouped = ground arith;
          kind =
              ground (arith, text_eq_iff r.kind (codes "peer"), text_eq_iff r.kind (codes "lane"));
        },
        a,
      ),
    )

check_rows-accepts :
    (ids : List Text) (rs : List Row)
    → NoneIn ids (row_ids rs)
    → Distinct (row_ids rs)
    → AllRows rs
    → check_rows ids rs ≡ none
unfolding check_rows
check_rows-accepts ids [] n d a = refl
check_rows-accepts ids (r ∷ rs) n d a =
    let rest =
      check_rows-accepts (r.session_id ∷ ids) rs (NoneIn-cons r.session_id ids (row_ids rs) d.0 n.1)
        d.1 a.1 in
    ground (
      arith,
      rest,
      n.0,
      a.0.named,
      a.0.grouped,
      a.0.kind,
      text_eq_iff r.kind (codes "peer"),
      text_eq_iff r.kind (codes "lane"),
    )

-- A host has a name, products, and at most 4096 sessions, each under its own identifier.
pub record IsHost (h : Host) : Type 0 where
  pub named : is_empty h.host ≡ false
  pub products : is_none h.products ≡ false
  pub rows : List Row
  pub sessions : h.sessions ≡ some rows
  pub bound : length rows ≤ max_rows
  pub distinct : Distinct (row_ids rows)
  pub valid : AllRows rows

abbrev pub AllHosts : List Host → Type 0
AllHosts [] = Unit {0}
AllHosts (h ∷ hs) = IsHost h × AllHosts hs

sessions-ok :
    (o : Option (List Row)) (next : Option RosterError)
    → elim o [
      | none ↦ some invalid_host
      | some rows ↦
          if ltb max_rows (length rows)
          then some invalid_host
          else or_else (check_rows [] rows) next
    ]
      ≡ none
    → (rows : List Row) × (o ≡ some rows)
      × (length rows ≤ max_rows)
      × (check_rows [] rows ≡ none)
      × (next ≡ none)
sessions-ok none next h = absurd (ground arith)
sessions-ok (some rows) next h = (
  rows,
  refl,
  ground arith,
  first_none (check_rows [] rows) (ground arith),
  next_none (check_rows [] rows) (ground arith),
)
  where
    first_none : (o : Option RosterError) → or_else o next ≡ none → o ≡ none
    first_none none e = refl
    first_none (some x) e = e

    next_none : (o : Option RosterError) → or_else o next ≡ none → next ≡ none
    next_none none e = e
    next_none (some x) e = absurd (ground arith)

host_sessions-ok :
    (h : Host) (rows : List Row)
    → host_sessions h ≡ some rows
    → (is_none h.products ≡ false) × (h.sessions ≡ some rows)
host_sessions-ok h rows e = elim (Option-cases h.products) [
  | inl n ↦ absurd (ground arith)
  | inr (p, n) ↦ (ground arith, ground arith)
]

check_hosts-ok :
    (seen : List Text) (hs : List Host)
    → check_hosts seen hs ≡ none
    → NoneIn seen (host_names hs) × Distinct (host_names hs) × AllHosts hs
unfolding check_hosts
check_hosts-ok seen [] h = (tt, tt, tt)
check_hosts-ok seen (x ∷ hs) h =
    let (rows, e, b, ok, next) =
      sessions-ok (host_sessions x) (check_hosts (x.host ∷ seen) hs) (ground arith) in
    let (n, d, a) = check_hosts-ok (x.host ∷ seen) hs next in
    let (products, sessions) = host_sessions-ok x rows e in
    let (m, distinct, valid) = check_rows-ok [] rows ok in
    (
      (ground arith, NoneIn-tail x.host seen (host_names hs) n),
      (NoneIn-head x.host seen (host_names hs) n, d),
      (
        record {
          named = ground arith;
          products = products;
          rows = rows;
          sessions = sessions;
          bound = b;
          distinct = distinct;
          valid = valid;
        },
        a,
      ),
    )

check_hosts-accepts :
    (seen : List Text) (hs : List Host)
    → NoneIn seen (host_names hs)
    → Distinct (host_names hs)
    → AllHosts hs
    → check_hosts seen hs ≡ none
unfolding check_hosts
check_hosts-accepts seen [] n d a = refl
check_hosts-accepts seen (x ∷ hs) n d a =
    let rest_ok =
      check_hosts-accepts (x.host ∷ seen) hs (NoneIn-cons x.host seen (host_names hs) d.0 n.1) d.1
        a.1 in
    let h = a.0 in
    let rows_ok = check_rows-accepts [] h.rows (NoneIn-nil (row_ids h.rows)) h.distinct h.valid in
    ground (arith, rest_ok, n.0, h.named, h.products, h.sessions, h.bound, rows_ok)

-- The rosters that the checks accept: at most 4096 hosts, each under its own name.
pub record IsRoster (v : Remote) : Type 0 where
  pub hosts : List Host
  pub listed : v.hosts ≡ some hosts
  pub bound : length hosts ≤ max_rows
  pub distinct : Distinct (host_names hosts)
  pub valid : AllHosts hosts

check_remote-exact : (v : Remote) → (check_remote v ≡ none) ↔ IsRoster v
unfolding check_remote
check_remote-exact v = (sound, complete)
  where
    sound : check_remote v ≡ none → IsRoster v
    sound h = elim (Option-cases v.hosts) [
      | inl e ↦ absurd (ground arith)
      | inr (hosts, e) ↦
          let (n, d, a) = check_hosts-ok [] hosts (ground arith) in
          record { hosts = hosts; listed = e; bound = ground arith; distinct = d; valid = a }
    ]

    complete : IsRoster v → check_remote v ≡ none
    complete r =
        let ok =
          check_hosts-accepts [] r.hosts (NoneIn-nil (host_names r.hosts)) r.distinct r.valid in
        ground (arith, r.listed, r.bound, ok)

module _ (decode : List ℕ → Option Remote) where
  -- `DecodeRemote` returns a roster without an error exactly if the text is not longer than
  -- `MaxBytes`, the JSON decoder gives that roster, and it has at most 4096 hosts, each with its own
  -- name, products, and at most 4096 sessions, each with its own identifier, groups and one of the
  -- two kinds.
  pub decode_remote-exact :
      (raw : List ℕ) (v : Remote)
      → (decode_remote decode raw ≡ (some v, none))
        ↔ ((length raw ≤ max_bytes) × (decode raw ≡ some v) × IsRoster v)
  unfolding decode_remote
  decode_remote-exact raw v = (sound, complete)
    where
      sound :
          decode_remote decode raw ≡ (some v, none)
          → (length raw ≤ max_bytes) × (decode raw ≡ some v) × IsRoster v
      sound h = elim (Option-cases (decode raw)) [
        | inl e ↦ absurd (ground arith)
        | inr (w, e) ↦
            let same : w ≡ v = ground arith in
            (
              ground arith,
              e ∙ ap some same,
              subst IsRoster same ((check_remote-exact w).0 (ground arith)),
            )
      ]

      complete :
          (length raw ≤ max_bytes) × (decode raw ≡ some v) × IsRoster v
          → decode_remote decode raw ≡ (some v, none)
      complete (b, e, r) = ground (arith, b, e, (check_remote-exact v).1 r)
