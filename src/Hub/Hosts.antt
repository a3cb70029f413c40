-- ===== src/Hub/Hosts.antt =====
-- hub.go: the links that the registry holds, and what a link's removal tells the others.
use mathlib.Core.Bool.{false≢true}
use mathlib.Core.List.{append-nil, append_assoc}
use mathlib.Core.Option.{none-ne-some}
use sessionbus.Base.{
  Bool, Bool-cases, List, Option, Text, [], any_of, ap, arith, false, if_cases, if_false,
  if◌then◌else◌, inl, inr, none, not, option_cases, refl, some, sym, text_eq, text_eq_iff, true, ℕ,
  ◌&&◌, ◌++◌, ◌==◌, ◌||◌, ◌∙◌, ◌∷◌, ◌≡◌, ◌⊎◌,
}
use sessionbus.Hub.Registry.{
  Answer, Event, Forwarded, HostLink, HubState, Message, asks_forward, delete_link, ends_owner,
  find_link, forward, forward_to, handle, host_end_message, hosts_of, hosts_result, hub_history,
  is_registered, link_closed, lists_hosts, owner_end, plain, post_forward, put_link, ready, refusal,
  remove, replies, reply, tell_end, unsupported,
}
use sessionbus.Protocol.{Code, unknown_host}

find_link-delete :
    (gone host : Text) (ls : List HostLink)
    → find_link host (delete_link gone ls) ≡ (if text_eq gone host then none else find_link host ls)
unfolding find_link delete_link
find_link-delete gone host [] = ground arith
find_link-delete gone host (l ∷ ls) = ground (
  arith,
  find_link-delete gone host ls,
  text_eq_iff l.host gone,
  text_eq_iff l.host host,
  text_eq_iff gone host,
)

find_link-snoc :
    (host : Text) (ls : List HostLink) (k l : HostLink)
    → find_link host ls ≡ some l
    → find_link host (ls ++ k ∷ []) ≡ some l
unfolding find_link
find_link-snoc host [] k l e = absurd (none-ne-some l e)
find_link-snoc host (x ∷ ls) k l e = ground (arith, find_link-snoc host ls k l)

find_link-put :
    (host : Text) (ls : List HostLink) (k l : HostLink)
    → find_link k.host ls ≡ none
    → find_link host ls ≡ some l
    → find_link host (put_link k ls) ≡ some l
unfolding put_link
find_link-put host ls k l n e = elim (Bool-cases (text_eq k.host host)) [
  | inl t ↦
      absurd (none-ne-some l (sym n ∙ ap (λ x. find_link x ls) ((text_eq_iff k.host host).0 t) ∙ e))
  | inr f ↦
      find_link-snoc host (delete_link k.host ls) k l
        (find_link-delete k.host host ls ∙ if_false _ _ f ∙ e)
]

abbrev pub is_closed : ℕ → List ℕ → Bool
is_closed n ns = any_of (λ m. m == n) ns

is_closed-append : (n : ℕ) (ns ms : List ℕ) → is_closed n ns ≡ true → is_closed n (ns ++ ms) ≡ true
unfolding any_of
is_closed-append n [] ms e = absurd (false≢true e)
is_closed-append n (x ∷ ns) ms e = ground (arith, is_closed-append n ns ms)

is_closed-snoc : (n : ℕ) (ns : List ℕ) (m : ℕ) → (m == n) ≡ true → is_closed n (ns ++ m ∷ []) ≡ true
unfolding any_of
is_closed-snoc n [] m e = ground arith
is_closed-snoc n (x ∷ ns) m e = ground (arith, is_closed-snoc n ns m e)

-- The registry's link of the host is `l`, or the wire of `l` has been closed.
abbrev pub IsKept : Text → HostLink → HubState → Type 0
IsKept host l s = (find_link host s.links ≡ some l) ⊎ (is_closed l.number s.closed ≡ true)

still-IsKept :
    (host : Text) (l : HostLink) (s : HubState) (ns : List ℕ)
    → IsKept host l s
    → IsKept host l (record s { closed = s.closed ++ ns })
still-IsKept host l s ns (inl e) = inl e
still-IsKept host l s ns (inr c) = inr (is_closed-append l.number s.closed ns c)

registered_number :
    (ls : List HostLink) (link l : HostLink)
    → find_link link.host ls ≡ some l
    → is_registered ls link ≡ true
    → (link.number == l.number) ≡ true
unfolding is_registered
registered_number ls link l e r = ground (arith, e, r)

IsKept-without :
    (host : Text) (l link : HostLink) (s : HubState)
    → is_registered s.links link ≡ true
    → IsKept host l s
    → IsKept host l
        (record s { links = delete_link link.host s.links; closed = s.closed ++ link.number ∷ [] })
IsKept-without host l link s r (inr c) =
    inr (is_closed-append l.number s.closed (link.number ∷ []) c)
IsKept-without host l link s r (inl e) = elim (Bool-cases (text_eq link.host host)) [
  | inl t ↦
      let found : find_link link.host s.links ≡ some l =
        ap (λ x. find_link x s.links) ((text_eq_iff link.host host).0 t) ∙ e in
      inr (is_closed-snoc l.number s.closed link.number (registered_number s.links link l found r))
  | inr f ↦ inl (find_link-delete link.host host s.links ∙ if_false _ _ f ∙ e)
]

module _ (host : Text) (l : HostLink) (full : ℕ → Bool) where
  tell_end-IsKept :
      (link : HostLink) (os : List HostLink) (s : HubState)
      → IsKept host l s
      → IsKept host l (tell_end full link os s)
  unfolding tell_end
  tell_end-IsKept link [] s h = h
  tell_end-IsKept link (o ∷ os) s h =
      tell_end-IsKept link os
        (if full o.number then record s { closed = s.closed ++ o.number ∷ [] } else record s {
          messages = s.messages ++ (o.number, host_end_message link.host link.attachment) ∷ [];
        })
        (if_cases (IsKept host l) (full o.number) (λ _. still-IsKept host l s (o.number ∷ []) h)
          (λ _. h))

  remove-IsKept :
      (link : HostLink) (s : HubState) → IsKept host l s → IsKept host l (remove full link s)
  unfolding remove
  remove-IsKept link s h =
      let rest = delete_link link.host s.links in
      if_cases (IsKept host l) (is_registered s.links link)
        (λ r.
          tell_end-IsKept link rest
            (record s { links = rest; closed = s.closed ++ link.number ∷ [] })
            (IsKept-without host l link s r h))
        (λ _. h)

  reply-IsKept :
      (origin : HostLink) (d : Option HostLink) (id : ℕ) (a : Answer) (collect : Bool)
      (s : HubState)
      → IsKept host l s
      → IsKept host l (reply full origin d id a collect s)
  unfolding reply
  reply-IsKept origin d id a collect s h =
      if_cases (IsKept host l) (not (is_registered s.links origin) || full origin.number)
        (λ _. remove-IsKept origin s h) (λ _. h)

  forward_to-IsKept :
      (origin d : HostLink) (id : ℕ) (f : Forwarded) (s : HubState)
      → IsKept host l s
      → IsKept host l (forward_to full origin d id f s)
  unfolding forward_to post_forward
  forward_to-IsKept origin d id f s h =
      if_cases (IsKept host l) (f.completion && not d.wake)
        (λ _. reply-IsKept origin none id (plain (refusal Code.forward_lost)) false s h)
        (λ _.
          if_cases (IsKept host l) (f.requires && not d.traces)
            (λ _. reply-IsKept origin none id (plain unsupported) false s h)
            (λ _. if_cases (IsKept host l) (full d.number) (λ _. remove-IsKept d s h) (λ _. h)))

  forward-IsKept :
      (origin : HostLink) (id : ℕ) (name : Text) (f : Forwarded) (s : HubState)
      → IsKept host l s
      → IsKept host l (forward full origin id name f s)
  unfolding forward
  forward-IsKept origin id name f s h =
      if_cases (IsKept host l) (not (is_registered s.links origin)) (λ _. h)
        (λ _.
          if_cases (IsKept host l) (f.completion && not origin.wake)
            (λ _. reply-IsKept origin none id (plain (refusal Code.forward_lost)) false s h)
            (λ _.
              if_cases (IsKept host l) (f.requires && not origin.traces)
                (λ _. reply-IsKept origin none id (plain unsupported) false s h)
                (λ _.
                  option_cases (IsKept host l) (find_link name s.links)
                    (λ _. reply-IsKept origin none id (plain (refusal unknown_host)) false s h)
                    (λ d _.
                      forward_to-IsKept origin d id (record f { trace = f.trace && origin.traces })
                        s h))))

  owner_end-IsKept :
      (origin : HostLink) (id : ℕ) (name : Text) (s : HubState)
      → IsKept host l s
      → IsKept host l (owner_end full origin id name s)
  unfolding owner_end
  owner_end-IsKept origin id name s h =
      if_cases (IsKept host l) (not (is_registered s.links origin)) (λ _. h)
        (λ _.
          option_cases (IsKept host l) (find_link name s.links)
            (λ _. reply-IsKept origin none id (plain (refusal unknown_host)) false s h)
            (λ d _.
              if_cases (IsKept host l) (full d.number)
                (λ _.
                  reply-IsKept origin none id (plain (refusal Code.forward_lost)) false
                    (remove full d s) (remove-IsKept d s h))
                (λ _. h)))

  handle-IsKept :
      (sort : List Text → List Text) (s : HubState) (e : Event)
      → IsKept host l s
      → IsKept host l (handle sort full s e)
  unfolding handle
  handle-IsKept sort s (ready link) h =
      option_cases (IsKept host l) (find_link link.host s.links) (λ n. by_lookup n h)
        (λ _ _. still-IsKept host l s (link.number ∷ []) h)
    where
      by_lookup :
          find_link link.host s.links ≡ none
          → IsKept host l s
          → IsKept host l (record s { links = put_link link s.links })
      by_lookup n (inl e) = inl (find_link-put host s.links link l n e)
      by_lookup n (inr c) = inr c
  handle-IsKept sort s (link_closed link) h = remove-IsKept link s h
  handle-IsKept sort s (lists_hosts link id) h =
      if_cases (IsKept host l) (is_registered s.links link)
        (λ _.
          reply-IsKept link none id (plain (hosts_result (sort (hosts_of link s.links)))) false s h)
        (λ _. h)
  handle-IsKept sort s (asks_forward link id name f) h = forward-IsKept link id name f s h
  handle-IsKept sort s (ends_owner link id name) h = owner_end-IsKept link id name s h
  handle-IsKept sort s (replies w a) h =
      reply-IsKept w.origin (some w.destination) w.id a w.collect s h

run_keeps :
    (sort : List Text → List Text) (host : Text) (l : HostLink) (s : HubState)
    (es : List ((ℕ → Bool) × Event))
    → IsKept host l s
    → IsKept host l (hub_history sort s es)
unfolding hub_history
run_keeps sort host l s [] h = h
run_keeps sort host l s ((full, e) ∷ es) h =
    run_keeps sort host l (handle sort full s e) es (handle-IsKept host l full sort s e h)

-- Whatever happens to the hub's registry, the link that it holds for a host stays that host's link until
-- its wire is closed: no other link takes its place, and it is not taken out, before that.
pub hub_history_keeps :
    (sort : List Text → List Text) (s : HubState) (es : List ((ℕ → Bool) × Event)) (host : Text)
    (l : HostLink)
    → find_link host s.links ≡ some l
    → let t = hub_history sort s es in
      (find_link host t.links ≡ some l) ⊎ (is_closed l.number t.closed ≡ true)
hub_history_keeps sort s es host l e = run_keeps sort host l s es (inl e)

-- The links that are told of the end of another, and those whose wire is closed since they are full.
abbrev pub told : (ℕ → Bool) → HostLink → List HostLink → List (ℕ × Message)
told full link [] = []
told full link (o ∷ os) =
    let rest = told full link os in
    if full o.number then rest else (o.number, host_end_message link.host link.attachment) ∷ rest

abbrev pub refused : (ℕ → Bool) → List HostLink → List ℕ
refused full [] = []
refused full (o ∷ os) =
    let rest = refused full os in if full o.number then o.number ∷ rest else rest

tell_end-exact :
    (full : ℕ → Bool) (link : HostLink) (os : List HostLink) (s : HubState)
    → let t = tell_end full link os s in
      (t.links ≡ s.links)
      × (t.messages ≡ s.messages ++ told full link os)
      × (t.closed ≡ s.closed ++ refused full os)
unfolding tell_end
tell_end-exact full link [] s = (refl, sym (append-nil s.messages), sym (append-nil s.closed))
tell_end-exact full link (o ∷ os) s = by_full (tell_end-exact full link os) (full o.number)
  where
    message : ℕ × Message
    message = (o.number, host_end_message link.host link.attachment)

    by_full :
        ((s : HubState)
          → let t = tell_end full link os s in
            (t.links ≡ s.links)
            × (t.messages ≡ s.messages ++ told full link os)
            × (t.closed ≡ s.closed ++ refused full os))
        → (b : Bool)
        → let t = tell_end full link os (
            if b
            then record s { closed = s.closed ++ o.number ∷ [] }
            else record s { messages = s.messages ++ message ∷ [] }) in
          (t.links ≡ s.links)
          × (t.messages
              ≡ s.messages ++ (if b then told full link os else message ∷ told full link os))
          × (t.closed ≡ s.closed ++ (if b then o.number ∷ refused full os else refused full os))
    by_full ih true =
        let h = ih (record s { closed = s.closed ++ o.number ∷ [] }) in
        (h.0, h.1, h.2 ∙ append_assoc s.closed (o.number ∷ []) (refused full os))
    by_full ih false =
        let h = ih (record s { messages = s.messages ++ message ∷ [] }) in
        (h.0, h.1 ∙ append_assoc s.messages (message ∷ []) (told full link os), h.2)

-- The removal of a link, if the registry holds it, takes exactly that host out, closes the link's wire,
-- and for every other link either posts to it the end of the host, with the removed link's attachment,
-- or, if that link is full, closes its wire; if the registry does not hold the link, every lookup, the
-- messages and the closed wires stay as they are.
pub remove_exact :
    (full : ℕ → Bool) (link : HostLink) (s : HubState) (host : Text)
    → let t = remove full link s in
      let held = is_registered s.links link in
      (find_link host t.links
        ≡ (if held && text_eq link.host host then none else find_link host s.links))
      × (t.messages ≡ s.messages ++ (if held then told full link t.links else []))
      × (t.closed ≡ s.closed ++ (if held then link.number ∷ refused full t.links else []))
unfolding remove
remove_exact full link s host = by_held (is_registered s.links link)
  where
    others : List HostLink
    others = delete_link link.host s.links

    u : HubState
    u = record s { links = others; closed = s.closed ++ link.number ∷ [] }

    by_held :
        (b : Bool)
        → let t = if b then tell_end full link others u else s in
          (find_link host t.links
            ≡ (if b && text_eq link.host host then none else find_link host s.links))
          × (t.messages ≡ s.messages ++ (if b then told full link t.links else []))
          × (t.closed ≡ s.closed ++ (if b then link.number ∷ refused full t.links else []))
    by_held false = (refl, sym (append-nil s.messages), sym (append-nil s.closed))
    by_held true =
        let h = tell_end-exact full link others u in
        (
          ap (find_link host) h.0 ∙ find_link-delete link.host host s.links,
          h.1 ∙ ap (λ os. s.messages ++ told full link os) (sym h.0),
          h.2
              ∙ append_assoc s.closed (link.number ∷ []) (refused full others)
              ∙ ap (λ os. s.closed ++ link.number ∷ refused full os) (sym h.0),
        )
