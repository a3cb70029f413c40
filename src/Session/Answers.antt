-- ===== src/Session/Answers.antt =====
-- session.go and delivery_queue.go: how often the channel of a request is answered.
use mathlib.Core.Bool.{false≢true, true≢false}
use mathlib.Core.Option.{none-ne-some, some-injective}
use sessionbus.Base.{
  Bool, List, Option, [], ap, arith, as_count, false, if◌then◌else◌, none, not, refl, some, subst,
  sym, true, ℕ, ◌&&◌, ◌++◌, ◌+◌, ◌==◌, ◌∙◌, ◌∷◌, ◌≡◌, ◌≢◌,
}
use sessionbus.Session.Capacity.{AllDeferred}
use sessionbus.Session.Responses.{Pending, delete_request, find_request}
use sessionbus.Session.State.{Answer, Request, Session, answer_routed, is_close}

-- The request waits for an answer on the channel `k`.
abbrev pub mine : ℕ → Request → Bool
mine k r = not r.scheduled && r.ticket == k

abbrev pub replies : ℕ → List (ℕ × Answer) → ℕ
replies k [] = 0
replies k ((t, a) ∷ os) = as_count (t == k) + replies k os

abbrev pub count : ℕ → Pending → ℕ
count k [] = 0
count k ((n, r) ∷ p) = as_count (mine k r) + count k p

-- The lane is being closed for the channel `k`.
abbrev pub closes : ℕ → Option Request → Bool
closes k none = false
closes k (some c) = c.ticket == k

-- A close is answered when the lane has ended, any other request by its response.
abbrev pub opens : Bool → ℕ → ℕ
opens true n = 1
opens false n = n

-- A call under way that waits on the channel `k` is for this entry, and it is a close exactly if the
-- lane is being closed for that channel.
abbrev pub IsKept : ℕ → Option Request → ℕ → Request → Type 0
IsKept k c number r = mine k r ≡ true → (is_close r.method ≡ closes k c) × (r.destination ≡ number)

abbrev pub AllKept : ℕ → Option Request → ℕ → Pending → Type 0
AllKept k c number [] = Unit {0}
AllKept k c number ((n, r) ∷ p) = IsKept k c number r × AllKept k c number p

abbrev pub IsCloseCall : ℕ → Option Request → Type 0
IsCloseCall number none = Unit {0}
IsCloseCall number (some c) =
    (is_close c.method ≡ true) × (c.scheduled ≡ false) × (c.destination ≡ number)

-- `n` answers on the channel `k` were sent or are owed, by a session that is connected.
pub record Opened (k n : ℕ) (answers : List (ℕ × Answer)) (pending : Pending)
    (deferred : List Request) (close_call : Option Request) (number : ℕ)
    (stopping attached listed closed finished peer committed : Bool) : Type 0 where
  pub total : replies k answers + opens (closes k close_call) (count k pending) ≡ n
  pub kept : AllKept k close_call number pending
  pub waiting : AllDeferred deferred
  pub call : IsCloseCall number close_call
  pub present : stopping ≡ false → peer ≡ false → (attached ≡ true) × (listed ≡ true)
  pub live : (closed ≡ false) × (finished ≡ false)
  pub peers : peer ≡ true → (close_call ≡ none) × (committed ≡ false)

abbrev pub IsOpen : ℕ → ℕ → Session → Type 0
IsOpen k n s =
    Opened k n s.answers s.pending s.deferred s.close_call s.entry.number s.stopping
      s.entry.attached s.entry.listed s.closed s.finished s.entry.peer s.committed

pub replies-snoc :
    (k : ℕ) (os : List (ℕ × Answer)) (t : ℕ) (a : Answer)
    → replies k (os ++ (t, a) ∷ []) ≡ replies k os + as_count (t == k)
replies-snoc k [] t a = omega arith
replies-snoc k ((u, b) ∷ os) t a = omega (arith, replies-snoc k os t a)

pub count-snoc :
    (k : ℕ) (p : Pending) (n : ℕ) (r : Request)
    → count k (p ++ (n, r) ∷ []) ≡ count k p + as_count (mine k r)
count-snoc k [] n r = omega arith
count-snoc k ((m, q) ∷ p) n r = omega (arith, count-snoc k p n r)

pub AllKept-snoc :
    (k : ℕ) (c : Option Request) (number : ℕ) (p : Pending) (n : ℕ) (r : Request)
    → AllKept k c number p
    → IsKept k c number r
    → AllKept k c number (p ++ (n, r) ∷ [])
AllKept-snoc k c number [] n r h e = (e, tt)
AllKept-snoc k c number ((m, q) ∷ p) n r h e = (h.0, AllKept-snoc k c number p n r h.1 e)

-- Calls of which none waits on the channel.
pub AllKept-none :
    (k : ℕ) (c : Option Request) (number : ℕ) (p : Pending) → count k p ≡ 0 → AllKept k c number p
AllKept-none k c number [] e = tt
AllKept-none k c number ((n, r) ∷ p) e = (
  (λ m. absurd (one_not_zero (mine k r) m (omega (arith, e)))),
  AllKept-none k c number p (omega (arith, e)),
)
  where
    one_not_zero : (b : Bool) → b ≡ true → as_count b ≢ 0
    one_not_zero b e f = ground arith

pub find_request-IsKept :
    (k : ℕ) (c : Option Request) (number id : ℕ) (p : Pending) (r : Request)
    → find_request id p ≡ some r
    → AllKept k c number p
    → IsKept k c number r
      × AllKept k c number (delete_request id p)
      × (count k p ≡ count k (delete_request id p) + as_count (mine k r))
unfolding find_request delete_request
find_request-IsKept k c number id [] r e h = absurd (none-ne-some r e)
find_request-IsKept k c number id ((n, q) ∷ p) r e h =
    by_test (λ f. find_request-IsKept k c number id p r f h.1) (id == n) e
  where
    by_test :
        (find_request id p ≡ some r
          → IsKept k c number r
            × AllKept k c number (delete_request id p)
            × (count k p ≡ count k (delete_request id p) + as_count (mine k r)))
        → (b : Bool) → (if b then some q else find_request id p) ≡ some r
        → let d = if b then p else (n, q) ∷ delete_request id p in
          IsKept k c number r
          × AllKept k c number d
          × (as_count (mine k q) + count k p ≡ count k d + as_count (mine k r))
    by_test ih true e =
        let g = some-injective q r e in
        (subst (IsKept k c number) g h.0, h.1, omega (arith, ap (λ x. as_count (mine k x)) g))
    by_test ih false e = let l = ih e in (l.0, (h.0, l.1), omega (arith, l.2))

pub with_total :
    {k n m : ℕ} {os : List (ℕ × Answer)} {p : Pending} {ds : List Request} {c : Option Request}
    {number : ℕ} {stopping attached listed closed finished peer committed : Bool}
    → n ≡ m
    → Opened k n os p ds c number stopping attached listed closed finished peer committed
    → Opened k m os p ds c number stopping attached listed closed finished peer committed
with_total e h = record {
  total = h.total ∙ e;
  kept = h.kept;
  waiting = h.waiting;
  call = h.call;
  present = h.present;
  live = h.live;
  peers = h.peers;
}

-- One answer more.
pub with_answer :
    {k n : ℕ} {os : List (ℕ × Answer)} {p : Pending} {ds : List Request} {c : Option Request}
    {number : ℕ} {stopping attached listed closed finished peer committed : Bool} (t : ℕ)
    (a : Answer)
    → Opened k n os p ds c number stopping attached listed closed finished peer committed
    → Opened k
        (n + as_count (t == k))
        (os ++ (t, a) ∷ [])
        p
        ds
        c
        number
        stopping
        attached
        listed
        closed
        finished
        peer
        committed
with_answer {k = k} {os = os} t a h = record {
  total = omega (arith, h.total, replies-snoc k os t a);
  kept = h.kept;
  waiting = h.waiting;
  call = h.call;
  present = h.present;
  live = h.live;
  peers = h.peers;
}

pub answer_routed-IsOpen :
    (k n : ℕ) (s : Session) (r : Request) (a : Answer)
    → IsOpen k n s
    → IsOpen k (n + as_count (mine k r)) (answer_routed s r a)
unfolding answer_routed
answer_routed-IsOpen k n s r a h = by_scheduled r.scheduled
  where
    by_scheduled :
        (b : Bool)
        → IsOpen k (n + as_count (not b && r.ticket == k)) (
            if b
            then record s { logged = s.logged ++ r ∷ [] }
            else record s { answers = s.answers ++ (r.ticket, a) ∷ [] })
    by_scheduled true = with_total (omega arith) h
    by_scheduled false = with_answer r.ticket a h

AllKept-same :
    (k : ℕ) (c d : Option Request) (number : ℕ) (p : Pending)
    → closes k c ≡ closes k d
    → AllKept k c number p
    → AllKept k d number p
AllKept-same k c d number [] e h = tt
AllKept-same k c d number ((n, r) ∷ p) e h =
    ((λ m. ((h.0 m).0 ∙ e, (h.0 m).1)), AllKept-same k c d number p e h.1)

opens_call :
    (b m : Bool) (x : ℕ)
    → (m ≡ true → b ≡ false)
    → opens b (x + as_count m) ≡ opens b x + as_count m
opens_call true true x h = absurd (true≢false (h refl))
opens_call false true x h = refl
opens_call true false x h = omega arith
opens_call false false x h = omega arith

-- A call that is no close, on a channel for which the lane is not being closed.
pub with_call_open :
    {k n : ℕ} {os : List (ℕ × Answer)} {p : Pending} {ds : List Request} {c : Option Request}
    {number : ℕ} {stopping attached listed closed finished peer committed : Bool} (id : ℕ)
    (r : Request)
    → (mine k r ≡ true → (closes k c ≡ false) × (r.destination ≡ number))
    → is_close r.method ≡ false
    → Opened k n os p ds c number stopping attached listed closed finished peer committed
    → Opened k
        (n + as_count (mine k r))
        os
        (p ++ (id, r) ∷ [])
        ds
        c
        number
        stopping
        attached
        listed
        closed
        finished
        peer
        committed
with_call_open {k = k} {os = os} {p = p} {c = c} {number = number} id r o e h = record {
  total = omega (
    arith,
    h.total,
    ap (opens (closes k c)) (count-snoc k p id r),
    opens_call (closes k c) (mine k r) (count k p) (λ m. (o m).0),
  );
  kept = AllKept-snoc k c number p id r h.kept (λ m. (e ∙ sym ((o m).0), (o m).1));
  waiting = h.waiting;
  call = h.call;
  present = h.present;
  live = h.live;
  peers = h.peers;
}

-- The call of a lane's close.
pub with_close_call :
    {k n : ℕ} {os : List (ℕ × Answer)} {p : Pending} {ds : List Request} {c : Option Request}
    {number : ℕ} {stopping attached listed closed finished peer committed : Bool} (id : ℕ)
    (r : Request)
    → c ≡ some r
    → Opened k n os p ds c number stopping attached listed closed finished peer committed
    → Opened k n os
        (p ++ (id, r) ∷ [])
        ds
        c
        number
        stopping
        attached
        listed
        closed
        finished
        peer
        committed
with_close_call {k = k} {os = os} {p = p} {c = c} {number = number} id r e h = record {
  total = omega (arith, h.total, ap (opens (closes k c)) (count-snoc k p id r), more);
  kept = AllKept-snoc k c number p id r h.kept (λ m. (i.0 ∙ sym (closed m), i.2));
  waiting = h.waiting;
  call = h.call;
  present = h.present;
  live = h.live;
  peers = h.peers;
}
  where
    i : IsCloseCall number (some r)
    i = subst (IsCloseCall number) e h.call

    closed : mine k r ≡ true → closes k c ≡ true
    closed m = ap (closes k) e ∙ and_right (not r.scheduled) (r.ticket == k) m
      where
        and_right : (a b : Bool) → (a && b) ≡ true → b ≡ true
        and_right a b q = ground arith

    more : opens (closes k c) (count k p + as_count (mine k r)) ≡ opens (closes k c) (count k p)
    more = same (closes k c) (mine k r) (count k p) closed
      where
        same : (b m : Bool) (x : ℕ) → (m ≡ true → b ≡ true) → opens b (x + as_count m) ≡ opens b x
        same true m x h = refl
        same false true x h = absurd (false≢true (h refl))
        same false false x h = omega arith

-- The lane begins to be closed, by a request that nothing was answered to.
pub with_closing :
    {k n : ℕ} {os : List (ℕ × Answer)} {p : Pending} {ds : List Request} {c : Option Request}
    {number : ℕ} {stopping attached listed closed finished peer committed : Bool} (r : Request)
    → c ≡ none
    → peer ≡ false
    → IsCloseCall number (some r)
    → ((r.ticket == k) ≡ true → n ≡ 0)
    → Opened k n os p ds c number stopping attached listed closed finished peer committed
    → Opened k
        (n + as_count (mine k r))
        os
        p
        ds
        (some r)
        number
        stopping
        attached
        listed
        closed
        finished
        peer
        committed
with_closing {k = k} {n = n} {os = os} {p = p} {c = c} {number = number} r e q i z h = record {
  total = counted (r.ticket == k) z ∙ ap (λ x. n + as_count (not x && r.ticket == k)) (sym i.1);
  kept = by_ticket (r.ticket == k) refl z;
  waiting = h.waiting;
  call = i;
  present = h.present;
  live = h.live;
  peers = λ p. absurd (true≢false (sym p ∙ q));
}
  where
    before : replies k os + count k p ≡ n
    before = ap (λ x. replies k os + opens (closes k x) (count k p)) (sym e) ∙ h.total

    counted : (b : Bool) → (b ≡ true → n ≡ 0) → replies k os + opens b (count k p) ≡ n + as_count b
    counted true z = omega (arith, before, z refl)
    counted false z = omega (arith, before)

    by_ticket : (b : Bool) → (r.ticket == k) ≡ b → (b ≡ true → n ≡ 0) → AllKept k (some r) number p
    by_ticket true q z = AllKept-none k (some r) number p (omega (arith, before, z refl))
    by_ticket false q z = AllKept-same k c (some r) number p (ap (closes k) e ∙ sym q) h.kept

pub with_stop :
    {k n : ℕ} {os : List (ℕ × Answer)} {p : Pending} {ds : List Request} {c : Option Request}
    {number : ℕ} {stopping attached listed closed finished peer committed : Bool}
    → Opened k n os p ds c number stopping attached listed closed finished peer committed
    → Opened k n os p ds c number true attached listed closed finished peer committed
with_stop h = record {
  total = h.total;
  kept = h.kept;
  waiting = h.waiting;
  call = h.call;
  present = λ e _. absurd (true≢false e);
  live = h.live;
  peers = h.peers;
}
