-- ===== src/Rpc/Ids.antt =====
-- rpc.go: the identifiers of requests, sent and received.
use sessionbus.Base.{
  Bool, List, Option, Option-cases, Text, [], ap, arith, false, if_cases, inl, inr, leb, length,
  length-append, ltb, none, not, option_cases, refl, some, subst, sym, true, ℕ, ◌++◌, ◌+◌, ◌<◌,
  ◌==◌, ◌||◌, ◌∙◌, ◌∷◌, ◌≡◌, ◌≤◌,
}
use sessionbus.Protocol.{max_operations}
use sessionbus.Rpc.Calls.{
  Call, Calls, delete_call, find_call, length-delete, length-replace, replace_call,
}
use sessionbus.Rpc.Connection.{
  Conn, Move, Response, Result, Write, abandon, abandons, answered, bad_frame, begin, begins, close,
  closed_error, closes, complete, drop, dropped, encode_error, error_response, exhausted, failed,
  finish_begin, history, invalid_response, invalid_result, max_request_id, new_conn, not_encoded,
  observer_error, read, read_error, read_fails, receive_request, receive_response, register, reject,
  requests, respond, responds, responses, result_response, rpc_error, send, sends, step, success,
  too_many, write_error, written,
}
use sessionbus.Rpc.Methods.{allows}

-- The numbers rise from above `lo` to at most `hi`.
abbrev pub Rises : ℕ → List ℕ → ℕ → Type 0
Rises lo [] hi = lo ≤ hi
Rises lo (x ∷ xs) hi = (lo < x) × Rises x xs hi

Rises-snoc : (lo : ℕ) (xs : List ℕ) (hi x : ℕ) → Rises lo xs hi → hi < x → Rises lo (xs ++ x ∷ []) x
Rises-snoc lo [] hi x h l = (omega (arith, h, l), omega arith)
Rises-snoc lo (y ∷ xs) hi x h l = (h.0, Rises-snoc y xs hi x h.1 l)

Rises-raise : (lo : ℕ) (xs : List ℕ) (hi x : ℕ) → Rises lo xs hi → hi ≤ x → Rises lo xs x
Rises-raise lo [] hi x h l = omega (arith, h, l)
Rises-raise lo (y ∷ xs) hi x h l = (h.0, Rises-raise y xs hi x h.1 l)

Rises-lower : (lo : ℕ) (xs : List ℕ) (hi x : ℕ) → Rises lo xs hi → x ≤ lo → Rises x xs hi
Rises-lower lo [] hi x h l = omega (arith, h, l)
Rises-lower lo (y ∷ xs) hi x h l = (omega (arith, h.0, l), h.1)

abbrev pub keys : Calls → List ℕ
keys [] = []
keys ((k, c) ∷ cs) = k ∷ keys cs

keys-append : (a : Calls) (k : ℕ) (c : Call) → keys (a ++ (k, c) ∷ []) ≡ keys a ++ k ∷ []
keys-append [] k c = refl
keys-append ((j, d) ∷ a) k c = ap (λ (r : List ℕ). j ∷ r) (keys-append a k c)

keys-replace : (id : ℕ) (d : Call) (cs : Calls) → keys (replace_call id d cs) ≡ keys cs
unfolding replace_call
keys-replace id d [] = refl
keys-replace id d ((k, c) ∷ cs) = ground (arith, keys-replace id d cs)

Rises-delete :
    (id lo : ℕ) (cs : Calls) (hi : ℕ)
    → Rises lo (keys cs) hi
    → Rises lo (keys (delete_call id cs)) hi
unfolding delete_call
Rises-delete id lo [] hi h = h
Rises-delete id lo ((k, c) ∷ cs) hi h =
    if_cases (λ r. Rises lo (keys r) hi) (id == k)
      (λ _. Rises-lower k (keys cs) hi lo h.1 (omega (arith, h.0)))
      (λ _. (h.0, Rises-delete id k cs hi h.1))

-- The requests under way are at most 256, under rising and so different identifiers that fit a
-- double; and the requests given to the handler have rising identifiers.
pub record IsNumbered (c : Conn) : Type 0 where
  pub sent : Rises 0 (keys c.pending) c.next
  pub exact : c.next ≤ max_request_id
  pub bound : length c.pending ≤ max_operations
  pub received : Rises 0 c.handled c.last

-- The fields that other operations leave alone; the map may have shrunk.
record Shrinks (c d : Conn) : Type 0 where
  next : d.next ≡ c.next
  last : d.last ≡ c.last
  handled : d.handled ≡ c.handled
  sent : (lo hi : ℕ) → Rises lo (keys c.pending) hi → Rises lo (keys d.pending) hi
  size : length d.pending ≤ length c.pending

Shrinks-IsNumbered : (c d : Conn) → Shrinks c d → IsNumbered c → IsNumbered d
Shrinks-IsNumbered c d s h = record {
  sent = subst (Rises 0 (keys d.pending)) (sym s.next) (s.sent 0 c.next h.sent);
  exact = omega (arith, h.exact, s.next);
  bound = omega (arith, h.bound, s.size);
  received =
      subst (Rises 0 d.handled) (sym s.last)
        (subst (λ l. Rises 0 l c.last) (sym s.handled) h.received);
}

Shrinks-refl : (c : Conn) → Shrinks c c
Shrinks-refl c = record {
  next = refl;
  last = refl;
  handled = refl;
  sent = λ lo hi h. h;
  size = omega arith;
}

Shrinks-trans : (a b c : Conn) → Shrinks a b → Shrinks b c → Shrinks a c
Shrinks-trans a b c s t = record {
  next = t.next ∙ s.next;
  last = t.last ∙ s.last;
  handled = t.handled ∙ s.handled;
  sent = λ lo hi h. t.sent lo hi (s.sent lo hi h);
  size = omega (arith, s.size, t.size);
}

Rises-nil : (lo : ℕ) (xs : List ℕ) (hi : ℕ) → Rises lo xs hi → lo ≤ hi
Rises-nil lo [] hi h = h
Rises-nil lo (x ∷ xs) hi h = omega (arith, h.0, Rises-nil x xs hi h.1)

complete-Shrinks : (c : Conn) (t : ℕ) (r : Result) → Shrinks c (complete c t r)
unfolding complete
complete-Shrinks c t r = record {
  next = refl;
  last = refl;
  handled = refl;
  sent = λ lo hi h. h;
  size = omega arith;
}

close-Shrinks : (c : Conn) (e : Result) → Shrinks c (close c e)
unfolding close
close-Shrinks c e =
    if_cases (Shrinks c) c.closed (λ _. Shrinks-refl c)
      λ _. record {
        next = refl;
        last = refl;
        handled = refl;
        sent = λ lo hi h. Rises-nil lo (keys c.pending) hi h;
        size = omega arith;
      }

delete-Shrinks : (c : Conn) (id : ℕ) → Shrinks c (record c { pending = delete_call id c.pending })
delete-Shrinks c id = record {
  next = refl;
  last = refl;
  handled = refl;
  sent = λ lo hi h. Rises-delete id lo c.pending hi h;
  size = length-delete id c.pending;
}

drop-Shrinks : (c : Conn) (id t : ℕ) (e : Result) → Shrinks c (drop c id t e)
unfolding drop
drop-Shrinks c id t e = elim (Option-cases (find_call id c.pending)) [
  | inl n ↦ rw (n, drop) (Shrinks-refl c)
  | inr (p, q) ↦
      rw (q, drop)
        (if_cases (Shrinks c) (p.token == t)
          (λ _. Shrinks-trans c _ _ (delete-Shrinks c id) (complete-Shrinks _ t e))
          (λ _. Shrinks-refl c))
]

send-Shrinks : (c : Conn) (w : Write) → Shrinks c (send c w).0
unfolding send
send-Shrinks c not_encoded = Shrinks-refl c
send-Shrinks c written =
    if_cases {A = Conn × Option Result} (λ r. Shrinks c r.0) c.closed {y = (c, none)}
      (λ _. Shrinks-refl c) (λ _. Shrinks-refl c)
send-Shrinks c failed =
    if_cases {A = Conn × Option Result} (λ r. Shrinks c r.0) c.closed (λ _. Shrinks-refl c)
      (λ _. close-Shrinks c write_error)

dropped-Shrinks : (r : Conn × Option Result) (id t : ℕ) → Shrinks r.0 (dropped r id t)
unfolding dropped
dropped-Shrinks (c, none) id t = Shrinks-refl c
dropped-Shrinks (c, some e) id t = drop-Shrinks c id t e

same-Shrinks :
    (c d : Conn)
    → d.next ≡ c.next
    → d.last ≡ c.last
    → d.handled ≡ c.handled
    → d.pending ≡ c.pending
    → Shrinks c d
same-Shrinks c d n l h p = record {
  next = n;
  last = l;
  handled = h;
  sent = λ lo hi r. subst (λ q. Rises lo (keys q) hi) (sym p) r;
  size = omega (arith, ap (length {A = ℕ × Call}) p);
}

finish_begin-Shrinks : (c : Conn) (w : Write) → Shrinks c (finish_begin c w)
unfolding finish_begin
finish_begin-Shrinks c w =
    let d : Conn = record c { sending = none } in
    option_cases (Shrinks c) c.sending (λ _. Shrinks-refl c)
      λ p _.
        Shrinks-trans c (send d w).0 _
          (Shrinks-trans c d _ (same-Shrinks c d refl refl refl refl) (send-Shrinks d w))
          (dropped-Shrinks (send d w) p.0 p.1)

respond-Shrinks : (c : Conn) (w : Write) → Shrinks c (respond c w)
unfolding respond
respond-Shrinks c w =
    option_cases (Shrinks c) c.sending (λ _. send-Shrinks c w) (λ p _. Shrinks-refl c)

reject-Shrinks : (c : Conn) (w : Write) → Shrinks c (reject c w)
unfolding reject
reject-Shrinks c w =
    Shrinks-trans c (respond c w) _ (respond-Shrinks c w) (close-Shrinks (respond c w) read_error)

abandon-Shrinks : (c : Conn) (id t : ℕ) → Shrinks c (abandon c id t)
unfolding abandon
abandon-Shrinks c id t = elim (Option-cases (find_call id c.pending)) [
  | inl n ↦ rw (n, abandon) (Shrinks-refl c)
  | inr (p, n) ↦
      rw (n, abandon)
        (if_cases (Shrinks c) (p.token == t)
          (λ _. record {
            next = refl;
            last = refl;
            handled = refl;
            sent = λ lo hi h. subst (λ q. Rises lo q hi) (sym (keys-replace id _ c.pending)) h;
            size =
                omega (
                  arith,
                  length-replace id (record p { observes = false; drain = true }) c.pending,
                );
          })
          (λ _. Shrinks-refl c))
]

answered-Shrinks : (c : Conn) (p : Call) (r : Response) → Shrinks c (answered c p r)
unfolding answered
answered-Shrinks c p error_response = complete-Shrinks c p.token rpc_error
answered-Shrinks c p invalid_response =
    Shrinks-trans c _ _ (close-Shrinks c invalid_result) (complete-Shrinks _ p.token invalid_result)
answered-Shrinks c p (result_response ok) =
    let d : Conn = record c { observed = c.observed ++ p.token ∷ [] } in
    let s = same-Shrinks c d refl refl refl refl in
    if_cases (Shrinks c) (not p.observes) (λ _. complete-Shrinks c p.token success)
      λ _.
        if_cases (Shrinks c) ok (λ _. Shrinks-trans c d _ s (complete-Shrinks d p.token success))
          λ _. Shrinks-trans c d _ s (
            Shrinks-trans d _ _ (close-Shrinks d observer_error)
              (complete-Shrinks _ p.token observer_error))

receive_response-Shrinks : (c : Conn) (id : ℕ) (r : Response) → Shrinks c (receive_response c id r)
unfolding receive_response
receive_response-Shrinks c id r = elim (Option-cases (find_call id c.pending)) [
  | inl n ↦ rw (n, receive_response) (close-Shrinks c read_error)
  | inr (p, n) ↦
      rw (n, receive_response) (Shrinks-trans c _ _ (delete-Shrinks c id) (answered-Shrinks _ p r))
]

register-IsNumbered :
    (c : Conn) (t : ℕ) (method : Text) (observes : Bool)
    → IsNumbered c
    → IsNumbered (register c t method observes)
unfolding register
register-IsNumbered c t method observes h =
    if_cases IsNumbered c.closed (λ _. done closed_error)
      λ _.
        if_cases IsNumbered (c.next == max_request_id) (λ _. done exhausted)
          λ fits.
            if_cases IsNumbered (leb max_operations (length c.pending)) (λ _. done too_many)
              λ room. record {
                sent =
                    subst (λ q. Rises 0 q (c.next + 1)) (sym (keys-append c.pending (c.next + 1) _))
                      (Rises-snoc 0 (keys c.pending) c.next (c.next + 1) h.sent (omega arith));
                exact = ground (arith, h.exact);
                bound = ground (arith, length-append c.pending (((c.next + 1), entry) ∷ []));
                received = h.received;
              }
  where
    entry : Call
    entry = record { token = t; method = method; observes = observes; drain = false }

    done : (r : Result) → IsNumbered (complete c t r)
    done r = Shrinks-IsNumbered c _ (complete-Shrinks c t r) h

begin-IsNumbered :
    (c : Conn) (method : Text) (observes encodes : Bool)
    → IsNumbered c
    → IsNumbered (begin c method observes encodes)
unfolding begin
begin-IsNumbered c method observes encodes h =
    let d : Conn = record c { made = c.made + 1 } in
    let k : IsNumbered d = record {
      sent = h.sent;
      exact = h.exact;
      bound = h.bound;
      received = h.received;
    } in
    if_cases IsNumbered encodes
      (λ _.
        option_cases IsNumbered c.sending (λ _. register-IsNumbered d c.made method observes k)
          (λ p _. h))
      (λ _. Shrinks-IsNumbered d _ (complete-Shrinks d c.made encode_error) k)

receive_request-IsNumbered :
    (c : Conn) (id : ℕ) (method : Text) (valid : Bool) (w : Write)
    → IsNumbered c
    → IsNumbered (receive_request c id method valid w)
unfolding receive_request
receive_request-IsNumbered c id method valid w h =
    let d : Conn = record c { last = id } in
    if_cases IsNumbered (ltb c.last id)
      (λ later.
        if_cases IsNumbered (not valid || not (allows method (not c.client)))
          (λ _. Shrinks-IsNumbered d _ (reject-Shrinks d w) (record {
            sent = h.sent;
            exact = h.exact;
            bound = h.bound;
            received = Rises-raise 0 c.handled c.last id h.received (ground arith);
          }))
          (λ _. record {
            sent = h.sent;
            exact = h.exact;
            bound = h.bound;
            received = Rises-snoc 0 c.handled c.last id h.received (ground arith);
          }))
      (λ _. Shrinks-IsNumbered c _ (reject-Shrinks c w) h)

stopped-IsNumbered : (c : Conn) → IsNumbered c → IsNumbered (record c { reading = false })
stopped-IsNumbered c h = record {
  sent = h.sent;
  exact = h.exact;
  bound = h.bound;
  received = h.received;
}

read-IsNumbered : (c : Conn) (m : Move) → IsNumbered c → IsNumbered (read c m)
unfolding read
read-IsNumbered c read_fails h =
    stopped-IsNumbered _ (Shrinks-IsNumbered c _ (close-Shrinks c read_error) h)
read-IsNumbered c (bad_frame answerable w) h = stopped-IsNumbered _ (
    if_cases IsNumbered answerable (λ _. Shrinks-IsNumbered c _ (reject-Shrinks c w) h)
      (λ _. Shrinks-IsNumbered c _ (close-Shrinks c read_error) h))
read-IsNumbered c (requests id method valid w) h = receive_request-IsNumbered c id method valid w h
read-IsNumbered c (responses id r) h = Shrinks-IsNumbered c _ (receive_response-Shrinks c id r) h
read-IsNumbered c m h = h

step-IsNumbered : (c : Conn) (m : Move) → IsNumbered c → IsNumbered (step c m)
unfolding step
step-IsNumbered c (begins method observes encodes) h = begin-IsNumbered c method observes encodes h
step-IsNumbered c (sends w) h = Shrinks-IsNumbered c _ (finish_begin-Shrinks c w) h
step-IsNumbered c (responds w) h = Shrinks-IsNumbered c _ (respond-Shrinks c w) h
step-IsNumbered c (abandons id t) h = Shrinks-IsNumbered c _ (abandon-Shrinks c id t) h
step-IsNumbered c closes h = Shrinks-IsNumbered c _ (close-Shrinks c closed_error) h
step-IsNumbered c m h = if_cases IsNumbered c.reading (λ _. read-IsNumbered c m h) (λ _. h)

from-IsNumbered : (c : Conn) (ms : List Move) → IsNumbered c → IsNumbered (history c ms)
unfolding history
from-IsNumbered c [] h = h
from-IsNumbered c (m ∷ ms) h = from-IsNumbered (step c m) ms (step-IsNumbered c m h)

-- Through every history of a connection at most 256 requests are under way, under rising identifiers
-- of at most 2 ^ 53 - 1, and the identifiers of the requests given to the handler rise.
pub history-IsNumbered :
    (client : Bool) (ms : List Move) → IsNumbered (history (new_conn client) ms)
history-IsNumbered client ms = from-IsNumbered (new_conn client) ms (
    unfold new_conn in
    record { sent = omega arith; exact = omega arith; bound = omega arith; received = omega arith })
