-- ===== src/Rpc/Once.antt =====
-- rpc.go: every call is completed exactly once.
use sessionbus.Base.{
  ==_iff, Bool, List, Option, Option-cases, Text, [], ap, arith, false, if_cases, if◌then◌else◌,
  inl, inr, leb, length, ltb, none, not, refl, some, subst, sym, true, ℕ, ◌++◌, ◌+◌, ◌<◌, ◌==◌,
  ◌||◌, ◌∙◌, ◌∷◌, ◌≡◌, ◌≤◌,
}
use sessionbus.Protocol.{max_operations}
use sessionbus.Rpc.Calls.{
  Call, Calls, delete_call, find_call, replace_call, waiting, waiting-append, waiting-delete,
  waiting-nil, waiting-replace,
}
use sessionbus.Rpc.Connection.{
  Conn, Move, Response, Result, Write, abandon, abandons, all_done, answered, bad_frame, begin,
  begins, close, closed_error, closes, complete, drop, dropped, encode_error, error_response,
  exhausted, failed, finish_begin, history, invalid_response, invalid_result, max_request_id,
  new_conn, not_encoded, observer_error, read, read_error, read_fails, receive_request,
  receive_response, register, reject, requests, respond, responds, responses, result_response,
  rpc_error, send, sends, step, success, too_many, write_error, written,
}
use sessionbus.Rpc.Methods.{allows}

-- How often a result was sent to a channel.
abbrev pub results : ℕ → List (ℕ × Result) → ℕ
results t [] = 0
results t ((k, r) ∷ rs) = (if k == t then 1 else 0) + results t rs

results-append : (t : ℕ) (a b : List (ℕ × Result)) → results t (a ++ b) ≡ results t a + results t b
results-append t [] b = omega arith
results-append t (r ∷ a) b = omega (arith, results-append t a b)

results-all_done : (t : ℕ) (r : Result) (cs : Calls) → results t (all_done r cs) ≡ waiting t cs
unfolding all_done waiting
results-all_done t r [] = refl
results-all_done t r ((k, c) ∷ cs) = omega (arith, results-all_done t r cs)

-- Every channel made either waits in the map, once, or has got its one result; no other does.
pub record IsTallied (c : Conn) : Type 0 where
  pub once : (t : ℕ) → t < c.made → waiting t c.pending + results t c.completed ≡ 1
  pub fresh : (t : ℕ) → c.made ≤ t → waiting t c.pending + results t c.completed ≡ 0
  pub settled : c.closed ≡ true → c.pending ≡ []

-- The same, with one channel that has left the map and has not got its result.
record IsOwing (c : Conn) (u : ℕ) : Type 0 where
  once :
      (t : ℕ)
      → t < c.made
      → waiting t c.pending + results t c.completed + (if u == t then 1 else 0) ≡ 1
  fresh :
      (t : ℕ)
      → c.made ≤ t
      → waiting t c.pending + results t c.completed + (if u == t then 1 else 0) ≡ 0
  settled : c.closed ≡ true → c.pending ≡ []

complete-IsTallied : (c : Conn) (u : ℕ) (r : Result) → IsOwing c u → IsTallied (complete c u r)
unfolding complete
complete-IsTallied c u r h = record {
  once = λ t l. omega (arith, h.once t l, results-append t c.completed ((u, r) ∷ []));
  fresh = λ t l. omega (arith, h.fresh t l, results-append t c.completed ((u, r) ∷ []));
  settled = h.settled;
}

close_sum :
    (c : Conn) (e : Result) (t : ℕ)
    → waiting t [] + results t (c.completed ++ all_done e c.pending)
      ≡ waiting t c.pending + results t c.completed
unfolding waiting
close_sum c e t =
    omega
      (arith, results-append t c.completed (all_done e c.pending), results-all_done t e c.pending)

close-IsTallied : (c : Conn) (e : Result) → IsTallied c → IsTallied (close c e)
unfolding close
close-IsTallied c e h =
    if_cases IsTallied c.closed (λ _. h)
      λ _. record {
        once = λ t l. close_sum c e t ∙ h.once t l;
        fresh = λ t l. close_sum c e t ∙ h.fresh t l;
        settled = λ _. refl;
      }

close-IsOwing : (c : Conn) (u : ℕ) (e : Result) → IsOwing c u → IsOwing (close c e) u
unfolding close
close-IsOwing c u e h =
    if_cases (λ d. IsOwing d u) c.closed (λ _. h)
      λ _. record {
        once = λ t l. ap (λ n. n + (if u == t then 1 else 0)) (close_sum c e t) ∙ h.once t l;
        fresh = λ t l. ap (λ n. n + (if u == t then 1 else 0)) (close_sum c e t) ∙ h.fresh t l;
        settled = λ _. refl;
      }

delete-IsOwing :
    (c : Conn) (id : ℕ) (p : Call)
    → find_call id c.pending ≡ some p
    → IsTallied c
    → IsOwing (record c { pending = delete_call id c.pending }) p.token
delete-IsOwing c id p e h = record {
  once = λ t l. omega (arith, h.once t l, waiting-delete t id c.pending p e);
  fresh = λ t l. omega (arith, h.fresh t l, waiting-delete t id c.pending p e);
  settled = λ q. ap (delete_call id) (h.settled q) ∙ unfold delete_call in refl;
}

drop-IsTallied : (c : Conn) (id t : ℕ) (e : Result) → IsTallied c → IsTallied (drop c id t e)
unfolding drop
drop-IsTallied c id t e h = elim (Option-cases (find_call id c.pending)) [
  | inl n ↦ rw (n, drop) h
  | inr (p, q) ↦
      rw (q, drop)
        (if_cases IsTallied (p.token == t)
          (λ same.
            subst (λ u. IsTallied (complete (record c { pending = delete_call id c.pending }) u e))
              ((==_iff p.token t).0 same)
              (complete-IsTallied _ p.token e (delete-IsOwing c id p q h)))
          (λ _. h))
]

-- A new channel.
made-IsOwing : (c : Conn) → IsTallied c → IsOwing (record c { made = c.made + 1 }) c.made
made-IsOwing c h = record {
  once = λ t l. ground (arith, h.once t, h.fresh t);
  fresh = λ t l. ground (arith, h.fresh t);
  settled = h.settled;
}

register-IsTallied :
    (c : Conn) (t : ℕ) (method : Text) (observes : Bool)
    → IsOwing c t
    → IsTallied (register c t method observes)
unfolding register
register-IsTallied c t method observes h =
    if_cases IsTallied c.closed (λ _. complete-IsTallied c t closed_error h)
      λ open_.
        if_cases IsTallied (c.next == max_request_id) (λ _. complete-IsTallied c t exhausted h)
          λ _.
            if_cases IsTallied (leb max_operations (length c.pending))
              (λ _. complete-IsTallied c t too_many h)
              (λ _. record {
                once = λ u l.
                    omega (arith, h.once u l, waiting-append u c.pending (entry ∷ []), one u);
                fresh = λ u l.
                    omega (arith, h.fresh u l, waiting-append u c.pending (entry ∷ []), one u);
                settled = λ q. absurd (ground arith);
              })
  where
    entry : ℕ × Call
    entry = (c.next + 1, record { token = t; method = method; observes = observes; drain = false })

    one : (u : ℕ) → waiting u (entry ∷ []) ≡ (if t == u then 1 else 0)
    one u = unfold waiting in omega arith

begin-IsTallied :
    (c : Conn) (method : Text) (observes encodes : Bool)
    → IsTallied c
    → IsTallied (begin c method observes encodes)
unfolding begin
begin-IsTallied c method observes encodes h =
    if_cases IsTallied encodes
      (λ _. elim (Option-cases c.sending) [
        | inl n ↦ rw n (register-IsTallied _ c.made method observes (made-IsOwing c h))
        | inr (p, n) ↦ rw n h
      ])
      (λ _. complete-IsTallied _ c.made encode_error (made-IsOwing c h))

-- Fields that do not count.
same-IsTallied :
    (c d : Conn)
    → d.made ≡ c.made
    → d.pending ≡ c.pending
    → d.completed ≡ c.completed
    → d.closed ≡ c.closed
    → IsTallied c
    → IsTallied d
same-IsTallied c d m p e k h = record {
  once = λ t l.
      ap (λ q. waiting t q + results t d.completed) p
      ∙ ap (λ q. waiting t c.pending + results t q) e
      ∙ h.once t (omega (arith, l, m));
  fresh = λ t l.
      ap (λ q. waiting t q + results t d.completed) p
      ∙ ap (λ q. waiting t c.pending + results t q) e
      ∙ h.fresh t (omega (arith, l, m));
  settled = λ q. p ∙ h.settled (sym k ∙ q);
}

send-IsTallied : (c : Conn) (w : Write) → IsTallied c → IsTallied (send c w).0
unfolding send
send-IsTallied c not_encoded h = h
send-IsTallied c written h =
    if_cases {A = Conn × Option Result} (λ r. IsTallied r.0) c.closed {y = (c, none)} (λ _. h)
      (λ _. h)
send-IsTallied c failed h =
    if_cases {A = Conn × Option Result} (λ r. IsTallied r.0) c.closed (λ _. h)
      (λ _. close-IsTallied c write_error h)

dropped-IsTallied :
    (r : Conn × Option Result) (id t : ℕ) → IsTallied r.0 → IsTallied (dropped r id t)
unfolding dropped
dropped-IsTallied (c, none) id t h = h
dropped-IsTallied (c, some e) id t h = drop-IsTallied c id t e h

finish_begin-IsTallied : (c : Conn) (w : Write) → IsTallied c → IsTallied (finish_begin c w)
unfolding finish_begin
finish_begin-IsTallied c w h = elim (Option-cases c.sending) [
  | inl n ↦ rw (n, finish_begin) h
  | inr (p, n) ↦
      rw (n, finish_begin)
        (dropped-IsTallied (send (record c { sending = none }) w) p.0 p.1 (
          send-IsTallied (record c { sending = none }) w
            (same-IsTallied c _ refl refl refl refl h)))
]

respond-IsTallied : (c : Conn) (w : Write) → IsTallied c → IsTallied (respond c w)
unfolding respond
respond-IsTallied c w h = elim (Option-cases c.sending) [
  | inl n ↦ rw (n, respond) (send-IsTallied c w h)
  | inr (p, n) ↦ rw (n, respond) h
]

reject-IsTallied : (c : Conn) (w : Write) → IsTallied c → IsTallied (reject c w)
unfolding reject
reject-IsTallied c w h = close-IsTallied (respond c w) read_error (respond-IsTallied c w h)

replace-nil : (id : ℕ) (d : Call) (cs : Calls) → cs ≡ [] → replace_call id d cs ≡ []
unfolding replace_call
replace-nil id d cs e = rw e refl

abandon-IsTallied : (c : Conn) (id t : ℕ) → IsTallied c → IsTallied (abandon c id t)
unfolding abandon
abandon-IsTallied c id t h = elim (Option-cases (find_call id c.pending)) [
  | inl n ↦ rw (n, abandon) h
  | inr (p, n) ↦
      let d : Call = record p { observes = false; drain = true } in
      rw (n, abandon)
        (if_cases IsTallied (p.token == t)
          (λ _. record {
            once = λ u l. omega (arith, h.once u l, waiting-replace u id c.pending p d n refl);
            fresh = λ u l. omega (arith, h.fresh u l, waiting-replace u id c.pending p d n refl);
            settled = λ q. replace-nil id d c.pending (h.settled q);
          })
          (λ _. h))
]

answered-IsTallied :
    (c : Conn) (p : Call) (r : Response) → IsOwing c p.token → IsTallied (answered c p r)
unfolding answered
answered-IsTallied c p error_response h = complete-IsTallied c p.token rpc_error h
answered-IsTallied c p invalid_response h =
    complete-IsTallied _ p.token invalid_result (close-IsOwing c p.token invalid_result h)
answered-IsTallied c p (result_response ok) h =
    let d = record c { observed = c.observed ++ p.token ∷ [] } in
    let k : IsOwing d p.token = record { once = h.once; fresh = h.fresh; settled = h.settled } in
    if_cases IsTallied (not p.observes) (λ _. complete-IsTallied c p.token success h)
      λ _.
        if_cases IsTallied ok (λ _. complete-IsTallied d p.token success k)
          λ _.
            complete-IsTallied _ p.token observer_error (close-IsOwing d p.token observer_error k)

receive_response-IsTallied :
    (c : Conn) (id : ℕ) (r : Response) → IsTallied c → IsTallied (receive_response c id r)
unfolding receive_response
receive_response-IsTallied c id r h = elim (Option-cases (find_call id c.pending)) [
  | inl n ↦ rw (n, receive_response) (close-IsTallied c read_error h)
  | inr (p, n) ↦ rw (n, receive_response) (answered-IsTallied _ p r (delete-IsOwing c id p n h))
]

receive_request-IsTallied :
    (c : Conn) (id : ℕ) (method : Text) (valid : Bool) (w : Write)
    → IsTallied c
    → IsTallied (receive_request c id method valid w)
unfolding receive_request
receive_request-IsTallied c id method valid w h =
    let d = record c { last = id } in
    let k = same-IsTallied c d refl refl refl refl h in
    if_cases IsTallied (ltb c.last id)
      (λ _.
        if_cases IsTallied (not valid || not (allows method (not c.client)))
          (λ _. reject-IsTallied d w k) (λ _. same-IsTallied c _ refl refl refl refl h))
      (λ _. reject-IsTallied c w h)

stopped-IsTallied : (c : Conn) → IsTallied c → IsTallied (record c { reading = false })
stopped-IsTallied c h = same-IsTallied c _ refl refl refl refl h

read-IsTallied : (c : Conn) (m : Move) → IsTallied c → IsTallied (read c m)
unfolding read
read-IsTallied c read_fails h = stopped-IsTallied _ (close-IsTallied c read_error h)
read-IsTallied c (bad_frame answerable w) h = stopped-IsTallied _ (
    if_cases IsTallied answerable (λ _. reject-IsTallied c w h)
      (λ _. close-IsTallied c read_error h))
read-IsTallied c (requests id method valid w) h = receive_request-IsTallied c id method valid w h
read-IsTallied c (responses id r) h = receive_response-IsTallied c id r h
read-IsTallied c m h = h

step-IsTallied : (c : Conn) (m : Move) → IsTallied c → IsTallied (step c m)
unfolding step
step-IsTallied c (begins method observes encodes) h = begin-IsTallied c method observes encodes h
step-IsTallied c (sends w) h = finish_begin-IsTallied c w h
step-IsTallied c (responds w) h = respond-IsTallied c w h
step-IsTallied c (abandons id t) h = abandon-IsTallied c id t h
step-IsTallied c closes h = close-IsTallied c closed_error h
step-IsTallied c m h = if_cases IsTallied c.reading (λ _. read-IsTallied c m h) (λ _. h)

from-IsTallied : (c : Conn) (ms : List Move) → IsTallied c → IsTallied (history c ms)
unfolding history
from-IsTallied c [] h = h
from-IsTallied c (m ∷ ms) h = from-IsTallied (step c m) ms (step-IsTallied c m h)

new_conn-IsTallied : (client : Bool) → IsTallied (new_conn client)
unfolding new_conn waiting
new_conn-IsTallied client = record {
  once = λ t l. absurd (omega (arith, l));
  fresh = λ t l. refl;
  settled = λ _. refl;
}

-- Through every history of a connection, each call begun either waits in the map, once, or has got
-- its one result, and no channel gets a result that was not made; so once the connection is closed,
-- every call has got exactly one result.
pub history-IsTallied :
    (client : Bool) (ms : List Move)
    → let c = history (new_conn client) ms in
      IsTallied c × (c.closed ≡ true → (t : ℕ) → t < c.made → results t c.completed ≡ 1)
history-IsTallied client ms =
    let h = from-IsTallied (new_conn client) ms (new_conn-IsTallied client) in
    (h, λ q t l. omega (arith, h.once t l, ap (waiting t) (h.settled q), waiting-nil t))
