-- ===== src/Rpc/Draining.antt =====
-- rpc.go: a call that its caller has given up.
use sessionbus.Base.{
  ==_iff, Bool, List, Option, Text, [], arith, false, if_cases, if◌then◌else◌, leb, length, ltb,
  none, not, option_cases, refl, some, true, ℕ, ◌++◌, ◌+◌, ◌<◌, ◌==◌, ◌||◌, ◌∷◌, ◌≡◌, ◌≢◌, ◌≤◌,
}
use sessionbus.Protocol.{max_operations}
use sessionbus.Rpc.Calls.{
  Call, Calls, delete_call, find_call, replace_call, waiting, waiting-delete,
}
use sessionbus.Rpc.Connection.{
  Conn, Move, Response, Result, Write, abandon, abandons, answered, bad_frame, begin, begins, close,
  closed_error, closes, complete, drop, dropped, encode_error, error_response, exhausted, failed,
  finish_begin, history, invalid_response, invalid_result, max_request_id, not_encoded,
  observer_error, read, read_error, read_fails, receive_request, receive_response, register, reject,
  requests, respond, responds, responses, result_response, rpc_error, send, sends, step, success,
  too_many, write_error, written,
}
use sessionbus.Rpc.Methods.{allows}
use sessionbus.Rpc.Once.{IsTallied}

abbrev pub count : ℕ → List ℕ → ℕ
count t [] = 0
count t (x ∷ xs) = (if x == t then 1 else 0) + count t xs

count-append : (t : ℕ) (a b : List ℕ) → count t (a ++ b) ≡ count t a + count t b
count-append t [] b = omega arith
count-append t (x ∷ a) b = omega (arith, count-append t a b)

-- No entry of the map observes for this channel.
abbrev Quiet : ℕ → Calls → Type 0
Quiet t [] = Unit {0}
Quiet t ((k, c) ∷ cs) = (c.token ≡ t → c.observes ≡ false) × Quiet t cs

Quiet-find :
    (t id : ℕ) (cs : Calls) (c : Call)
    → Quiet t cs
    → find_call id cs ≡ some c
    → c.token ≡ t
    → c.observes ≡ false
unfolding find_call
Quiet-find t id [] c q h = absurd (ground arith)
Quiet-find t id ((k, d) ∷ cs) c q h = ground (arith, q.0, Quiet-find t id cs c q.1)

Quiet-delete : (t id : ℕ) (cs : Calls) → Quiet t cs → Quiet t (delete_call id cs)
unfolding delete_call
Quiet-delete t id [] q = q
Quiet-delete t id ((k, d) ∷ cs) q =
    if_cases (Quiet t) (id == k) (λ _. q.1) (λ _. (q.0, Quiet-delete t id cs q.1))

Quiet-replace :
    (t id : ℕ) (d : Call) (cs : Calls)
    → d.observes ≡ false
    → Quiet t cs
    → Quiet t (replace_call id d cs)
unfolding replace_call
Quiet-replace t id d [] o q = q
Quiet-replace t id d ((k, c) ∷ cs) o q =
    if_cases (Quiet t) (id == k) (λ _. (λ _. o, q.1)) (λ _. (q.0, Quiet-replace t id d cs o q.1))

Quiet-append :
    (t : ℕ) (cs : Calls) (k : ℕ) (c : Call)
    → Quiet t cs
    → (c.token ≡ t → c.observes ≡ false)
    → Quiet t (cs ++ (k, c) ∷ [])
Quiet-append t [] k c q h = (h, tt)
Quiet-append t ((j, d) ∷ cs) k c q h = (q.0, Quiet-append t cs k c q.1 h)

Quiet-unused : (t : ℕ) (cs : Calls) → waiting t cs ≡ 0 → Quiet t cs
unfolding waiting
Quiet-unused t [] w = tt
Quiet-unused t ((k, c) ∷ cs) w = (λ e. absurd (ground arith), Quiet-unused t cs (omega (arith, w)))

-- The only call of the channel is given up.
Quiet-abandoned :
    (t id : ℕ) (cs : Calls) (c d : Call)
    → find_call id cs ≡ some c
    → c.token ≡ t
    → d.observes ≡ false
    → waiting t cs ≤ 1
    → Quiet t (replace_call id d cs)
unfolding replace_call find_call waiting
Quiet-abandoned t id [] c d f e o w = tt
Quiet-abandoned t id ((k, x) ∷ cs) c d f e o w =
    if_cases (Quiet t) (id == k) (λ same. (λ _. o, Quiet-unused t cs (ground arith)))
      (λ other.
        let f' : find_call id cs ≡ some c = ground arith in
        let one : waiting t cs ≡ waiting t (delete_call id cs) + (if c.token == t then 1 else 0) =
          waiting-delete t id cs c f' in
        (λ s. absurd (ground (arith, one)), Quiet-abandoned t id cs c d f' e o (omega (arith, w))))

-- The observer of channel `t` has run `n` times and will not run.
record IsQuiet (t n : ℕ) (c : Conn) : Type 0 where
  quiet : Quiet t c.pending
  old : t < c.made
  ran : count t c.observed ≡ n

complete-IsQuiet :
    (t n : ℕ) (c : Conn) (u : ℕ) (r : Result) → IsQuiet t n c → IsQuiet t n (complete c u r)
unfolding complete
complete-IsQuiet t n c u r h = record { quiet = h.quiet; old = h.old; ran = h.ran }

close-IsQuiet : (t n : ℕ) (c : Conn) (e : Result) → IsQuiet t n c → IsQuiet t n (close c e)
unfolding close
close-IsQuiet t n c e h =
    if_cases (IsQuiet t n) c.closed (λ _. h) (λ _. record { quiet = tt; old = h.old; ran = h.ran })

delete-IsQuiet :
    (t n : ℕ) (c : Conn) (id : ℕ)
    → IsQuiet t n c
    → IsQuiet t n (record c { pending = delete_call id c.pending })
delete-IsQuiet t n c id h = record {
  quiet = Quiet-delete t id c.pending h.quiet;
  old = h.old;
  ran = h.ran;
}

drop-IsQuiet :
    (t n : ℕ) (c : Conn) (id u : ℕ) (e : Result) → IsQuiet t n c → IsQuiet t n (drop c id u e)
unfolding drop
drop-IsQuiet t n c id u e h =
    option_cases (IsQuiet t n) (find_call id c.pending) (λ _. h)
      λ p _.
        if_cases (IsQuiet t n) (p.token == u)
          (λ _. complete-IsQuiet t n _ u e (delete-IsQuiet t n c id h)) (λ _. h)

register-IsQuiet :
    (t n : ℕ) (c : Conn) (u : ℕ) (method : Text) (observes : Bool)
    → u ≢ t
    → IsQuiet t n c
    → IsQuiet t n (register c u method observes)
unfolding register
register-IsQuiet t n c u method observes other h =
    if_cases (IsQuiet t n) c.closed (λ _. complete-IsQuiet t n c u closed_error h)
      λ _.
        if_cases (IsQuiet t n) (c.next == max_request_id)
          (λ _. complete-IsQuiet t n c u exhausted h)
          λ _.
            if_cases (IsQuiet t n) (leb max_operations (length c.pending))
              (λ _. complete-IsQuiet t n c u too_many h)
              (λ _. record {
                quiet = Quiet-append t c.pending (c.next + 1) _ h.quiet (λ e. absurd (other e));
                old = h.old;
                ran = h.ran;
              })

begin-IsQuiet :
    (t n : ℕ) (c : Conn) (method : Text) (observes encodes : Bool)
    → IsQuiet t n c
    → IsQuiet t n (begin c method observes encodes)
unfolding begin
begin-IsQuiet t n c method observes encodes h =
    let d : Conn = record c { made = c.made + 1 } in
    let k : IsQuiet t n d = record { quiet = h.quiet; old = omega (arith, h.old); ran = h.ran } in
    if_cases (IsQuiet t n) encodes
      (λ _.
        option_cases (IsQuiet t n) c.sending
          (λ _. register-IsQuiet t n d c.made method observes (λ e. omega (arith, e, h.old)) k)
          (λ p _. h))
      (λ _. complete-IsQuiet t n d c.made encode_error k)

send-IsQuiet : (t n : ℕ) (c : Conn) (w : Write) → IsQuiet t n c → IsQuiet t n (send c w).0
unfolding send
send-IsQuiet t n c not_encoded h = h
send-IsQuiet t n c written h =
    if_cases {A = Conn × Option Result} (λ r. IsQuiet t n r.0) c.closed {y = (c, none)} (λ _. h)
      (λ _. h)
send-IsQuiet t n c failed h =
    if_cases {A = Conn × Option Result} (λ r. IsQuiet t n r.0) c.closed (λ _. h)
      (λ _. close-IsQuiet t n c write_error h)

dropped-IsQuiet :
    (t n : ℕ) (r : Conn × Option Result) (id u : ℕ) → IsQuiet t n r.0 → IsQuiet t n (dropped r id u)
unfolding dropped
dropped-IsQuiet t n (c, none) id u h = h
dropped-IsQuiet t n (c, some e) id u h = drop-IsQuiet t n c id u e h

finish_begin-IsQuiet :
    (t n : ℕ) (c : Conn) (w : Write) → IsQuiet t n c → IsQuiet t n (finish_begin c w)
unfolding finish_begin
finish_begin-IsQuiet t n c w h =
    option_cases (IsQuiet t n) c.sending (λ _. h)
      λ p _. dropped-IsQuiet t n _ p.0 p.1 (
        send-IsQuiet t n (record c { sending = none }) w
          (record { quiet = h.quiet; old = h.old; ran = h.ran }))

respond-IsQuiet : (t n : ℕ) (c : Conn) (w : Write) → IsQuiet t n c → IsQuiet t n (respond c w)
unfolding respond
respond-IsQuiet t n c w h =
    option_cases (IsQuiet t n) c.sending (λ _. send-IsQuiet t n c w h) (λ p _. h)

reject-IsQuiet : (t n : ℕ) (c : Conn) (w : Write) → IsQuiet t n c → IsQuiet t n (reject c w)
unfolding reject
reject-IsQuiet t n c w h = close-IsQuiet t n _ read_error (respond-IsQuiet t n c w h)

abandon-IsQuiet : (t n : ℕ) (c : Conn) (id u : ℕ) → IsQuiet t n c → IsQuiet t n (abandon c id u)
unfolding abandon
abandon-IsQuiet t n c id u h =
    option_cases (IsQuiet t n) (find_call id c.pending) (λ _. h)
      λ p _.
        if_cases (IsQuiet t n) (p.token == u)
          (λ _. record {
            quiet = Quiet-replace t id _ c.pending refl h.quiet;
            old = h.old;
            ran = h.ran;
          })
          (λ _. h)

answered-IsQuiet :
    (t n : ℕ) (c : Conn) (p : Call) (r : Response)
    → (p.token ≡ t → p.observes ≡ false)
    → IsQuiet t n c
    → IsQuiet t n (answered c p r)
unfolding answered
answered-IsQuiet t n c p error_response q h = complete-IsQuiet t n c p.token rpc_error h
answered-IsQuiet t n c p invalid_response q h =
    complete-IsQuiet t n _ p.token invalid_result (close-IsQuiet t n c invalid_result h)
answered-IsQuiet t n c p (result_response ok) q h =
    if_cases (IsQuiet t n) (not p.observes) (λ _. complete-IsQuiet t n c p.token success h)
      λ loud.
        let d : Conn = record c { observed = c.observed ++ p.token ∷ [] } in
        let k : IsQuiet t n d = record {
          quiet = h.quiet;
          old = h.old;
          ran = ground (arith, h.ran, count-append t c.observed (p.token ∷ []), q);
        } in
        if_cases (IsQuiet t n) ok (λ _. complete-IsQuiet t n d p.token success k)
          λ _. complete-IsQuiet t n _ p.token observer_error (close-IsQuiet t n d observer_error k)

receive_response-IsQuiet :
    (t n : ℕ) (c : Conn) (id : ℕ) (r : Response)
    → IsQuiet t n c
    → IsQuiet t n (receive_response c id r)
unfolding receive_response
receive_response-IsQuiet t n c id r h =
    option_cases (IsQuiet t n) (find_call id c.pending) (λ _. close-IsQuiet t n c read_error h)
      λ p e.
        answered-IsQuiet t n _ p r (Quiet-find t id c.pending p h.quiet e)
          (delete-IsQuiet t n c id h)

receive_request-IsQuiet :
    (t n : ℕ) (c : Conn) (id : ℕ) (method : Text) (valid : Bool) (w : Write)
    → IsQuiet t n c
    → IsQuiet t n (receive_request c id method valid w)
unfolding receive_request
receive_request-IsQuiet t n c id method valid w h =
    let d : Conn = record c { last = id } in
    if_cases (IsQuiet t n) (ltb c.last id)
      (λ _.
        if_cases (IsQuiet t n) (not valid || not (allows method (not c.client)))
          (λ _. reject-IsQuiet t n d w (record { quiet = h.quiet; old = h.old; ran = h.ran }))
          (λ _. record { quiet = h.quiet; old = h.old; ran = h.ran }))
      (λ _. reject-IsQuiet t n c w h)

read-IsQuiet : (t n : ℕ) (c : Conn) (m : Move) → IsQuiet t n c → IsQuiet t n (read c m)
unfolding read
read-IsQuiet t n c read_fails h =
    let k = close-IsQuiet t n c read_error h in record { quiet = k.quiet; old = k.old; ran = k.ran }
read-IsQuiet t n c (bad_frame answerable w) h =
    let k : IsQuiet t n (if answerable then reject c w else close c read_error) =
      if_cases (IsQuiet t n) answerable (λ _. reject-IsQuiet t n c w h)
        (λ _. close-IsQuiet t n c read_error h) in
    record { quiet = k.quiet; old = k.old; ran = k.ran }
read-IsQuiet t n c (requests id method valid w) h =
    receive_request-IsQuiet t n c id method valid w h
read-IsQuiet t n c (responses id r) h = receive_response-IsQuiet t n c id r h
read-IsQuiet t n c m h = h

step-IsQuiet : (t n : ℕ) (c : Conn) (m : Move) → IsQuiet t n c → IsQuiet t n (step c m)
unfolding step
step-IsQuiet t n c (begins method observes encodes) h =
    begin-IsQuiet t n c method observes encodes h
step-IsQuiet t n c (sends w) h = finish_begin-IsQuiet t n c w h
step-IsQuiet t n c (responds w) h = respond-IsQuiet t n c w h
step-IsQuiet t n c (abandons id u) h = abandon-IsQuiet t n c id u h
step-IsQuiet t n c closes h = close-IsQuiet t n c closed_error h
step-IsQuiet t n c m h = if_cases (IsQuiet t n) c.reading (λ _. read-IsQuiet t n c m h) (λ _. h)

from-IsQuiet : (t n : ℕ) (c : Conn) (ms : List Move) → IsQuiet t n c → IsQuiet t n (history c ms)
unfolding history
from-IsQuiet t n c [] h = h
from-IsQuiet t n c (m ∷ ms) h = from-IsQuiet t n (step c m) ms (step-IsQuiet t n c m h)

-- After a caller has given up a call that was still waiting, on a connection that satisfies
-- IsTallied, the call's observer does not run through any later history, whatever is received.
pub abandon_observes_nothing :
    (c : Conn) (id t : ℕ) (p : Call) (ms : List Move)
    → IsTallied c
    → t < c.made
    → find_call id c.pending ≡ some p
    → p.token ≡ t
    → count t (history c (abandons id t ∷ ms)).observed ≡ count t c.observed
unfolding history step abandon
abandon_observes_nothing c id t p ms k l e s =
    (from-IsQuiet t (count t c.observed) (abandon c id t) ms given_up).ran
  where
    d : Call
    d = record p { observes = false; drain = true }

    given_up : IsQuiet t (count t c.observed) (abandon c id t)
    given_up =
        rw (e, abandon)
          (rw ((==_iff p.token t).1 s) (record {
            quiet = Quiet-abandoned t id c.pending p d e s refl (omega (arith, k.once t l));
            old = l;
            ran = refl;
          }))
