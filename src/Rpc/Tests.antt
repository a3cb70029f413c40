-- ===== src/Rpc/Tests.antt =====
-- A connection on concrete calls.
use sessionbus.Base.{List, [], arith, codes, false, refl, some, text_eq, true, ℕ, ◌<◌, ◌∷◌, ◌≡◌}
use sessionbus.Rpc.Calls.{Call, delete_call, find_call}
use sessionbus.Rpc.Connection.{
  Move, abandons, all_done, answered, begin, begins, close, complete, dropped, finish_begin,
  history, new_conn, read, read_error, read_fails, receive_request, receive_response, register,
  requests, responses, result_response, send, sends, step, success, written,
}
use sessionbus.Rpc.Draining.{abandon_observes_nothing, count}
use sessionbus.Rpc.Ids.{IsNumbered, history-IsNumbered}
use sessionbus.Rpc.Methods.{allows, find_codec}
use sessionbus.Rpc.Once.{IsTallied, history-IsTallied, results}

client_may_send : allows (codes "message.send") true ≡ true
unfolding allows find_codec text_eq
client_may_send = refl

client_may_not_deliver : allows (codes "message.deliver") true ≡ false
unfolding allows find_codec text_eq
client_may_not_deliver = refl

-- Two calls are begun; the first is answered, and the connection breaks.
abbrev broken_moves : List Move
broken_moves =
    begins (codes "turn.ack") true true
    ∷ sends written
    ∷ begins (codes "turn.run") false true
    ∷ sends written
    ∷ responses 1 (result_response true)
    ∷ requests 1 (codes "turn.interrupt") true written
    ∷ read_fails
    ∷ []

broken_results :
    (history (new_conn true) broken_moves).completed ≡ (0, success) ∷ (1, read_error) ∷ []
unfolding history step begin register complete finish_begin send dropped read receive_response
    answered receive_request allows find_codec find_call delete_call close all_done new_conn text_eq
broken_results = refl

broken_closed : (history (new_conn true) broken_moves).handled ≡ 1 ∷ []
unfolding history step begin register complete finish_begin send dropped read receive_response
    answered receive_request allows find_codec find_call delete_call close all_done new_conn text_eq
broken_closed = refl

history-IsTallied_example :
    let c = history (new_conn true) broken_moves in
    IsTallied c × (c.closed ≡ true → (t : ℕ) → t < c.made → results t c.completed ≡ 1)
history-IsTallied_example = history-IsTallied true broken_moves

history-IsNumbered_example : IsNumbered (history (new_conn true) broken_moves)
history-IsNumbered_example = history-IsNumbered true broken_moves

-- One call that observes waits.
abbrev one_call : List Move
one_call = begins (codes "turn.ack") true true ∷ sends written ∷ []

abbrev ack_call : Call
ack_call = record { token = 0; method = codes "turn.ack"; observes = true; drain = false }

waits : find_call 1 (history (new_conn true) one_call).pending ≡ some ack_call
unfolding history step begin register complete finish_begin send dropped find_call new_conn
waits = refl

one_made : 0 < (history (new_conn true) one_call).made
unfolding history step begin register complete finish_begin send dropped new_conn
one_made = omega arith

abandon_observes_nothing_example :
    count 0
      (history
        (history (new_conn true) one_call)
        (abandons 1 0 ∷ responses 1 (result_response true) ∷ [])).observed
    ≡ count 0 (history (new_conn true) one_call).observed
abandon_observes_nothing_example =
    abandon_observes_nothing (history (new_conn true) one_call) 1 0 ack_call
      (responses 1 (result_response true) ∷ []) (history-IsTallied true one_call).0 one_made waits
      refl
