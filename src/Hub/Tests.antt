-- ===== src/Hub/Tests.antt =====
-- A link on concrete calls.
use sessionbus.Base.{
  Bool, List, Text, [], codes, false, if◌then◌else◌, none, refl, some, text_eq, true, ℕ, ◌&&◌, ◌++◌,
  ◌∷◌, ◌≡◌, ◌⊎◌,
}
use sessionbus.Hub.Failed.{failed_quiet}
use sessionbus.Hub.Fates.{IsFair, history-IsFair, taken}
use sessionbus.Hub.Hosts.{hub_history_keeps, is_closed, refused, remove_exact, told}
use sessionbus.Hub.Limits.{IsLimited, history-IsLimited}
use sessionbus.Hub.Link.{
  Move, answer, asks_roster, call_forward, call_lifetime, call_roster, closes, decode_pending_reply,
  delete_pending, end_link, enter, event, fail, find_pending, forward_lost, forward_request,
  forward_request_bytes, forwards, frames, history, hosts_request, is_full, lifetimes, new_link,
  plain_result, post, receive_frame, receive_request, receive_response, registry_closed,
  registry_forward, request, response, result_response, send_forward, send_reply, settle_pending,
  settle_queued, step,
}
use sessionbus.Hub.Registry.{
  Event, HostLink, HubState, delete_link, find_link, handle, hub_history, is_registered, new_hub,
  put_link, ready, remove,
}

abbrev all_encode : Bool → Bool
all_encode b = true

-- A forward and a roster call are sent, the forward is answered, a request comes out of order, and the
-- connection closes with a call in its queue.
abbrev link_moves : List Move
link_moves =
    forwards 1 false false true all_encode true true
    ∷ asks_roster 2 true true
    ∷ frames (request 7 (forward_request true))
    ∷ frames (response 1 (result_response false true))
    ∷ frames (request 7 (hosts_request true))
    ∷ lifetimes 3 true true
    ∷ closes (4 ∷ [])
    ∷ []

link_replies :
    let l = history (new_link true true true true) link_moves in
    (l.replies ≡ (1, plain_result) ∷ (3, forward_lost) ∷ (2, forward_lost) ∷ (4, forward_lost) ∷ [])
    × (l.posted ≡ registry_forward 7 ∷ registry_closed ∷ [])
unfolding history step event call_roster call_lifetime call_forward send_forward
    forward_request_bytes send_reply receive_frame receive_response receive_request
    decode_pending_reply find_pending delete_pending fail post answer enter is_full end_link
    settle_pending settle_queued new_link
link_replies = (refl, refl)

history-IsFair_example :
    IsFair 2
      (taken 2 (new_link true true true true) link_moves)
      (history (new_link true true true true) link_moves)
history-IsFair_example = history-IsFair true true true true 2 link_moves

history-IsLimited_example : IsLimited (history (new_link true true true true) link_moves)
history-IsLimited_example = history-IsLimited true true true true link_moves

failed_quiet_example :
    let t = history (new_link true true true false) link_moves in
    (t.failed ≡ true)
    × (t.next_id ≡ (new_link true true true false).next_id)
    × ((t.posted ≡ (new_link true true true false).posted)
        ⊎ ((t.posted ≡ (new_link true true true false).posted ++ registry_closed ∷ [])
            × (t.ended ≡ true)))
unfolding new_link
failed_quiet_example = failed_quiet (new_link true true true false) link_moves refl

abbrev first_link : HostLink
first_link = record {
  number = 1;
  host = codes "alpha";
  attachment = codes "a";
  wake = true;
  traces = true;
}

abbrev second_link : HostLink
second_link = record {
  number = 2;
  host = codes "beta";
  attachment = codes "b";
  wake = true;
  traces = true;
}

abbrev duplicate_link : HostLink
duplicate_link = record {
  number = 3;
  host = codes "beta";
  attachment = codes "c";
  wake = true;
  traces = true;
}

abbrev none_full : ℕ → Bool
none_full n = false

abbrev hub_events : List ((ℕ → Bool) × Event)
hub_events =
    (none_full, ready first_link)
    ∷ (none_full, ready second_link)
    ∷ (none_full, ready duplicate_link)
    ∷ []

abbrev unsorted : List Text → List Text
unsorted ts = ts

hub_links : (hub_history unsorted new_hub hub_events).links ≡ first_link ∷ second_link ∷ []
unfolding hub_history handle find_link put_link delete_link new_hub text_eq
hub_links = refl

abbrev two_links : HubState
two_links = record {
  links = first_link ∷ second_link ∷ [];
  messages = [];
  closed = [];
  waiting = [];
}

first_found : find_link (codes "alpha") two_links.links ≡ some first_link
unfolding find_link text_eq
first_found = refl

hub_history_keeps_example :
    let t = hub_history unsorted two_links hub_events in
    (find_link (codes "alpha") t.links ≡ some first_link)
    ⊎ (is_closed first_link.number t.closed ≡ true)
hub_history_keeps_example =
    hub_history_keeps unsorted two_links hub_events (codes "alpha") first_link first_found

remove_exact_example :
    let t = remove none_full first_link two_links in
    let held = is_registered two_links.links first_link in
    (find_link (codes "beta") t.links ≡ (
      if held && text_eq first_link.host (codes "beta")
      then none
      else find_link (codes "beta") two_links.links))
    × (t.messages ≡ two_links.messages ++ (if held then told none_full first_link t.links else []))
    × (t.closed
        ≡ two_links.closed ++ (if held then first_link.number ∷ refused none_full t.links else []))
remove_exact_example = remove_exact none_full first_link two_links (codes "beta")
