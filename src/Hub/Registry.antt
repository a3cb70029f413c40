-- ===== src/Hub/Registry.antt =====
-- hub.go: the hub's registry, `hubState.handle`, `forward`, `reply`, `remove` and `ownerEnd`. `full` says
-- which links `wire.Post` refuses; where Go's map of links has no order they are taken in that of their
-- registration. The sockets that are not yet links and the rosters are left out.
use sessionbus.Base.{
  Bool, List, Option, Text, [], false, if◌then◌else◌, none, not, some, text_eq, true, ℕ, ◌&&◌, ◌++◌,
  ◌==◌, ◌||◌, ◌∷◌,
}
use sessionbus.Protocol.{Code, unknown_host}

-- A `hostLink`, as far as the registry looks at it; `number` tells links apart.
pub record HostLink : Type 0 where
  pub number : ℕ
  pub host : Text
  pub attachment : Text
  pub wake : Bool
  pub traces : Bool

-- The host is that of the owner's identifier, if it has one.
pub record TraceRecipient : Type 0 where
  pub owner_host : Option Text
  pub source_attachment : Text

pub data Body : Type 0 where
  refusal : Code → Body
  unsupported : Body
  hosts_result : List Text → Body
  -- the error or result that a daemon answered with
  other_body : Body

pub record Answer : Type 0 where
  pub body : Body
  pub trace : Option (List TraceRecipient)

pub record Forwarded : Type 0 where
  pub completion : Bool
  -- `requestRequiresTrace` and `Trace` of the request
  pub requires : Bool
  pub trace : Bool
  pub source_attachment : Text

pub data Message : Type 0 where
  reply_message : ℕ → Answer → Message
  forward_message : Forwarded → Message
  host_end_message : Text → Text → Message
  owner_end_message : Text → Text → Message

-- A goroutine that was started to wait for the answer to a call.
pub record Waiting : Type 0 where
  pub origin : HostLink
  pub destination : HostLink
  pub id : ℕ
  pub collect : Bool

pub record HubState : Type 0 where
  pub links : List HostLink
  pub messages : List (ℕ × Message)
  -- the links whose wire was closed
  pub closed : List ℕ
  pub waiting : List Waiting

unfoldable pub new_hub : HubState
new_hub = record { links = []; messages = []; closed = []; waiting = [] }

-- `s.links[host]`
unfoldable pub find_link : Text → List HostLink → Option HostLink
find_link host [] = none
find_link host (l ∷ ls) = if text_eq l.host host then some l else find_link host ls

unfoldable pub delete_link : Text → List HostLink → List HostLink
delete_link host [] = []
delete_link host (l ∷ ls) =
    let rest = delete_link host ls in if text_eq l.host host then rest else l ∷ rest

-- `s.links[link.host] = link`
unfoldable pub put_link : HostLink → List HostLink → List HostLink
unfolding delete_link
put_link link ls = delete_link link.host ls ++ link ∷ []

-- `s.links[link.host] == link`
unfoldable pub is_registered : List HostLink → HostLink → Bool
unfolding find_link
is_registered ls l = elim (find_link l.host ls) [ none ↦ false | some k ↦ k.number == l.number ]

unfoldable pub is_live : List HostLink → HostLink → TraceRecipient → Bool
unfolding find_link
is_live ls destination r = elim r.owner_host [
  | none ↦ false
  | some host ↦ if text_eq host destination.host then true else (elim (find_link host ls) [
    | none ↦ false
    | some owner ↦ text_eq owner.attachment r.source_attachment
  ])
]

unfoldable pub live_recipients :
    List HostLink → HostLink → List TraceRecipient → List TraceRecipient
unfolding is_live
live_recipients ls destination [] = []
live_recipients ls destination (r ∷ rs) =
    let rest = live_recipients ls destination rs in
    if is_live ls destination r then r ∷ rest else rest

unfoldable pub live_trace_recipients :
    List HostLink → Option HostLink → List TraceRecipient → List TraceRecipient
unfolding is_registered live_recipients
live_trace_recipients ls none rs = []
live_trace_recipients ls (some d) rs = if is_registered ls d then live_recipients ls d rs else []

unfoldable pub collected : List HostLink → Option HostLink → Answer → Answer
unfolding live_trace_recipients
collected ls d a = record a {
  trace = some (elim a.trace [ none ↦ [] | some rs ↦ live_trace_recipients ls d rs ]);
}

unfoldable pub plain : Body → Answer
plain b = record { body = b; trace = none }

module _ (full : ℕ → Bool) where
  -- The loop of `remove`, on one link after the other.
  unfoldable pub tell_end : HostLink → List HostLink → HubState → HubState
  tell_end link [] s = s
  tell_end link (o ∷ os) s = tell_end link os (
      if full o.number then record s { closed = s.closed ++ o.number ∷ [] } else record s {
        messages = s.messages ++ (o.number, host_end_message link.host link.attachment) ∷ [];
      })

  unfoldable pub remove : HostLink → HubState → HubState
  unfolding is_registered delete_link tell_end
  remove link s =
      let rest = delete_link link.host s.links in
      if is_registered s.links link
      then tell_end link rest (record s { links = rest; closed = s.closed ++ link.number ∷ [] })
      else s

  unfoldable pub reply : HostLink → Option HostLink → ℕ → Answer → Bool → HubState → HubState
  unfolding is_registered remove collected
  reply origin d id a collect s =
      let b = if collect then collected s.links d a else a in
      if not (is_registered s.links origin) || full origin.number
      then remove origin s
      else record s { messages = s.messages ++ (origin.number, reply_message id b) ∷ [] }

  -- The part of `forward` once the destination is found, for a request that both sides support.
  unfoldable pub post_forward : HostLink → HostLink → ℕ → Forwarded → HubState → HubState
  unfolding remove
  post_forward origin d id f s =
      let collect = f.trace && origin.traces in
      let g = record f {
        trace = f.trace && not (collect && not d.traces);
        source_attachment = origin.attachment;
      } in
      let t =
        if full d.number
        then remove d s
        else record s { messages = s.messages ++ (d.number, forward_message g) ∷ [] } in
      record t {
        waiting =
            t.waiting
            ++ record { origin = origin; destination = d; id = id; collect = collect } ∷ [];
      }

  unfoldable pub forward_to : HostLink → HostLink → ℕ → Forwarded → HubState → HubState
  unfolding reply post_forward
  forward_to origin d id f s =
      if f.completion && not d.wake
      then reply origin none id (plain (refusal Code.forward_lost)) false s
      else if f.requires && not d.traces
      then reply origin none id (plain unsupported) false s
      else post_forward origin d id f s

  unfoldable pub forward : HostLink → ℕ → Text → Forwarded → HubState → HubState
  unfolding is_registered reply find_link forward_to
  forward origin id host f s =
      if not (is_registered s.links origin)
      then s
      else if f.completion && not origin.wake
      then reply origin none id (plain (refusal Code.forward_lost)) false s
      else if f.requires && not origin.traces
      then reply origin none id (plain unsupported) false s
      else (elim (find_link host s.links) [
        | none ↦ reply origin none id (plain (refusal unknown_host)) false s
        | some d ↦ forward_to origin d id (record f { trace = f.trace && origin.traces }) s
      ])

  unfoldable pub owner_end : HostLink → ℕ → Text → HubState → HubState
  unfolding is_registered reply find_link remove
  owner_end origin id host s =
      if not (is_registered s.links origin) then s else (elim (find_link host s.links) [
        | none ↦ reply origin none id (plain (refusal unknown_host)) false s
        | some d ↦
            if full d.number
            then reply origin none id (plain (refusal Code.forward_lost)) false (remove d s)
            else record s {
              messages =
                  s.messages ++ (d.number, owner_end_message origin.host origin.attachment) ∷ [];
              waiting =
                  s.waiting
                  ++ record { origin = origin; destination = d; id = id; collect = false } ∷ [];
            }
      ])

unfoldable pub hosts_of : HostLink → List HostLink → List Text
hosts_of link [] = []
hosts_of link (l ∷ ls) =
    let rest = hosts_of link ls in if text_eq l.host link.host then rest else l.host ∷ rest

pub data Event : Type 0 where
  ready link_closed : HostLink → Event
  lists_hosts : HostLink → ℕ → Event
  asks_forward : HostLink → ℕ → Text → Forwarded → Event
  ends_owner : HostLink → ℕ → Text → Event
  replies : Waiting → Answer → Event

-- `sort` is `sort.Strings`.
module _ (sort : List Text → List Text) (full : ℕ → Bool) where
  unfoldable pub handle : HubState → Event → HubState
  unfolding find_link put_link is_registered remove reply forward owner_end hosts_of
  handle s (ready link) = elim (find_link link.host s.links) [
    | none ↦ record s { links = put_link link s.links }
    | some l ↦ record s { closed = s.closed ++ link.number ∷ [] }
  ]
  handle s (link_closed link) = remove full link s
  handle s (lists_hosts link id) =
      if is_registered s.links link
      then reply full link none id (plain (hosts_result (sort (hosts_of link s.links)))) false s
      else s
  handle s (asks_forward link id host f) = forward full link id host f s
  handle s (ends_owner link id host) = owner_end full link id host s
  handle s (replies w a) = reply full w.origin (some w.destination) w.id a w.collect s

-- The events one after the other, each with the links that refuse what is posted to them then.
unfoldable pub hub_history :
    (List Text → List Text) → HubState → List ((ℕ → Bool) × Event) → HubState
unfolding handle
hub_history sort s [] = s
hub_history sort s ((full, e) ∷ es) = hub_history sort (handle sort full s e) es
