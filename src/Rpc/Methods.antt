-- ===== src/Rpc/Methods.antt =====
-- validate.go of bus/sdk/go/protocol: the table `methodCodecs`, as far as it says which schema
-- definitions a method's parameters and result have and which side may call it.
use Prim.Native.String.{String}
use sessionbus.Base.{
  Bool, List, Option, Text, [], codes, false, if◌then◌else◌, none, not, rest, some, text_eq, true,
  ◌&&◌, ◌||◌, ◌∷◌,
}

pub record MethodCodec : Type 0 where
  pub params : Text
  pub result : Text
  pub client : Bool
  pub daemon : Bool

abbrev pub codec : String → String → Bool → Bool → MethodCodec
codec p r c d = record { params = codes p; result = codes r; client = c; daemon = d }

abbrev pub method_codecs : List (Text × MethodCodec)
method_codecs =
    (codes "session.hello", codec "SessionHelloRequest" "SessionHelloResult" true false)
    ∷ (
      codes "session.superseded",
      codec "SessionSupersededRequest" "SessionSupersededResult" false true,
    )
    ∷ (codes "session.list", codec "SessionListRequest" "SessionListResult" true false)
    ∷ (codes "message.send", codec "MessageSendRequest" "MessageSendResult" true false)
    ∷ (codes "message.deliver", codec "MessageDeliverRequest" "MessageDeliverResult" false true)
    ∷ (codes "lane.describe", codec "LaneDescribeRequest" "LaneDescribeResult" true false)
    ∷ (codes "lane.spawn", codec "LaneSpawnRequest" "LaneSpawnResult" true false)
    ∷ (codes "trace.configure", codec "TraceConfigureRequest" "TraceConfigureResult" true false)
    ∷ (codes "session.open", codec "SessionOpenRequest" "SessionOpenResult" false true)
    ∷ (codes "turn.run", codec "TurnRunRequest" "RunStatus" true false)
    ∷ (codes "turn.start", codec "TurnRunRequest" "RunRef" true false)
    ∷ (codes "turn.execute", codec "ExecuteRequest" "RunRef" false true)
    ∷ (codes "turn.status", codec "ReadRequest" "RunStatus" true true)
    ∷ (codes "turn.wait", codec "WaitRequest" "RunStatus" true true)
    ∷ (codes "turn.ack", codec "RunRef" "SessionCloseResult" true true)
    ∷ (codes "turn.ready", codec "TurnReady" "SessionCloseResult" true false)
    ∷ (codes "turn.interrupt", codec "TurnInterruptRequest" "TurnInterruptResult" true true)
    ∷ (codes "session.close", codec "SessionCloseRequest" "SessionCloseResult" true true)
    ∷ []

unfoldable pub find_codec : List (Text × MethodCodec) → Text → Option MethodCodec
find_codec [] method = none
find_codec ((name, spec) ∷ rest) method =
    if text_eq name method then some spec else find_codec rest method

-- `Allows`: whether the client, or the daemon, may call the method.
unfoldable pub allows : Text → Bool → Bool
unfolding find_codec
allows method client = elim (find_codec method_codecs method) [
  | none ↦ false
  | some spec ↦ client && spec.client || not client && spec.daemon
]
