-- ===== src/Proxy/Events.antt =====
-- internal/proxy/events.go: the bounded history of conversions. The mutex makes each operation
-- atomic, so a history is what a sequence of appends makes of the empty one.
pub mod Ring
pub mod Poll
pub mod History
use newapi_box.Prelude.{
  ℕ, ◌+◌, ◌%◌, ◌^◌, ltb, leb, Bool, if◌then◌else◌, List, [], ◌∷◌, ◌++◌, Option, none, some, length,
  drop,
}
use newapi_box.Prelude.Int.{ℤ}
use newapi_box.Text.{Text}
use newapi_box.Proxy.Types.{Message}

-- eventLogCap
abbrev pub event_log_cap : ℕ
event_log_cap = 200

pub record Event : Type 0 where
  pub seq : ℕ
  pub time : Text
  pub client : Text
  pub upstream : Text
  pub model : Text
  pub upstream_model : Text
  pub stream : Bool
  pub status : ℕ
  pub latency_ms : ℤ
  pub converter : Text
  pub diagnostics : ℕ
  pub prompt_tokens : ℤ
  pub completion_tokens : ℤ
  pub error : Option Message

pub record EventLog : Type 0 where
  pub seq : ℕ
  pub items : List Event

-- newEventLog
abbrev pub new_event_log : EventLog
new_event_log = record { seq = 0; items = [] }

-- copy(l.items, l.items[1:]); l.items[len(l.items)-1] = event
unfoldable pub shift_in : List Event → Event → List Event
shift_in [] e = []
shift_in (x ∷ []) e = e ∷ []
shift_in (x ∷ y ∷ rest) e = y ∷ shift_in (y ∷ rest) e

-- eventLog.append on a log that is not nil; the sequence number is a uint64
unfoldable pub append : EventLog → Event → EventLog
unfolding shift_in
append l e =
    let seq = (l.seq + 1) % 2 ^ 64 in
    let stamped = record e { seq = seq } in
    if leb event_log_cap (length l.items)
    then record { seq = seq; items = shift_in l.items stamped }
    else record { seq = seq; items = l.items ++ stamped ∷ [] }

-- The loop of eventLog.since.
unfoldable pub newer : List Event → ℕ → List Event
newer [] seq = []
newer (e ∷ es) seq = let rest = newer es seq in if ltb seq e.seq then e ∷ rest else rest

-- eventLog.since; nil has no events
unfoldable pub since : Option EventLog → ℕ → List Event
unfolding newer
since none seq = []
since (some l) seq = newer l.items seq

-- eventLog.latestSeq
unfoldable pub latest_seq : Option EventLog → ℕ
latest_seq none = 0
latest_seq (some l) = l.seq

-- A sequence of appends.
unfoldable pub append_all : EventLog → List Event → EventLog
unfolding append
append_all l [] = l
append_all l (e ∷ es) = append_all (append l e) es

-- The deferred append of a request that has a session.
unfoldable pub record_event : EventLog → Option Event → EventLog
record_event l none = l
record_event l (some e) = append l e
