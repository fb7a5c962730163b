-- ===== src/System/Finished.antt =====
-- The history of the relay in a reachable state: the requests that have finished, in that order.
use newapi_box.Prelude.{
  ◌^◌, ◌<◌, ◌≡◌, sym, subst, List, [], ◌∷◌, ◌++◌, Option, none, some, arith, length, length-append,
  append-nil,
}
use newapi_box.Prelude.Int.{ℤ}
use newapi_box.Text.{Text}
use newapi_box.Config.{Config}
use newapi_box.Proxy.Events.{Event, EventLog, new_event_log, record_event}
use newapi_box.Proxy.Events.History.{Refines, append-Refines, new_event_log-Refines}
use newapi_box.Proxy.Serve.{serve_http}
use newapi_box.System.{
  System, Step, begin, finish, plan, save_fails, save_succeeds, apply_fails, swap, close_previous,
  Reach, here, later,
}

abbrev recorded : Option Event → List Event
recorded none = []
recorded (some e) = e ∷ []

record_event-Refines :
    (h : List Event) (l : EventLog) (o : Option Event)
    → Refines h l
    → length (h ++ recorded o) < 2 ^ 64
    → Refines (h ++ recorded o) (record_event l o)
unfolding record_event
record_event-Refines h l none r small = subst (λ t. Refines t l) (sym (append-nil h)) r
record_event-Refines h l (some e) r small =
    append-Refines h l e r (omega (arith, length-append h (e ∷ []), r.counted))

module _ {ℓ} (P V W S : Type ℓ) (parse_duration : Text → Option ℤ)
    (encode : Config → Option Text) where
  -- The event that a step records, if any.
  unfoldable pub recorded_by : {s t : System} → Step P V W S parse_duration encode s t → List Event
  recorded_by (finish host before after f e) = recorded (serve_http host f.runtime f.request).logged
  recorded_by _ = []

  -- The events of the requests that have finished, in the order in which they did.
  unfoldable pub finished : {s t : System} → Reach P V W S parse_duration encode s t → List Event
  finished here = []
  finished (later r st) = finished r ++ recorded_by st

  Step-Refines :
      {s t : System} (st : Step P V W S parse_duration encode s t) (h : List Event)
      → Refines h s.log
      → length (h ++ recorded_by st) < 2 ^ 64
      → Refines (h ++ recorded_by st) t.log
  unfolding recorded_by
  Step-Refines (finish host before after f e) h r small = record_event-Refines h _ _ r small
  Step-Refines {s} (begin q) h r small = subst (λ x. Refines x s.log) (sym (append-nil h)) r
  Step-Refines {s} (plan c path method v e) h r small =
      subst (λ x. Refines x s.log) (sym (append-nil h)) r
  Step-Refines {s} (save_fails a before after next e k) h r small =
      subst (λ x. Refines x s.log) (sym (append-nil h)) r
  Step-Refines {s} (save_succeeds a before after next e k) h r small =
      subst (λ x. Refines x s.log) (sym (append-nil h)) r
  Step-Refines {s} (apply_fails before after next e k) h r small =
      subst (λ x. Refines x s.log) (sym (append-nil h)) r
  Step-Refines {s} (swap before after next rt e k) h r small =
      subst (λ x. Refines x s.log) (sym (append-nil h)) r
  Step-Refines {s} (close_previous before after previous e) h r small =
      subst (λ x. Refines x s.log) (sym (append-nil h)) r

  -- From a start with an empty log, and whatever requests and saves come between one another: the log
  -- stands for the events of the requests that have finished, each once and in the order in which
  -- they finished, as long as they are fewer than 2^64.
  pub Reach-Refines :
      {s t : System} (r : Reach P V W S parse_duration encode s t)
      → s.log ≡ new_event_log
      → length (finished r) < 2 ^ 64
      → Refines (finished r) t.log
  unfolding finished
  Reach-Refines here fresh small = subst (Refines []) (sym fresh) new_event_log-Refines
  Reach-Refines (later r st) fresh small =
      Step-Refines st (finished r)
        (Reach-Refines r fresh (omega (arith, length-append (finished r) (recorded_by st)))) small
