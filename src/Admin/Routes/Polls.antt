-- ===== src/Admin/Routes/Polls.antt =====
-- The console's polls of the history: each asks for the events behind the number that the last poll
-- gave for the log's own.
use newapi_box.Prelude.{
  ℕ, ◌+◌, ◌-◌, ◌≤◌, ◌≡◌, refl, ap, ◌∙◌, List, [], ◌∷◌, ◌++◌, some, arith, length, drop,
  length-append, drop-drop,
}
use newapi_box.Proxy.Events.{event_log_cap, Event, EventLog, since, latest_seq}
use newapi_box.Proxy.Events.Poll.{stamped}
use newapi_box.Proxy.Events.History.{forgotten, recent, Refines, drop-stamped, since-Refines}
use newapi_box.Admin.Routes.{get_events}

drop-length : (h es : List Event) → drop (length h) (h ++ es) ≡ es
drop-length [] es = refl
drop-length (x ∷ h) es = drop-length h es

-- A reader that knows all but the last 200 at most is told those that it does not know.
pub recent-all :
    (h es : List Event)
    → length es ≤ event_log_cap
    → recent (h ++ es) (length h) ≡ stamped (length h) es
recent-all h es short =
    let f = forgotten (h ++ es) in
    let known : f + (length h - f) ≡ length h = omega (arith, length-append h es) in
    drop-drop (length h - f) f (stamped 0 (h ++ es))
    ∙ ap (λ k. drop k (stamped 0 (h ++ es))) known
    ∙ drop-stamped (length h) 0 (h ++ es)
    ∙ ap (λ t. stamped (0 + length h) t) (drop-length h es)
    ∙ ap (λ k. stamped k es) (omega arith)

-- A poll is told of a history `h` what it does not know, but for what is forgotten, and a number to
-- ask with the next time. If the events `es` come in between the two reads of the log, that number
-- is behind them, and the next poll, when at most 200 events `gs` more have come, is told exactly
-- `gs`, with their numbers: neither of the two polls is told `es`.
pub get_events-skips :
    (h es gs : List Event) (l later last : EventLog) (n : ℕ)
    → Refines h l
    → Refines (h ++ es) later
    → Refines ((h ++ es) ++ gs) last
    → length gs ≤ event_log_cap
    → let first = get_events (some l) (some later) n in
      (first.0 ≡ recent h n)
      × (first.1 ≡ length h + length es)
      × ((get_events (some last) (some last) first.1).0 ≡ stamped (length h + length es) gs)
unfolding get_events
get_events-skips h es gs l later last n r r' r'' short =
    let cursor : latest_seq (some later) ≡ length (h ++ es) =
      (since-Refines (h ++ es) later n r').1 in
    let both = length-append h es in
    (
      (since-Refines h l n r).0,
      cursor ∙ both,
      ap (λ k. since (some last) k) cursor
          ∙ (since-Refines ((h ++ es) ++ gs) last (length (h ++ es)) r'').0
          ∙ recent-all (h ++ es) gs short
          ∙ ap (λ k. stamped k gs) both,
    )
