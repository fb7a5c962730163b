-- ===== src/Proxy/Events/Ring.antt =====
-- The history holds the last events, at most 200, with consecutive sequence numbers.
use newapi_box.Prelude.{
  ℕ, suc, ◌+◌, ◌-◌, ◌%◌, ◌^◌, ◌≤◌, ◌<◌, ◌≡◌, ◌≢◌, refl, ap, sym, List, [], ◌∷◌, ◌++◌, arith, length,
  drop, length-append, subst, leb-true, leb-false,
}
use native.Mathlib.Decide.{dec_le}
use newapi_box.Proxy.Events.{
  event_log_cap, Event, EventLog, new_event_log, shift_in, append, append_all,
}

shift_in-drop : (es : List Event) (e : Event) → es ≢ [] → shift_in es e ≡ drop 1 es ++ e ∷ []
unfolding shift_in
shift_in-drop [] e h = absurd (h refl)
shift_in-drop (x ∷ []) e h = refl
shift_in-drop (x ∷ y ∷ rest) e h = ap (◌∷◌ y) (shift_in-drop (y ∷ rest) e (λ p. cc))

-- The events bear the numbers from `first` on, in order.
abbrev pub IsRun : ℕ → List Event → Type 0
IsRun first [] = Unit
IsRun first (e ∷ es) = (e.seq ≡ first) × IsRun (suc first) es

-- At most 200 events, and the last of them bears the log's own number.
pub record IsRing (l : EventLog) : Type 0 where
  pub first : ℕ
  pub bounded : length l.items ≤ event_log_cap
  pub run : IsRun first l.items
  pub up_to : first + length l.items ≡ suc l.seq

IsRun-concat :
    (es : List Event) (first : ℕ) (e : Event)
    → IsRun first es
    → e.seq ≡ first + length es
    → IsRun first (es ++ e ∷ [])
IsRun-concat [] first e h s = (omega arith, tt)
IsRun-concat (x ∷ es) first e h s = (h.0, IsRun-concat es (suc first) e h.1 (omega arith))

IsRun-drop : (es : List Event) (first : ℕ) → IsRun first es → IsRun (suc first) (drop 1 es)
IsRun-drop [] first h = tt
IsRun-drop (x ∷ es) first h = h.1

length-drop_one : (es : List Event) → length (drop 1 es) ≡ length es - 1
length-drop_one [] = omega arith
length-drop_one (x ∷ es) = omega arith

pub append-room :
    (l : EventLog) (e : Event)
    → length l.items < event_log_cap
    → l.seq + 1 < 2 ^ 64
    → append l e ≡ record { seq = l.seq + 1; items = l.items ++ record e { seq = l.seq + 1 } ∷ [] }
unfolding append
append-room l e room small =
    let same : (l.seq + 1) % 2 ^ 64 ≡ l.seq + 1 = omega arith in
    rw (leb-false event_log_cap (length l.items) room) (rw same refl)

pub append-full :
    (l : EventLog) (e : Event)
    → event_log_cap ≤ length l.items
    → l.seq + 1 < 2 ^ 64
    → append l e
      ≡ record { seq = l.seq + 1; items = drop 1 l.items ++ record e { seq = l.seq + 1 } ∷ [] }
unfolding append
append-full l e full small =
    let same : (l.seq + 1) % 2 ^ 64 ≡ l.seq + 1 = omega arith in
    rw (leb-true event_log_cap (length l.items) full) (
      rw (shift_in-drop l.items (record e { seq = (l.seq + 1) % 2 ^ 64 }) (ne l.items full))
        (rw same refl))
  where
    ne : (es : List Event) → event_log_cap ≤ length es → es ≢ []
    ne [] h p = omega arith
    ne (x ∷ es) h p = cc

IsRing-items :
    (l : EventLog) (items : List Event) (e : Event) (first : ℕ)
    → IsRun first items
    → first + length items ≡ suc l.seq
    → length items < event_log_cap
    → IsRing (record { seq = l.seq + 1; items = items ++ record e { seq = l.seq + 1 } ∷ [] })
IsRing-items l items e first run up room = record {
  first = first;
  bounded = omega (arith, length-append items (record e { seq = l.seq + 1 } ∷ []));
  run = IsRun-concat items first _ run (omega arith);
  up_to = omega (arith, length-append items (record e { seq = l.seq + 1 } ∷ []));
}

-- Until the counter wraps round, after 2^64 events, an append keeps the history a ring.
append-IsRing : (l : EventLog) (e : Event) → IsRing l → l.seq + 1 < 2 ^ 64 → IsRing (append l e)
append-IsRing l e r small = elim (dec_le event_log_cap (length l.items)) [
  | yes full ↦ subst IsRing (sym (append-full l e full small)) (
      IsRing-items l (drop 1 l.items) e (suc r.first) (IsRun-drop l.items r.first r.run)
        (omega (arith, length-drop_one l.items, r.up_to, r.bounded, full))
        (omega (arith, length-drop_one l.items, r.bounded, full)))
  | no room ↦
      subst IsRing (sym (append-room l e (omega arith) small))
        (IsRing-items l l.items e r.first r.run r.up_to (omega arith))
]

pub seq-append : (l : EventLog) (e : Event) → l.seq + 1 < 2 ^ 64 → (append l e).seq ≡ l.seq + 1
unfolding append
seq-append l e small = ground arith

-- Whatever is appended, up to 2^64 events in all, the history holds the last events, at most 200 of
-- them, with consecutive sequence numbers up to the number of events.
append_all-IsRing :
    (l : EventLog) (es : List Event)
    → IsRing l
    → l.seq + length es < 2 ^ 64
    → IsRing (append_all l es) × ((append_all l es).seq ≡ l.seq + length es)
unfolding append_all
append_all-IsRing l [] r small = (r, omega arith)
append_all-IsRing l (e ∷ es) r small =
    let s = seq-append l e (omega arith) in
    let (ring, up) =
      append_all-IsRing (append l e) es (append-IsRing l e r (omega arith)) (omega (arith, s)) in
    (ring, omega (arith, up, s))

new_event_log-IsRing : IsRing new_event_log
new_event_log-IsRing = record { first = 1; bounded = omega arith; run = tt; up_to = omega arith }
