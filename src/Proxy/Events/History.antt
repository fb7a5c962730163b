-- ===== src/Proxy/Events/History.antt =====
-- The ring against the history that it stands for: all the events since the start, in order.
use newapi_box.Prelude.{
  ℕ, zero, suc, ◌+◌, ◌-◌, ◌^◌, ◌≤◌, ◌<◌, ◌≡◌, refl, sym, ap, ◌∙◌, subst, List, [], ◌∷◌, ◌++◌, some,
  arith, length, drop, length-append, length-drop, drop-drop, drop-append, drop-nil, append-nil,
  append_assoc,
}
use native.Mathlib.Decide.{dec_lt}
use newapi_box.Proxy.Events.{
  event_log_cap, Event, EventLog, new_event_log, append, append_all, newer, since, latest_seq,
}
use newapi_box.Proxy.Events.Ring.{append-room, append-full}
use newapi_box.Proxy.Events.Poll.{stamped, length-stamped, newer-stamped}

-- The history as the log numbers it, from 1.
abbrev numbered : List Event → List Event
numbered h = stamped 0 h

-- The number of events that the log has let go.
abbrev pub forgotten : List Event → ℕ
forgotten h = length h - event_log_cap

-- What a reader who knows the events up to number `n` is told: those behind `n`, but for what is
-- forgotten.
abbrev pub recent : List Event → ℕ → List Event
recent h n = drop (n - forgotten h) (drop (forgotten h) (stamped 0 h))

-- The log stands for a history.
pub record Refines (h : List Event) (l : EventLog) : Type 0 where
  pub counted : l.seq ≡ length h
  pub kept : l.items ≡ drop (forgotten h) (stamped 0 h)

stamped-concat :
    (n : ℕ) (h : List Event) (e : Event)
    → stamped n (h ++ e ∷ []) ≡ stamped n h ++ record e { seq = n + length h + 1 } ∷ []
stamped-concat n [] e = ap (λ k. record e { seq = k + 1 } ∷ []) (omega arith)
stamped-concat n (x ∷ h) e = ap (◌∷◌ (record x { seq = n + 1 })) (
    stamped-concat (n + 1) h e
    ∙ ap (λ k. stamped (n + 1) h ++ record e { seq = k + 1 } ∷ []) (omega arith))

pub drop-stamped : (d n : ℕ) (h : List Event) → drop d (stamped n h) ≡ stamped (n + d) (drop d h)
drop-stamped zero n h = ap (λ k. stamped k h) (omega arith)
drop-stamped (suc d) n [] = refl
drop-stamped (suc d) n (e ∷ h) =
    drop-stamped d (n + 1) h ∙ ap (λ k. stamped k (drop d h)) (omega arith)

newer-skipped :
    (q n : ℕ) (e : Event) (h : List Event)
    → n < q
    → newer (stamped n (e ∷ h)) q ≡ newer (stamped (n + 1) h) q
unfolding newer
newer-skipped q n e h beyond = ground arith

newer-stamped-drop : (q n : ℕ) (h : List Event) → newer (stamped n h) q ≡ drop (q - n) (stamped n h)
unfolding newer
newer-stamped-drop q n [] = sym (drop-nil (q - n))
newer-stamped-drop q n (e ∷ h) = elim (dec_lt n q) [
  | yes beyond ↦
      let k : q - n ≡ suc (q - (n + 1)) = omega arith in
      newer-skipped q n e h beyond
      ∙ newer-stamped-drop q (n + 1) h
      ∙ sym (ap (λ i. drop i (stamped n (e ∷ h))) k)
  | no upto ↦
      let k : q - n ≡ 0 = omega arith in
      newer-stamped q n (e ∷ h) (omega arith) ∙ sym (ap (λ i. drop i (stamped n (e ∷ h))) k)
]

module _ (h : List Event) (l : EventLog) (e : Event) (r : Refines h l) where
  length-kept : length l.items ≡ length h - forgotten h
  length-kept =
      ap length r.kept
      ∙ length-drop (forgotten h) (stamped 0 h)
      ∙ ap (λ k. k - forgotten h) (length-stamped 0 h)

  numbered-concat : numbered (h ++ e ∷ []) ≡ numbered h ++ record e { seq = l.seq + 1 } ∷ []
  numbered-concat =
      stamped-concat 0 h e
      ∙ ap (λ k. stamped 0 h ++ record e { seq = k + 1 } ∷ []) (omega (arith, r.counted))

  length-concat : length (h ++ e ∷ []) ≡ length h + 1
  length-concat = omega (arith, length-append h (e ∷ []))

  items-room :
      length l.items < event_log_cap
      → l.items ++ record e { seq = l.seq + 1 } ∷ []
        ≡ drop (forgotten (h ++ e ∷ [])) (numbered (h ++ e ∷ []))
  items-room room =
      let none_yet : forgotten h ≡ 0 = omega (arith, length-kept) in
      let none_then : forgotten (h ++ e ∷ []) ≡ 0 = omega (arith, length-kept, length-concat) in
      ap (λ t. t ++ record e { seq = l.seq + 1 } ∷ [])
        (r.kept ∙ ap (λ k. drop k (numbered h)) none_yet)
      ∙ sym numbered-concat
      ∙ sym (ap (λ k. drop k (numbered (h ++ e ∷ []))) none_then)

  items-full :
      event_log_cap ≤ length l.items
      → drop 1 l.items ++ record e { seq = l.seq + 1 } ∷ []
        ≡ drop (forgotten (h ++ e ∷ [])) (numbered (h ++ e ∷ []))
  items-full full =
      let one_more : forgotten h + 1 ≡ forgotten (h ++ e ∷ []) =
        omega (arith, length-kept, length-concat) in
      ap (λ t. drop 1 t ++ record e { seq = l.seq + 1 } ∷ []) r.kept
      ∙ ap (λ t. t ++ record e { seq = l.seq + 1 } ∷ []) (drop-drop 1 (forgotten h) (numbered h))
      ∙ sym (
          drop-append (forgotten h + 1) (numbered h) _
            (omega (arith, length-kept, length-stamped 0 h)))
      ∙ ap (drop (forgotten h + 1)) (sym numbered-concat)
      ∙ ap (λ k. drop k (numbered (h ++ e ∷ []))) one_more

  pub append-Refines : l.seq + 1 < 2 ^ 64 → Refines (h ++ e ∷ []) (append l e)
  append-Refines small = elim (dec_lt (length l.items) event_log_cap) [
    | yes room ↦
        subst (Refines (h ++ e ∷ [])) (sym (append-room l e room small))
          (record { counted = omega (arith, r.counted, length-concat); kept = items-room room })
    | no full ↦ subst (Refines (h ++ e ∷ [])) (sym (append-full l e (omega arith) small)) (record {
      counted = omega (arith, r.counted, length-concat);
      kept = items-full (omega arith);
    })
  ]

-- Until the counter wraps, appending to a log that stands for a history appends to the history.
pub append_all-Refines :
    (es h : List Event) (l : EventLog)
    → Refines h l
    → length h + length es < 2 ^ 64
    → Refines (h ++ es) (append_all l es)
unfolding append_all
append_all-Refines [] h l r small = rw append-nil r
append_all-Refines (e ∷ es) h l r small =
    subst (λ t. Refines t (append_all (append l e) es)) (append_assoc h (e ∷ []) es)
      (append_all-Refines es (h ++ e ∷ []) (append l e)
        (append-Refines h l e r (omega (arith, r.counted)))
        (omega (arith, length-append h (e ∷ []))))

-- A log that stands for a history answers a reader, whatever number the reader gives, with the
-- events behind that number, in order and with their numbers, except those beyond the last 200; and
-- the log's own number is the number of events.
pub since-Refines :
    (h : List Event) (l : EventLog) (n : ℕ)
    → Refines h l
    → (since (some l) n ≡ recent h n) × (latest_seq (some l) ≡ length h)
unfolding since latest_seq
since-Refines h l n r = (
  ap (λ t. newer t n) (r.kept ∙ drop-stamped (forgotten h) 0 h)
      ∙ newer-stamped-drop n (0 + forgotten h) (drop (forgotten h) h)
      ∙ ap (drop (n - (0 + forgotten h))) (sym (drop-stamped (forgotten h) 0 h))
      ∙ ap (λ k. drop (n - k) (drop (forgotten h) (stamped 0 h))) (omega arith),
  r.counted,
)

pub new_event_log-Refines : Refines [] new_event_log
new_event_log-Refines = record { counted = refl; kept = sym (drop-nil (forgotten [])) }

-- After any sequence of fewer than 2^64 events the log stands for that sequence: it numbers the
-- events from 1 and holds the last 200 of them.
pub append_all-history :
    (es : List Event) → length es < 2 ^ 64 → Refines es (append_all new_event_log es)
append_all-history es small =
    append_all-Refines es [] new_event_log new_event_log-Refines (omega arith)
