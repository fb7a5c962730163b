-- ===== src/Admin/Routes/Following.antt =====
-- A console that follows the history: it polls in turn, each time with the number that the last poll
-- gave, and between two polls some events come.
use newapi_box.Prelude.{
  ℕ, ◌+◌, ◌^◌, ◌≤◌, ◌<◌, ◌≡◌, refl, sym, ap, ap₂, ◌∙◌, List, [], ◌∷◌, ◌++◌, some, arith, length,
  length-append, All,
}
use newapi_box.Proxy.Events.{event_log_cap, Event, EventLog, append_all}
use newapi_box.Proxy.Events.Poll.{stamped}
use newapi_box.Proxy.Events.History.{Refines, append_all-Refines, since-Refines}
use newapi_box.Admin.Routes.{get_events}
use newapi_box.Admin.Routes.Polls.{recent-all}

-- All batches of events, one behind the other.
abbrev pub all_of : List (List Event) → List Event
all_of [] = []
all_of (b ∷ bs) = b ++ all_of bs

-- What the polls show in turn: one behind each batch.
unfoldable pub follow : EventLog → ℕ → List (List Event) → List Event
unfolding append_all get_events
follow l n [] = []
follow l n (b ∷ bs) =
    let next = append_all l b in
    let x = get_events (some next) (some next) n in x.0 ++ follow next x.1 bs

stamped-append :
    (n : ℕ) (xs ys : List Event) → stamped n (xs ++ ys) ≡ stamped n xs ++ stamped (n + length xs) ys
stamped-append n [] ys = ap (λ k. stamped k ys) (omega arith)
stamped-append n (x ∷ xs) ys =
    ap (◌∷◌ (record x { seq = n + 1 }))
      (stamped-append (n + 1) xs ys ∙ ap (λ k. stamped (n + 1) xs ++ stamped k ys) (omega arith))

-- One poll behind at most 200 events that the console does not know: it is shown them all, and asks
-- the next time with the number of the last one.
poll-Refines :
    (h b : List Event) (l : EventLog)
    → Refines (h ++ b) l
    → length b ≤ event_log_cap
    → let x = get_events (some l) (some l) (length h) in
      (x.0 ≡ stamped (length h) b) × (x.1 ≡ length (h ++ b))
unfolding get_events
poll-Refines h b l r short =
    let told = since-Refines (h ++ b) l (length h) r in (told.0 ∙ recent-all h b short, told.1)

follow-Refines :
    (h : List Event) (l : EventLog) (n : ℕ) (bs : List (List Event))
    → Refines h l
    → n ≡ length h
    → All (λ b. length b ≤ event_log_cap) bs
    → length h + length (all_of bs) < 2 ^ 64
    → follow l n bs ≡ stamped (length h) (all_of bs)
unfolding follow
follow-Refines h l n [] r at short small = refl
follow-Refines h l n (b ∷ bs) r at short small =
    let next = append_all l b in
    let grown : Refines (h ++ b) next =
      append_all-Refines b h l r (omega (arith, length-append b (all_of bs))) in
    let polled = poll-Refines h b next grown short.0 in
    ap
      (λ k.
        (get_events (some next) (some next) k).0
        ++ follow next (get_events (some next) (some next) k).1 bs)
      at
    ∙ ap₂ (λ x y. x ++ y) polled.0
        (follow-Refines (h ++ b) next _ bs grown polled.1 short.1
            (omega (arith, length-append b (all_of bs), length-append h b))
          ∙ ap (λ k. stamped k (all_of bs)) (length-append h b))
    ∙ sym (stamped-append (length h) b (all_of bs))

-- A console that polls behind every batch of at most 200 events, with no event between the two reads
-- of a poll, is shown each event that comes once, in the order in which they come and with its
-- number, as long as there are fewer than 2^64.
pub follow_all :
    (h : List Event) (l : EventLog) (bs : List (List Event))
    → Refines h l
    → All (λ b. length b ≤ event_log_cap) bs
    → length h + length (all_of bs) < 2 ^ 64
    → follow l (length h) bs ≡ stamped (length h) (all_of bs)
follow_all h l bs r short small = follow-Refines h l (length h) bs r refl short small
