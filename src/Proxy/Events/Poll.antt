-- ===== src/Proxy/Events/Poll.antt =====
-- The console polls with the number of the last event that it has.
use newapi_box.Prelude.{
  ℕ, suc, ◌+◌, ◌^◌, ◌≤◌, ◌<◌, ◌≡◌, refl, ap, sym, ◌∙◌, List, [], ◌∷◌, ◌++◌, arith, length, drop,
  length-append, append_assoc, append-nil, All, some, subst,
}
use native.Mathlib.Decide.{dec_lt}
use newapi_box.Proxy.Events.{
  event_log_cap, Event, EventLog, append, append_all, newer, since, latest_seq,
}
use newapi_box.Proxy.Events.Ring.{append-room, append-full, seq-append, IsRing, IsRun}

-- The events as the log numbers them, behind the number `n`.
abbrev pub stamped : ℕ → List Event → List Event
stamped n [] = []
stamped n (e ∷ es) = record e { seq = n + 1 } ∷ stamped (n + 1) es

pub length-stamped : (n : ℕ) (es : List Event) → length (stamped n es) ≡ length es
length-stamped n [] = refl
length-stamped n (e ∷ es) = ap suc (length-stamped (n + 1) es)

-- The log ends in the events `done`, and all before them are up to `q`.
record Follows (q : ℕ) (done : List Event) (l : EventLog) : Type 0 where
  old : List Event
  split : l.items ≡ old ++ done
  old_le : All (λ e. e.seq ≤ q) old

drop_old :
    (q : ℕ) (old done : List Event)
    → All (λ e. e.seq ≤ q) old
    → event_log_cap ≤ length (old ++ done)
    → length done < event_log_cap
    → (rest : List Event) × (drop 1 (old ++ done) ≡ rest ++ done) × All (λ e. e.seq ≤ q) rest
drop_old q [] done h full room = absurd (omega arith)
drop_old q (x ∷ old) done h full room = (old, refl, h.1)

Follows-append :
    (q : ℕ) (done : List Event) (l : EventLog) (e : Event)
    → Follows q done l
    → length done < event_log_cap
    → l.seq + 1 < 2 ^ 64
    → Follows q (done ++ record e { seq = l.seq + 1 } ∷ []) (append l e)
Follows-append q done l e f short small = elim (dec_lt (length l.items) event_log_cap) [
  | yes room ↦
      subst (Follows q (done ++ record e { seq = l.seq + 1 } ∷ []))
        (sym (append-room l e room small))
        (record {
          old = f.old;
          split =
              ap (λ t. t ++ record e { seq = l.seq + 1 } ∷ []) f.split ∙ append_assoc f.old done _;
          old_le = f.old_le;
        })
  | no full ↦
      let (rest, cut, le) =
        drop_old q f.old done f.old_le (subst (λ t. event_log_cap ≤ length t) f.split (omega arith))
          short in
      subst (Follows q (done ++ record e { seq = l.seq + 1 } ∷ []))
        (sym (append-full l e (omega arith) small))
        (record {
          old = rest;
          split =
              ap (λ t. drop 1 t ++ record e { seq = l.seq + 1 } ∷ []) f.split
              ∙ ap (λ t. t ++ record e { seq = l.seq + 1 } ∷ []) cut
              ∙ append_assoc rest done _;
          old_le = le;
        })
]

Follows-append_all :
    (q : ℕ) (es done : List Event) (l : EventLog)
    → Follows q done l
    → length done + length es ≤ event_log_cap
    → l.seq + length es < 2 ^ 64
    → Follows q (done ++ stamped l.seq es) (append_all l es)
unfolding append_all
Follows-append_all q [] done l f short small = rw append-nil f
Follows-append_all q (e ∷ es) done l f short small =
    let s = seq-append l e (omega arith) in
    let f' =
      Follows-append_all q es (done ++ record e { seq = l.seq + 1 } ∷ []) (append l e)
        (Follows-append q done l e f (omega arith) (omega arith))
        (omega (arith, length-append done (record e { seq = l.seq + 1 } ∷ [])))
        (omega (arith, s)) in
    subst (λ t. Follows q t (append_all (append l e) es))
      (append_assoc done (record e { seq = l.seq + 1 } ∷ []) _
        ∙ ap (λ n. done ++ record e { seq = l.seq + 1 } ∷ stamped n es) s)
      f'

newer-old :
    (q : ℕ) (old done : List Event)
    → All (λ e. e.seq ≤ q) old
    → newer (old ++ done) q ≡ newer done q
unfolding newer
newer-old q [] done h = refl
newer-old q (e ∷ old) done h = ground (arith, newer-old q old done h.1)

pub newer-stamped : (q n : ℕ) (es : List Event) → q ≤ n → newer (stamped n es) q ≡ stamped n es
unfolding newer
newer-stamped q n [] h = refl
newer-stamped q n (e ∷ es) h = ground (arith, newer-stamped q (n + 1) es)

IsRun-le :
    (es : List Event) (first n : ℕ)
    → IsRun first es
    → first + length es ≡ suc n
    → All (λ e. e.seq ≤ n) es
IsRun-le [] first n r h = tt
IsRun-le (e ∷ es) first n r h = (omega (arith, r.0), IsRun-le es (suc first) n r.1 (omega arith))

Follows-start : (l : EventLog) → IsRing l → Follows l.seq [] l
Follows-start l r = record {
  old = l.items;
  split = sym (append-nil l.items);
  old_le = IsRun-le l.items r.first l.seq r.run r.up_to;
}

-- A console that has every event up to the log's number, and asks again when at most 200 more have
-- happened, is sent exactly those, each once and in order, with their numbers; as
-- long as the log is a ring and its 64-bit counter does not wrap.
since-append_all :
    (l : EventLog) (es : List Event)
    → IsRing l
    → length es ≤ event_log_cap
    → l.seq + length es < 2 ^ 64
    → since (some (append_all l es)) (latest_seq (some l)) ≡ stamped l.seq es
unfolding since latest_seq
since-append_all l es r short small =
    let f = Follows-append_all l.seq es [] l (Follows-start l r) (omega arith) small in
    ap (λ t. newer t l.seq) f.split
    ∙ newer-old l.seq f.old (stamped l.seq es) f.old_le
    ∙ newer-stamped l.seq l.seq es (omega arith)
