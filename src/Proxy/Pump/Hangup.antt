-- ===== src/Proxy/Pump/Hangup.antt =====
-- What a client that hangs up has been sent of a stream.
use newapi_box.Prelude.{
  ◌≢◌, ℕ, zero, suc, ◌≡◌, inl, inr, refl, sym, ap, ◌∙◌, subst, Bool, true, false, if◌then◌else◌,
  List, [], ◌∷◌, ◌++◌, is_empty, Option, none, some, append_assoc, append-nil, Bool-cases,
}
use newapi_box.Text.{Text, codes}
use newapi_box.Protocol.Sse
use newapi_box.Protocol.Sse.{write_data, write_named, write_event}
use newapi_box.Protocol.Sse.RoundTrip.{write_events}
use newapi_box.Protocol.Stream.{encode_stream_event}
use newapi_box.Proxy.Session.{Session}
use newapi_box.Proxy.Pump.{
  Wire, write_to, write_string, event_strings, write_strings, write_frames, StreamHost,
  frames_or_none, emit,
}
use newapi_box.Proxy.Pump.Relay.{write_events-append, frames}

-- A write of a text to a wire has written all of it, or it has failed with a part written, which
-- does not happen where the wire takes all writes.
pub data Wrote (w : Wire) (full : Text) : Wire × Bool → Type 0 where
  all :
      {v : Wire}
      → v.sent ≡ w.sent ++ full
      → (w.room ≡ none → v.room ≡ none)
      → Wrote w full (v, true)
  part :
      {v : Wire} (rest : Text)
      → v.sent ++ rest ≡ w.sent ++ full
      → w.room ≢ none
      → Wrote w full (v, false)

write_to-Wrote :
    (room : Option ℕ) (w : Wire) (t : Text) → w.room ≡ room → Wrote w t (write_to room w t)
unfolding write_to
write_to-Wrote none w t is = all refl (λ e. e)
write_to-Wrote (some zero) w t is = part t refl (λ e. cc (sym is ∙ e))
write_to-Wrote (some (suc n)) w t is = all refl (λ e. cc (sym is ∙ e))

write_string-Wrote : (w : Wire) (t : Text) → Wrote w t (write_string w t)
unfolding write_string
write_string-Wrote w t = write_to-Wrote w.room w t refl

Wrote-nil : (w : Wire) → Wrote w [] (w, true)
Wrote-nil w = all (sym (append-nil w.sent)) (λ e. e)

-- What is written behind a text is written behind both.
Wrote-behind :
    (w v : Wire) (s t : Text) (x : Wire × Bool)
    → v.sent ≡ w.sent ++ s
    → (w.room ≡ none → v.room ≡ none)
    → Wrote v t x
    → Wrote w (s ++ t) x
Wrote-behind w v s t (u, true) e k (all h l) =
    all (h ∙ ap (λ x. x ++ t) e ∙ append_assoc w.sent s t) (λ o. l (k o))
Wrote-behind w v s t (u, false) e k (part rest h l) =
    part rest (h ∙ ap (λ x. x ++ t) e ∙ append_assoc w.sent s t) (λ o. l (k o))

-- One write and, where it succeeds, the next.
Wrote-then :
    (w : Wire) (s t : Text) (x : Wire × Bool) (next : Wire → Wire × Bool)
    → Wrote w s x
    → ((v : Wire) → Wrote v t (next v))
    → Wrote w (s ++ t) (let y = next x.0 in if x.1 then y else (x.0, false))
Wrote-then w s t (v, true) next (all e k) h = Wrote-behind w v s t (next v) e k (h v)
Wrote-then w s t (v, false) next (part rest e k) h =
    part (rest ++ t)
      (sym (append_assoc v.sent rest t) ∙ ap (λ u. u ++ t) e ∙ append_assoc w.sent s t) k

-- The texts one behind the other.
joined : List Text → Text
joined [] = []
joined (t ∷ ts) = t ++ joined ts

write_strings-Wrote : (w : Wire) (ts : List Text) → Wrote w (joined ts) (write_strings w ts)
unfolding write_strings joined
write_strings-Wrote w [] = Wrote-nil w
write_strings-Wrote w (t ∷ ts) =
    Wrote-then w t (joined ts) (write_string w t) (λ v. write_strings v ts) (write_string-Wrote w t)
      (λ v. write_strings-Wrote v ts)

joined-event_strings : (e : Sse.Event) → joined (event_strings e) ≡ write_event e
unfolding joined event_strings write_event write_named
joined-event_strings e = elim (Bool-cases (is_empty e.name)) [
  | inl unnamed ↦ rw unnamed (append-nil (write_data e.body))
  | inr named ↦ rw named (
      ap (λ x. (codes "event: " ++ (e.name ++ codes "\n")) ++ x) (append-nil (write_data e.body))
      ∙ ap (λ x. codes "event: " ++ x) (append_assoc e.name (codes "\n") (write_data e.body)))
]

write_frames-Wrote :
    (w : Wire) (es : List Sse.Event) → Wrote w (write_events es) (write_frames w es)
unfolding write_frames write_events
write_frames-Wrote w [] = Wrote-nil w
write_frames-Wrote w (e ∷ es) =
    Wrote-then w (write_event e) (write_events es) (write_strings w (event_strings e))
      (λ v. write_frames v es)
      (subst (λ t. Wrote w t (write_strings w (event_strings e))) (joined-event_strings e)
        (write_strings-Wrote w (event_strings e)))
      (λ v. write_frames-Wrote v es)

module _ {ℓ} {V S : Type ℓ} (host : StreamHost V S) (s : Session) where
  pub emit-Wrote :
      (w : Wire) (rs : List (Option V))
      → Wrote w (write_events (frames host s rs)) (emit host s w rs)
  unfolding emit frames write_events
  emit-Wrote w [] = Wrote-nil w
  emit-Wrote w (r ∷ rs) =
      let es = frames_or_none host s (encode_stream_event host.marshal host.dto s.client r) in
      subst (λ t. Wrote w t (emit host s w (r ∷ rs)))
        (sym (write_events-append es (frames host s rs)))
        (Wrote-then w (write_events es) (write_events (frames host s rs)) (write_frames w es)
          (λ v. emit host s v rs) (write_frames-Wrote w es) (λ v. emit-Wrote v rs))
