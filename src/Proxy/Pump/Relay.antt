-- ===== src/Proxy/Pump/Relay.antt =====
-- What a client is sent of a stream, as a relation between the upstream's events and the client's.
use newapi_box.Prelude.{
  ℕ, zero, suc, ◌≡◌, ◌<◌, refl, sym, ap, ◌∙◌, Bool, true, false, if◌then◌else◌, List, [], ◌∷◌, ◌++◌,
  is_empty, Option, none, some, arith, length, append_assoc, append-nil, Bool-cases, ◌⊎◌, inl, inr,
}
use newapi_box.Text.{Text, codes}
use newapi_box.Protocol.Sse
use newapi_box.Protocol.Sse.{
  Reader, NextResult, next, write_data, write_named, write_event, write_done, new_reader,
}
use newapi_box.Protocol.Sse.RoundTrip.{Delivers, stop, more, write_events}
use newapi_box.Protocol.Stream.{
  Decoded, value, nothing, done, malformed, decode_stream_event, encode_stream_event,
}
use newapi_box.Proxy.Types.{ok, err, Message, stream_failed}
use newapi_box.Proxy.Session.{Session, new_meta}
use newapi_box.Proxy.Pump.{
  Wire, write_to, write_string, event_strings, write_strings, write_frames, StreamHost,
  frames_or_none, emit, Pump, Outcome, broke, after_emit, after_convert, after_decode, after_next,
  pump,
}
use newapi_box.Proxy.Pump.Total.{next-lt}

-- The side of a client that stays.
abbrev pub open_wire : Text → Wire
open_wire t = record { sent = t; room = none }

pub write_events-append :
    (es fs : List Sse.Event) → write_events (es ++ fs) ≡ write_events es ++ write_events fs
unfolding write_events
write_events-append [] fs = refl
write_events-append (e ∷ es) fs =
    ap (λ t. write_event e ++ t) (write_events-append es fs)
    ∙ sym (append_assoc (write_event e) (write_events es) (write_events fs))

write_strings-open :
    (t : Text) (e : Sse.Event)
    → write_strings (open_wire t) (event_strings e) ≡ (open_wire (t ++ write_event e), true)
unfolding write_strings event_strings write_string write_to write_event write_named
write_strings-open t e = elim (Bool-cases (is_empty e.name)) [
  | inl unnamed ↦ rw unnamed refl
  | inr named ↦
      let line = codes "event: " ++ (e.name ++ codes "\n") in
      rw named (
        ap (λ x. (open_wire x, true))
          (append_assoc t line (write_data e.body)
            ∙ ap (λ x. t ++ (codes "event: " ++ x))
                (append_assoc e.name (codes "\n") (write_data e.body))))
]

write_frames-open :
    (t : Text) (es : List Sse.Event)
    → write_frames (open_wire t) es ≡ (open_wire (t ++ write_events es), true)
unfolding write_frames write_events
write_frames-open t [] = ap (λ x. (open_wire x, true)) (sym (append-nil t))
write_frames-open t (e ∷ es) =
    ap (λ (x : Wire × Bool). let rest = write_frames x.0 es in if x.1 then rest else (x.0, false))
      (write_strings-open t e)
    ∙ write_frames-open (t ++ write_event e) es
    ∙ ap (λ x. (open_wire x, true)) (append_assoc t (write_event e) (write_events es))

module _ {ℓ} {V S : Type ℓ} (host : StreamHost V S) (s : Session) where
  -- The events of the client's protocol for the results of a conversion.
  unfoldable pub frames : List (Option V) → List Sse.Event
  unfolding frames_or_none
  frames [] = []
  frames (r ∷ rs) =
      frames_or_none host s (encode_stream_event host.marshal host.dto s.client r) ++ frames rs

  pub emit-open :
      (t : Text) (rs : List (Option V))
      → emit host s (open_wire t) rs ≡ (open_wire (t ++ write_events (frames rs)), true)
  unfolding emit frames write_events
  emit-open t [] = ap (λ x. (open_wire x, true)) (sym (append-nil t))
  emit-open t (r ∷ rs) =
      let es = frames_or_none host s (encode_stream_event host.marshal host.dto s.client r) in
      ap (λ (x : Wire × Bool). let rest = emit host s x.0 rs in if x.1 then rest else (x.0, false))
        (write_frames-open t es)
      ∙ emit-open (t ++ write_events es) rs
      ∙ ap (λ x. (open_wire x, true))
          (append_assoc t (write_events es) (write_events (frames rs))
            ∙ ap (λ x. t ++ x) (sym (write_events-append es (frames rs))))

  abbrev pub decode : Sse.Event → Decoded V
  decode e = decode_stream_event host.unmarshal s.upstream e

  -- What the upstream's events come to, from a state of the kernel on: the client's events, the state
  -- behind them, and the error that broke the stream off. An event that is empty or does not decode
  -- is passed over, the sentinel ends the stream, and so does a conversion that fails.
  pub data Relays : S → List Sse.Event → List Sse.Event → S → Option Message → Type ℓ where
    over : {a : S} → Relays a [] [] a none
    skipped :
        {a b : S} {e : Sse.Event} {es out : List Sse.Event} {m : Option Message}
        → (decode e ≡ nothing) ⊎ (decode e ≡ malformed)
        → Relays a es out b m
        → Relays a (e ∷ es) out b m
    ended :
        {a : S} {e : Sse.Event} {es : List Sse.Event}
        → decode e ≡ done
        → Relays a (e ∷ es) [] a none
    converted :
        {a b c : S} {e : Sse.Event} {es out : List Sse.Event} {m : Option Message} {v : V}
        {rs : List (Option V)}
        → decode e ≡ value v
        → host.convert (new_meta s) a v ≡ (ok rs, b)
        → Relays b es out c m
        → Relays a (e ∷ es) (frames rs ++ out) c m
    broken :
        {a b : S} {e : Sse.Event} {es : List Sse.Event} {v : V} {t : Text}
        → decode e ≡ value v
        → host.convert (new_meta s) a v ≡ (err t, b)
        → Relays a (e ∷ es) [] b (some (stream_failed t))

  abbrev at : S → Text → Option Message → Pump S
  at a t m = record { state = a; wire = open_wire t; error = m }

  after_next-finished :
      (p : Pump S) (go : Reader → Pump S → Outcome S) (x : NextResult × Reader)
      → x.0 ≡ Sse.NextResult.finished
      → after_next host s p go x ≡ broke p
  unfolding after_next
  after_next-finished p go (Sse.NextResult.finished, r) h = refl
  after_next-finished p go (Sse.NextResult.failed, r) h = cc h
  after_next-finished p go (Sse.NextResult.event e, r) h = cc h

  -- A round that reads an event.
  pump-event :
      (fuel : ℕ) (r q : Reader) (e : Sse.Event) (p : Pump S)
      → next r ≡ (Sse.NextResult.event e, q)
      → pump host s (suc fuel) r p ≡ after_decode host s p (pump host s fuel q) (decode e)
  unfolding pump after_next
  pump-event fuel r q e p h = ap (after_next host s p (λ x p'. pump host s fuel x p')) h

  pump-end :
      (fuel : ℕ) (r : Reader) (p : Pump S)
      → (next r).0 ≡ Sse.NextResult.finished
      → pump host s (suc fuel) r p ≡ broke p
  unfolding pump
  pump-end fuel r p h = after_next-finished p (λ x p'. pump host s fuel x p') (next r) h

  broke-at : {a : S} {t u : Text} {m : Option Message} → t ≡ u → broke (at a t m) ≡ broke (at a u m)
  broke-at {a} {m = m} e = ap (λ x. broke (at a x m)) e

  after_convert-open :
      (t : Text) (go : Pump S → Outcome S) (rs : List (Option V)) (a b : S)
      → after_convert host s (at a t none) go (ok rs, b)
        ≡ go (at b (t ++ write_events (frames rs)) none)
  unfolding after_convert after_emit
  after_convert-open t go rs a b = ap (after_emit host s (at b t none) go) (emit-open t rs)

  after_decode-skipped :
      (p : Pump S) (go : Pump S → Outcome S) {d : Decoded V}
      → (d ≡ nothing) ⊎ (d ≡ malformed)
      → after_decode host s p go d ≡ go p
  unfolding after_decode
  after_decode-skipped p go (inl e) = ap (after_decode host s p go) e
  after_decode-skipped p go (inr e) = ap (after_decode host s p go) e

  pub pump-Relays :
      (fuel : ℕ) (r : Reader) {es out : List Sse.Event} {a b : S} {m : Option Message} (t : Text)
      → length r.lines < fuel
      → Delivers Sse.NextResult.finished r es
      → Relays a es out b m
      → pump host s fuel r (at a t none) ≡ broke (at b (t ++ write_events out) m)
  unfolding write_events after_decode after_convert
  pump-Relays zero r t lt d rel = absurd (omega arith)
  pump-Relays (suc fuel) r t lt (stop h) over = pump-end fuel r _ h ∙ broke-at (sym (append-nil t))
  pump-Relays (suc fuel) r {a = a} t lt (more {q = q} h d) (skipped e rel) =
      pump-event fuel r q _ _ h
      ∙ after_decode-skipped (at a t none) (pump host s fuel q) e
      ∙ pump-Relays fuel q t (omega (arith, next-lt r _ _ h)) d rel
  pump-Relays (suc fuel) r {a = a} t lt (more {q = q} h d) (ended e) =
      pump-event fuel r q _ _ h
      ∙ ap (after_decode host s (at a t none) (pump host s fuel q)) e
      ∙ broke-at (sym (append-nil t))
  pump-Relays (suc fuel) r {a = a} t lt (more {q = q} h d)
        (converted {b = b} {out = out} {rs = rs} e c rel) =
      pump-event fuel r q _ _ h
      ∙ ap (after_decode host s (at a t none) (pump host s fuel q)) e
      ∙ ap (after_convert host s (at a t none) (pump host s fuel q)) c
      ∙ after_convert-open t (pump host s fuel q) rs a b
      ∙ pump-Relays fuel q (t ++ write_events (frames rs)) (omega (arith, next-lt r _ _ h)) d rel
      ∙ broke-at (
          append_assoc t (write_events (frames rs)) (write_events out)
          ∙ ap (λ x. t ++ x) (sym (write_events-append (frames rs) out)))
  pump-Relays (suc fuel) r {a = a} t lt (more {q = q} h d) (broken e c) =
      pump-event fuel r q _ _ h
      ∙ ap (after_decode host s (at a t none) (pump host s fuel q)) e
      ∙ ap (after_convert host s (at a t none) (pump host s fuel q)) c
      ∙ broke-at (sym (append-nil t))
