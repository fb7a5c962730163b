-- ===== src/Proxy/Pump/Prefix.antt =====
-- What the loop sends, on a wire whose writes may fail from any one on.
use newapi_box.Prelude.{
  ℕ, zero, suc, ◌≡◌, ◌≢◌, ◌<◌, refl, sym, ap, ◌∙◌, Bool, true, false, List, [], ◌++◌, Option, none,
  some, arith, length, append_assoc, append-nil,
}
use newapi_box.Text.{Text}
use newapi_box.Protocol.Sse
use newapi_box.Protocol.Sse.{Reader, NextResult, next}
use newapi_box.Protocol.Sse.RoundTrip.{write_events}
use newapi_box.Protocol.Stream.{Decoded, value, nothing, done, malformed, decode_stream_event}
use newapi_box.Proxy.Types.{Result, ok, err, Message, stream_failed, stream_not_read}
use newapi_box.Proxy.Session.{Session, new_meta}
use newapi_box.Proxy.Pump.{
  Wire, StreamHost, emit, Pump, Outcome, broke, hung_up, after_emit, after_convert, after_decode,
  after_next, pump,
}
use newapi_box.Proxy.Pump.Total.{next-lt}
use newapi_box.Proxy.Pump.Relay.{frames}
use newapi_box.Proxy.Pump.Hangup.{Wrote, all, part, emit-Wrote}

module _ {ℓ} {V S : Type ℓ} (host : StreamHost V S) (s : Session) where
  -- The loop has sent a text behind what the wire had and has come to a state and an error, or a
  -- write has failed and a part was sent.
  pub data Ends (w : Wire) (full : Text) (b : S) (m : Option Message) : Outcome S → Type ℓ where
    whole :
        {v : Wire}
        → v.sent ≡ w.sent ++ full
        → (w.room ≡ none → v.room ≡ none)
        → Ends w full b m (broke (record { state = b; wire = v; error = m }))
    gone :
        {p : Pump S} (rest : Text)
        → p.wire.sent ++ rest ≡ w.sent ++ full
        → w.room ≢ none
        → Ends w full b m (hung_up p)

  abbrev pub with_wire : S → Wire → Pump S
  with_wire a w = record { state = a; wire = w; error = none }

  Ends-behind :
      (w v : Wire) (f g : Text) {b : S} {m : Option Message} (o : Outcome S)
      → v.sent ≡ w.sent ++ f
      → (w.room ≡ none → v.room ≡ none)
      → Ends v g b m o
      → Ends w (f ++ g) b m o
  Ends-behind w v f g _ e k (whole h l) =
      whole (h ∙ ap (λ x. x ++ g) e ∙ append_assoc w.sent f g) (λ o. l (k o))
  Ends-behind w v f g _ e k (gone rest h l) =
      gone rest (h ∙ ap (λ x. x ++ g) e ∙ append_assoc w.sent f g) (λ o. l (k o))

  after_emit-Ends :
      (w : Wire) (f g : Text) (a : S) {b : S} {m : Option Message} (go : Pump S → Outcome S)
      (x : Wire × Bool)
      → Wrote w f x
      → ((v : Wire) → Ends v g b m (go (with_wire a v)))
      → Ends w (f ++ g) b m (after_emit host s (with_wire a w) go x)
  unfolding after_emit
  after_emit-Ends w f g a go (v, true) (all e k) h =
      Ends-behind w v f g (go (with_wire a v)) e k (h v)
  after_emit-Ends w f g a go (v, false) (part rest e k) h =
      gone (rest ++ g)
        (sym (append_assoc v.sent rest g) ∙ ap (λ u. u ++ g) e ∙ append_assoc w.sent f g) k

  Ends-nil :
      (w : Wire) (b : S) (m : Option Message)
      → Ends w [] b m (broke (record { state = b; wire = w; error = m }))
  Ends-nil w b m = whole (sym (append-nil w.sent)) (λ e. e)

  -- What a part of the loop sends, the state that it comes to and its error are the same on all
  -- wires.
  abbrev pub Sends : (Wire → Outcome S) → Type ℓ
  Sends run = (f : Text) × (b : S) × (m : Option Message) × ((w : Wire) → Ends w f b m (run w))

  after_convert-Sends :
      (a : S) (go : Pump S → Outcome S) (x : Result (List (Option V)) × S)
      → ((b : S) → Sends (λ w. go (with_wire b w)))
      → Sends (λ w. after_convert host s (with_wire a w) go x)
  unfolding after_convert
  after_convert-Sends a go (err t, b) h =
      ([], b, some (stream_failed t), λ w. Ends-nil w b (some (stream_failed t)))
  after_convert-Sends a go (ok rs, b) h =
      let (f, c, m, k) = h b in
      (
        write_events (frames host s rs) ++ f,
        c,
        m,
        λ w.
            after_emit-Ends w (write_events (frames host s rs)) f b go (emit host s w rs)
              (emit-Wrote host s w rs) k,
      )

  after_decode-Sends :
      (a : S) (go : Pump S → Outcome S) (d : Decoded V)
      → ((b : S) → Sends (λ w. go (with_wire b w)))
      → Sends (λ w. after_decode host s (with_wire a w) go d)
  unfolding after_decode
  after_decode-Sends a go malformed h = h a
  after_decode-Sends a go nothing h = h a
  after_decode-Sends a go done h = ([], a, none, λ w. Ends-nil w a none)
  after_decode-Sends a go (value v) h = after_convert-Sends a go (host.convert (new_meta s) a v) h

  after_next-Sends :
      (a : S) (go : Reader → Pump S → Outcome S) (x : NextResult × Reader)
      → ((e : Sse.Event) (q : Reader)
          → x ≡ (Sse.NextResult.event e, q)
          → (b : S) → Sends (λ w. go q (with_wire b w)))
      → Sends (λ w. after_next host s (with_wire a w) go x)
  unfolding after_next
  after_next-Sends a go (Sse.NextResult.finished, r) h = ([], a, none, λ w. Ends-nil w a none)
  after_next-Sends a go (Sse.NextResult.failed, r) h =
      ([], a, some stream_not_read, λ w. Ends-nil w a (some stream_not_read))
  after_next-Sends a go (Sse.NextResult.event e, r) h =
      after_decode-Sends a (go r) (decode_stream_event host.unmarshal s.upstream e) (h e r refl)

  -- The loop on any wire, whatever the reader holds.
  pub pump-Sends :
      (fuel : ℕ) (r : Reader) (a : S)
      → length r.lines < fuel
      → Sends (λ w. pump host s fuel r (with_wire a w))
  unfolding pump
  pump-Sends zero r a lt = absurd (omega arith)
  pump-Sends (suc fuel) r a lt =
      after_next-Sends a (λ q p. pump host s fuel q p) (next r)
        (λ e q x b. pump-Sends fuel q b (omega (arith, next-lt r e q x)))
