-- ===== src/Proxy/Pump/Disconnect.antt =====
-- streamResponse for a client whose writes may fail from any one on, over any body.
use newapi_box.Prelude.{
  ℕ, zero, suc, ◌≡◌, ◌⊎◌, inl, inr, refl, sym, ap, ◌∙◌, subst, Bool, true, false, List, [], ◌++◌,
  Option, none, some, arith, length, append_assoc, append-nil,
}
use newapi_box.Prelude.Int.{ℤ}
use newapi_box.Text.{Text}
use newapi_box.Config.{RelayFormat, openai, openai_responses, claude, gemini, other}
use newapi_box.Protocol.Sse.{Reader, write_event, write_done}
use newapi_box.Protocol.Sse.RoundTrip.{write_events}
use newapi_box.Proxy.Types.{Result, ok, err, Message, stream_failed, client_disconnected}
use newapi_box.Proxy.Events.{Event}
use newapi_box.Proxy.Session.{Session, new_meta}
use newapi_box.Proxy.Pump.{
  Wire, write_to, write_string, StreamHost, emit, Outcome, pump, with_error, finish_stream,
  send_done, Streamed, streamed, after_final_emit, after_finalize, after_loop, with_state,
  stream_response,
}
use newapi_box.Proxy.Pump.Relay.{frames}
use newapi_box.Proxy.Pump.Delivery.{sentinel, final_frames}
use newapi_box.Proxy.Pump.Hangup.{Wrote, all, part, emit-Wrote}
use newapi_box.Proxy.Pump.Prefix.{Ends, whole, gone, with_wire, pump-Sends}

-- The history's entry says that the client hung up, or the wire has all the texts but the last.
abbrev Settled : Wire → Text → Event → Wire → Type 0
Settled w full ev v =
    (ev.error ≡ some client_disconnected) ⊎ ((u : Text) × (v.sent ≡ w.sent ++ (full ++ u)))

-- What a stream leaves on the wire: a prefix of all that there was to send, and the whole of it on a
-- wire that takes all writes.
pub record IsPrefix (w : Wire) (full last : Text) (r : Streamed) : Type 0 where
  pub event : Event
  pub wire : Wire
  pub result : r ≡ streamed event wire
  pub rest : Text
  pub prefix : wire.sent ++ rest ≡ w.sent ++ (full ++ last)
  pub settled : Settled w full event wire
  pub whole_if_open : w.room ≡ none → wire.sent ≡ w.sent ++ (full ++ last)

-- A text behind a text behind a third.
append-behind : (w f g : Text) {v x : Text} → v ≡ w ++ f → x ≡ v ++ g → x ≡ w ++ (f ++ g)
append-behind w f g h k = k ∙ ap (λ t. t ++ g) h ∙ append_assoc w f g

-- What a write leaves, of a text of which there is nothing behind it on a wire that takes all
-- writes.
abbrev Left : Wire → Text → Wire → Type 0
Left w t v =
    (u : Text) × (rest : Text) × (v.sent ≡ w.sent ++ u) × (u ++ rest ≡ t) × (w.room ≡ none → u ≡ t)

write_to-Left :
    (room : Option ℕ) (w : Wire) (t : Text) → w.room ≡ room → Left w t (write_to room w t).0
unfolding write_to
write_to-Left none w t is = (t, [], refl, append-nil t, λ e. refl)
write_to-Left (some zero) w t is = ([], t, sym (append-nil w.sent), refl, λ e. cc (sym is ∙ e))
write_to-Left (some (suc n)) w t is = (t, [], refl, append-nil t, λ e. refl)

module _ {ℓ} {V S : Type ℓ} (host : StreamHost V S) (latency : ℤ) (s : Session) where
  send_done-Left :
      (f : RelayFormat) (w : Wire)
      → Left w (write_events (sentinel f)) (send_done host latency s f w)
  unfolding send_done write_string write_events write_event write_done
  send_done-Left openai w = write_to-Left w.room w write_done refl
  send_done-Left openai_responses w = ([], [], sym (append-nil w.sent), refl, λ e. refl)
  send_done-Left claude w = ([], [], sym (append-nil w.sent), refl, λ e. refl)
  send_done-Left gemini w = ([], [], sym (append-nil w.sent), refl, λ e. refl)
  send_done-Left (other x) w = ([], [], sym (append-nil w.sent), refl, λ e. refl)

  disconnected :
      (e : Event) (z : S)
      → (finish_stream host latency s e z (some client_disconnected)).error
        ≡ some client_disconnected
  unfolding finish_stream with_error
  disconnected e z = refl

  abbrev last : Text
  last = write_events (sentinel s.client)

  -- The last events and the sentinel, behind a text.
  after_final_emit-IsPrefix :
      (e : Event) (z : S) (m : Option Message) (w v : Wire) (f g : Text) (x : Wire × Bool)
      → v.sent ≡ w.sent ++ f
      → (w.room ≡ none → v.room ≡ none)
      → Wrote v g x
      → IsPrefix w (f ++ g) last (after_final_emit host latency s e z m x)
  unfolding after_final_emit
  after_final_emit-IsPrefix e z m w v f g (y, true) h o (all k l) =
      let (u, rest, sent, most, opened) = send_done-Left s.client y in
      let written : y.sent ≡ w.sent ++ (f ++ g) = append-behind w.sent f g h k in
      let to_last : (send_done host latency s s.client y).sent ++ rest ≡ y.sent ++ last =
        ap (λ t. t ++ rest) sent ∙ append_assoc y.sent u rest ∙ ap (λ t. y.sent ++ t) most in
      record {
        event = finish_stream host latency s e z m;
        wire = send_done host latency s s.client y;
        result = refl;
        rest = rest;
        prefix = append-behind w.sent (f ++ g) last written to_last;
        settled = inr (u, append-behind w.sent (f ++ g) u written sent);
        whole_if_open = λ takes.
            append-behind w.sent (f ++ g) last written
              (sent ∙ ap (λ t. y.sent ++ t) (opened (l (o takes))));
      }
  after_final_emit-IsPrefix e z m w v f g (y, false) h o (part rest k l) = record {
    event = finish_stream host latency s e z (some client_disconnected);
    wire = y;
    result = refl;
    rest = rest ++ last;
    prefix =
        append-behind w.sent (f ++ g) last (append-behind w.sent f g h k)
          (sym (append_assoc y.sent rest last));
    settled = inl (disconnected e z);
    whole_if_open = λ takes. absurd (l (o takes));
  }

  after_finalize-IsPrefix :
      (e : Event) (b : S) (m : Option Message) (w v : Wire) (f : Text)
      (x : Result (List (Option V)) × S)
      → v.sent ≡ w.sent ++ f
      → (w.room ≡ none → v.room ≡ none)
      → IsPrefix w
          (f ++ write_events (final_frames host latency s x.0))
          last
          (after_finalize host latency s e (record { state = b; wire = v; error = m }) x)
  unfolding after_finalize write_events
  after_finalize-IsPrefix e b m w v f (err t, z) h o =
      after_final_emit-IsPrefix e z (some (stream_failed t)) w v f [] (v, true) h o
        (all (sym (append-nil v.sent)) (λ k. k))
  after_finalize-IsPrefix e b m w v f (ok rs, z) h o =
      after_final_emit-IsPrefix e z m w v f (write_events (frames host s rs)) (emit host s v rs) h o
        (emit-Wrote host s v rs)

  -- What is sent behind the loop, but for the sentinel.
  abbrev final_text : S → Text
  final_text b = write_events (final_frames host latency s (host.finalize (new_meta s) b).0)

  after_loop-IsPrefix :
      (e : Event) (w : Wire) (f : Text) {b : S} {m : Option Message} (o : Outcome S)
      → Ends host s w f b m o
      → IsPrefix w (f ++ final_text b) last (after_loop host latency s e o)
  unfolding after_loop
  after_loop-IsPrefix e w f {b} {m} _ (whole {v = v} h k) =
      after_finalize-IsPrefix e b m w v f (host.finalize (new_meta s) b) h k
  after_loop-IsPrefix e w f {b} _ (gone {p = p} rest h k) =
      let more = final_text b ++ last in
      record {
        event = finish_stream host latency s e p.state (some client_disconnected);
        wire = p.wire;
        result = refl;
        rest = rest ++ more;
        prefix =
            append-behind w.sent f more h (sym (append_assoc p.wire.sent rest more))
            ∙ ap (λ t. w.sent ++ t) (sym (append_assoc f (final_text b) last));
        settled = inl (disconnected e p.state);
        whole_if_open = λ takes. absurd (k takes);
      }

  -- For every body of the upstream, also one whose read fails on the way (as it does where the
  -- request's context is cancelled), there is one text that streamResponse has to send: a client that
  -- takes all writes is sent the whole of it and the sentinel; a client whose writes fail from any
  -- one on is sent a prefix of that, and either the history says that the client disconnected, or
  -- all of it but the sentinel has been sent.
  pub stream_response-IsPrefix :
      (e : Event) (r : Reader) {a : S}
      → host.new_state s.upstream s.client s.upstream_model ≡ ok a
      → (full : Text) × ((w : Wire)
          → IsPrefix w full
              (write_events (sentinel s.client))
              (stream_response host latency s true e w r))
  unfolding stream_response with_state
  stream_response-IsPrefix e r {a} started =
      let (f, b, m, ends) = pump-Sends host s (suc (length r.lines)) r a (omega arith) in
      (
        f ++ final_text b,
        λ w.
            subst (IsPrefix w (f ++ final_text b) last)
              (sym (ap (with_state host latency s e w r) started))
              (after_loop-IsPrefix (record e { status = 200 }) w f
                (pump host s (suc (length r.lines)) r (with_wire host s a w)) (ends w)),
      )
