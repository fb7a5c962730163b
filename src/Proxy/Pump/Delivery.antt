-- ===== src/Proxy/Pump/Delivery.antt =====
-- A stream from the upstream's events to those that the client reads, by streamResponse.
use newapi_box.Prelude.{
  suc, ◌≡◌, refl, sym, ap, ◌∙◌, true, false, List, [], ◌∷◌, ◌++◌, Option, none, some, arith, length,
  All, append_assoc, append-nil,
}
use newapi_box.Prelude.Int.{ℤ}
use newapi_box.Text.{Text, codes}
use newapi_box.Config.{RelayFormat, openai, openai_responses, claude, gemini, other}
use newapi_box.Protocol.Sse
use newapi_box.Protocol.Sse.{new_reader, write_data, write_event, write_done}
use newapi_box.Protocol.Sse.Frames.{IsCarriedEvent}
use newapi_box.Protocol.Sse.RoundTrip.{Delivers, write_events, write_events-Delivers}
use newapi_box.Proxy.Types.{Result, ok, err, Message, stream_failed}
use newapi_box.Proxy.Events.{Event}
use newapi_box.Proxy.Session.{Session, new_meta}
use newapi_box.Proxy.Reply.{record_usage, Usage}
use newapi_box.Proxy.Pump.{
  Wire, write_to, write_string, StreamHost, broke, with_error, finish_stream, send_done, streamed,
  after_final_emit, after_finalize, after_loop, with_state, stream_response,
}
use newapi_box.Proxy.Pump.Comes.{Relays-Comes}
use newapi_box.Proxy.Pump.Relay.{
  open_wire, write_events-append, frames, emit-open, Relays, pump-Relays,
}

-- The sentinel of an OpenAI stream.
abbrev pub sentinel : RelayFormat → List Sse.Event
sentinel openai = record { name = []; body = codes "[DONE]" } ∷ []
sentinel _ = []

module _ {ℓ} {V S : Type ℓ} (host : StreamHost V S) (latency : ℤ) (s : Session) where
  -- What FinalizeStreamResponse adds.
  abbrev pub final_frames : Result (List (Option V)) → List Sse.Event
  final_frames (ok rs) = frames host s rs
  final_frames (err t) = []

  abbrev pub final_error : Option Message → Result (List (Option V)) → Option Message
  final_error m (ok rs) = m
  final_error m (err t) = some (stream_failed t)

  -- The events that the client is sent in all.
  abbrev pub client_events : List Sse.Event → S → List Sse.Event
  client_events out b = out ++ (final_frames (host.finalize (new_meta s) b).0 ++ sentinel s.client)

  send_done-open :
      (f : RelayFormat) (t : Text)
      → send_done host latency s f (open_wire t) ≡ open_wire (t ++ write_events (sentinel f))
  unfolding send_done write_string write_to write_events write_event write_done
  send_done-open openai t = refl
  send_done-open openai_responses t = ap open_wire (sym (append-nil t))
  send_done-open claude t = ap open_wire (sym (append-nil t))
  send_done-open gemini t = ap open_wire (sym (append-nil t))
  send_done-open (other x) t = ap open_wire (sym (append-nil t))

  -- The entry of the history for a stream that was served to its end.
  pub record IsLogged (m : Option Message) (ev : Event) : Type 0 where
    pub status : ev.status ≡ 200
    pub error : ev.error ≡ m
    pub timed : ev.latency_ms ≡ latency

  with_error-IsLogged :
      (e : Event) (m : Option Message)
      → e.status ≡ 200
      → e.error ≡ none
      → e.latency_ms ≡ latency
      → IsLogged m (with_error e m)
  unfolding with_error
  with_error-IsLogged e none fine calm timed = record { status = fine; error = calm; timed = timed }
  with_error-IsLogged e (some m) fine calm timed = record {
    status = fine;
    error = refl;
    timed = timed;
  }

  record_usage-kept :
      (e : Event) (u : Option Usage)
      → ((record_usage e u).status ≡ e.status) × ((record_usage e u).error ≡ e.error)
  unfolding record_usage
  record_usage-kept e none = (refl, refl)
  record_usage-kept e (some u) = (refl, refl)

  finish_stream-IsLogged :
      (e : Event) (state : S) (m : Option Message)
      → e.error ≡ none
      → IsLogged m (finish_stream host latency s (record e { status = 200 }) state m)
  unfolding finish_stream
  finish_stream-IsLogged e state m calm =
      let (same, quiet) = record_usage-kept (record e { status = 200 }) (host.usage state) in
      with_error-IsLogged _ m same (quiet ∙ calm) refl

  after_final_emit-open :
      (e : Event) (z : S) (m : Option Message) (t : Text)
      → e.error ≡ none
      → (ev : Event) × (after_final_emit host latency s
            (record e { status = 200 })
            z
            m
            (open_wire t, true)
          ≡ streamed ev (open_wire (t ++ write_events (sentinel s.client))))
        × IsLogged m ev
  unfolding after_final_emit
  after_final_emit-open e z m t calm =
      let ev = finish_stream host latency s (record e { status = 200 }) z m in
      (ev, ap (streamed ev) (send_done-open s.client t), finish_stream-IsLogged e z m calm)

  after_finalize-open :
      (e : Event) (b : S) (m : Option Message) (t : Text) (x : Result (List (Option V)) × S)
      → e.error ≡ none
      → (ev : Event) × (after_finalize host latency s
            (record e { status = 200 })
            (record { state = b; wire = open_wire t; error = m })
            x
          ≡ streamed ev (open_wire (t ++ write_events (final_frames x.0 ++ sentinel s.client))))
        × IsLogged (final_error m x.0) ev
  unfolding after_finalize
  after_finalize-open e b m t (err x, z) calm = after_final_emit-open e z _ t calm
  after_finalize-open e b m t (ok rs, z) calm =
      let (ev, eq, fine) =
        after_final_emit-open e z m (t ++ write_events (frames host s rs)) calm in
      (
        ev,
        ap (after_final_emit host latency s (record e { status = 200 }) z m) (emit-open host s t rs)
            ∙ eq
            ∙ ap (λ x. streamed ev (open_wire x))
                (append_assoc t (write_events (frames host s rs)) (write_events (sentinel s.client))
                  ∙ ap (λ x. t ++ x)
                      (sym (write_events-append (frames host s rs) (sentinel s.client)))),
        fine,
      )

  module _ (e : Event) (t : Text) where
    after_loop-open :
        (out : List Sse.Event) (b : S) (m : Option Message)
        → e.error ≡ none
        → (ev : Event) × (after_loop host latency s
              (record e { status = 200 })
              (broke (record { state = b; wire = open_wire (t ++ write_events out); error = m }))
            ≡ streamed ev (open_wire (t ++ write_events (client_events out b))))
          × IsLogged (final_error m (host.finalize (new_meta s) b).0) ev
    unfolding after_loop
    after_loop-open out b m calm =
        let (ev, eq, fine) =
          after_finalize-open e b m (t ++ write_events out) (host.finalize (new_meta s) b) calm in
        let last = final_frames (host.finalize (new_meta s) b).0 ++ sentinel s.client in
        (
          ev,
          eq
              ∙ ap (λ x. streamed ev (open_wire x))
                  (append_assoc t (write_events out) (write_events last)
                    ∙ ap (λ x. t ++ x) (sym (write_events-append out last))),
          fine,
        )

    -- Where the upstream writes the events `es`, each of which fits the reader, and the client stays:
    -- the client is sent, behind what it has, the events that `es` comes to by the kernel, then those
    -- that the kernel adds at the end, then the sentinel that its protocol waits for, and nothing
    -- else. The history records a status of 200 and the error that broke the stream off, if any.
    pub stream_response-Relays :
        {es out : List Sse.Event} {a b : S} {m : Option Message}
        → host.new_state s.upstream s.client s.upstream_model ≡ ok a
        → All IsCarriedEvent es
        → e.error ≡ none
        → Relays host s a es out b m
        → (ev : Event) × (stream_response host latency s true e
              (open_wire t)
              (new_reader (write_events es) false)
            ≡ streamed ev (open_wire (t ++ write_events (client_events out b))))
          × IsLogged (final_error m (host.finalize (new_meta s) b).0) ev
    unfolding stream_response with_state
    stream_response-Relays {es} {out} {b = b} {m = m} started carried calm r =
        let reader = new_reader (write_events es) false in
        let (ev, eq, fine) = after_loop-open out b m calm in
        (
          ev,
          ap (with_state host latency s e (open_wire t) reader) started
              ∙ ap (after_loop host latency s (record e { status = 200 })) (
                  pump-Relays host s (suc (length reader.lines)) reader t (omega arith)
                    (write_events-Delivers es carried) r)
              ∙ eq,
          fine,
        )

  -- From end to end, for a client that has got nothing yet: the upstream's events come to some
  -- events of the client's protocol; streamResponse ends with a stream; and where those events fit a
  -- reader too, a client that reads the stream by the same reader gets them, then the kernel's last
  -- ones and the sentinel, in this order, no more and no fewer, and then the end of the stream.
  pub stream_response-Delivers :
      (e : Event) (es : List Sse.Event) (a : S)
      → host.new_state s.upstream s.client s.upstream_model ≡ ok a
      → All IsCarriedEvent es
      → e.error ≡ none
      → (out : List Sse.Event) × (b : S) × (m : Option Message) × (ev : Event) × (w : Wire) × Relays
          host s a es out b m
        × (stream_response host latency s true e (open_wire []) (new_reader (write_events es) false)
            ≡ streamed ev w)
        × (All IsCarriedEvent (client_events out b)
            → Delivers Sse.NextResult.finished (new_reader w.sent false) (client_events out b))
  stream_response-Delivers e es a started carried calm =
      let (out, b, m, r) = Relays-Comes host s es a in
      let (ev, eq, fine) = stream_response-Relays e [] started carried calm r in
      (
        out,
        b,
        m,
        ev,
        open_wire (write_events (client_events out b)),
        r,
        eq,
        λ fits. write_events-Delivers (client_events out b) fits,
      )
