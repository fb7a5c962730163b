-- ===== src/Proxy/Serve/Streams.antt =====
-- A request for a stream, from ServeHTTP to the last byte that the client is sent.
use newapi_box.Prelude.{
  ◌≡◌, refl, sym, ap, ◌∙◌, subst, true, false, List, [], ◌∷◌, ◌++◌, Option, none, some, All, length,
}
use newapi_box.Text.{Text}
use newapi_box.Protocol.Sse
use newapi_box.Protocol.Sse.{new_reader}
use newapi_box.Protocol.Sse.Frames.{IsCarriedEvent}
use newapi_box.Protocol.Sse.RoundTrip.{write_events}
use newapi_box.Protocol.Surface.{Request}
use newapi_box.Proxy.Types.{ok, Message}
use newapi_box.Proxy.Admit.{Runtime}
use newapi_box.Proxy.Events.{Event}
use newapi_box.Proxy.Reply.{Response}
use newapi_box.Proxy.Session.{
  Session, RequestResult, UpstreamRequest, convert_request, build_upstream_request,
}
use newapi_box.Proxy.Pump.{stream_response}
use newapi_box.Proxy.Pump.Relay.{open_wire, Relays}
use newapi_box.Proxy.Pump.Comes.{Relays-Comes}
use newapi_box.Proxy.Pump.Delivery.{client_events, stream_response-Relays}
use newapi_box.Proxy.Serve.{
  ClientRequest, stream_sent, Served, Host, new_event, log_streamed, after_send, after_build,
  after_convert, handle, serve_http,
}
use newapi_box.Proxy.Serve.Gate.{IsAdmitted}

module _ {ℓ} {P V W S : Type ℓ} (host : Host P V W S) where
  -- The request is converted, built and sent; the upstream answers 200 with a stream of events, each
  -- of which fits the reader; the kernel can convert it; and the client stays and can be flushed to.
  pub record Flows (s : Session) (request : Request P) (es : List Sse.Event) (t : Text)
      : Type ℓ where
    pub streaming : s.streaming ≡ true
    pub conversion : RequestResult P
    pub converts : convert_request host.requests s request ≡ ok conversion
    pub upstream_request : UpstreamRequest
    pub builds : build_upstream_request host.requests s conversion.value ≡ some upstream_request
    pub content_type : Text
    pub answers :
        host.send s.rt.client upstream_request
        ≡ ok (record {
          status = 200;
          content_type = content_type;
          body = record { bytes = write_events es; fails = false };
        })
    pub flushes : host.flushes ≡ true
    pub stays : host.wire ≡ open_wire t
    pub state : S
    pub starts : host.streams.new_state s.upstream s.client s.upstream_model ≡ ok state
    pub carried : All IsCarriedEvent es

  -- What is served: one request went upstream, and the client was sent what the events come to.
  pub record IsStream (s : Session) (es : List Sse.Event) (t : Text) (u : UpstreamRequest) (a : S)
      (x : Served) : Type ℓ where
    pub out : List Sse.Event
    pub state : S
    pub broken_off : Option Message
    pub relays : Relays host.streams s a es out state broken_off
    pub sent : x.sent ≡ u ∷ []
    pub answer :
        x.answer
        ≡ stream_sent
            (open_wire (t ++ write_events (client_events host.streams host.latency s out state)))
    pub event : Event
    pub logged : x.logged ≡ some event
    pub status : event.status ≡ 200

  log_streamed-IsStream :
      (s : Session) (e : Event) (es : List Sse.Event) (t : Text) (u : UpstreamRequest) (a : S)
      → host.streams.new_state s.upstream s.client s.upstream_model ≡ ok a
      → All IsCarriedEvent es
      → e.error ≡ none
      → IsStream s es t u a (
          log_streamed host (u ∷ []) s e (
            stream_response host.streams host.latency s true e
              (open_wire t)
              (new_reader (write_events es) false)))
  unfolding log_streamed
  log_streamed-IsStream s e es t u a starts carried calm =
      let (out, b, m, r) = Relays-Comes host.streams s es a in
      let (ev, eq, fine) =
        stream_response-Relays host.streams host.latency s e t starts carried calm r in
      subst (λ x. IsStream s es t u a (log_streamed host (u ∷ []) s e x)) (sym eq)
        (record {
          out = out;
          state = b;
          broken_off = m;
          relays = r;
          sent = refl;
          answer = refl;
          event = ev;
          logged = refl;
          status = fine.status;
        })

  after_send-streams :
      (s : Session) (e : Event) (u : UpstreamRequest) (response : Response)
      → s.streaming ≡ true
      → response.status ≡ 200
      → after_send host s e u (ok response)
        ≡ log_streamed host (u ∷ []) s e (
            stream_response host.streams host.latency s host.flushes e host.wire
              (new_reader response.body.bytes response.body.fails))
  unfolding after_send
  after_send-streams s e u response streaming fine = rw (fine, streaming) refl

  handle-IsStream :
      (s : Session) (e : Event) (request : Request P) (es : List Sse.Event) (t : Text)
      → e.error ≡ none
      → (f : Flows s request es t)
      → IsStream s es t f.upstream_request f.state (handle host s e request)
  unfolding handle after_convert after_build
  handle-IsStream s e request es t calm f =
      let c = f.conversion in
      let u = f.upstream_request in
      let converted = record e { converter = c.converter; diagnostics = length c.diagnostics } in
      let reader = new_reader (write_events es) false in
      subst (IsStream s es t u f.state)
        (sym (
          ap (after_convert host s e) f.converts
          ∙ ap (after_build host s converted) f.builds
          ∙ ap (after_send host s converted u) f.answers
          ∙ after_send-streams s converted u _ f.streaming refl
          ∙ ap
              (λ b.
                log_streamed host (u ∷ []) s converted
                  (stream_response host.streams host.latency s b converted host.wire reader))
              f.flushes
          ∙ ap
              (λ w.
                log_streamed host (u ∷ []) s converted
                  (stream_response host.streams host.latency s true converted w reader))
              f.stays))
        (log_streamed-IsStream s converted es t u f.state f.starts f.carried calm)

  new_event-calm : (s : Session) → (new_event host.now s).error ≡ none
  unfolding new_event
  new_event-calm s = refl

  -- From end to end: if a request is admitted and flows (it is converted, built and sent, the upstream
  -- answers with a stream of events `es` that fit the reader, the kernel has a state for it, and the
  -- client stays), then exactly one request has gone upstream, the client has been sent the events
  -- that `es` comes to, the kernel's last ones and the sentinel, and the history records a 200.
  pub serve_http-IsStream :
      (rt : Option Runtime) (r : ClientRequest) (es : List Sse.Event) (t : Text)
      → (admitted : IsAdmitted host rt r (serve_http host rt r))
      → (f : Flows admitted.session admitted.request es t)
      → IsStream admitted.session es t f.upstream_request f.state (serve_http host rt r)
  serve_http-IsStream rt r es t admitted f =
      subst (IsStream admitted.session es t f.upstream_request f.state) (sym admitted.handled) (
        handle-IsStream admitted.session (new_event host.now admitted.session) admitted.request es t
          (new_event-calm admitted.session) f)
