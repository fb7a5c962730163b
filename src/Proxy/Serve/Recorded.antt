-- ===== src/Proxy/Serve/Recorded.antt =====
-- What the client of the relay gets, and what the history says of it.
use newapi_box.Prelude.{
  if_both, ℕ, ◌==◌, ◌≡◌, ◌≢◌, refl, ap, Bool, true, false, not, List, [], ◌∷◌, Option, none, some,
  is_empty, if◌then◌else◌,
}
use newapi_box.Text.{Text, codes, equal, trim_space}
use newapi_box.Config.{RelayFormat, openai}
use newapi_box.Protocol.Surface.{Request, match_inbound, client_model}
use newapi_box.Proxy.Types.{Result, ok, err, Code, Message, Reply, raw, upstream_returned}
use newapi_box.Proxy.Errors.{write_error}
use newapi_box.Proxy.Admit.{Runtime, authorized, Decoded, decoded, bad}
use newapi_box.Proxy.Events.{Event}
use newapi_box.Proxy.Pump.{Streamed, not_started, streamed, stuck}
use newapi_box.Proxy.Pump.Total.{stream_response-ne-stuck}
use newapi_box.Proxy.Pump.Status.{IsStarted, stream_response-IsStarted}
use newapi_box.Proxy.Reply.{Response, json_reply, fail, relay_upstream_error}
use newapi_box.Proxy.Reply.Passthrough.{Agrees, success, failure, buffered_response-Agrees}
use newapi_box.Proxy.Session.{Session, new_session, RequestResult, UpstreamRequest, convert_request}
use newapi_box.Proxy.Serve.{
  ClientRequest, Host, answered, stream_sent, Served, refuse, log, log_streamed, after_send,
  after_build, after_convert, handle, serve_decoded, serve_at, serve_matched, serve_http,
}

-- The protocol in whose shape a request is answered.
matched_protocol : Option (RelayFormat × Text) → RelayFormat
matched_protocol none = openai
matched_protocol (some (f, m)) = f

pub protocol_of : ClientRequest → RelayFormat
unfolding matched_protocol
protocol_of r =
    if not (equal r.method (codes "POST")) then openai else matched_protocol (match_inbound r.path)

-- The answer and the event, if any, of a request of the protocol `f`.
pub data IsRecordedAs (f : RelayFormat) (x : Served) : Type 0 where
  -- an error before there is a session
  refused :
      (status : ℕ) (code : Code) (message : Message)
      → x.answer ≡ answered (write_error f status code message)
      → x.logged ≡ none
      → IsRecordedAs f x
  failed :
      (status : ℕ) (code : Code) (message : Message) {e : Event}
      → x.answer ≡ answered (write_error f status code message)
      → x.logged ≡ some e
      → e.status ≡ status
      → e.error ≡ some message
      → IsRecordedAs f x
  -- an error of the upstream, whose body is passed on
  passed_on :
      {reply : Reply} {body : Text} {e : Event}
      → x.answer ≡ answered reply
      → reply.body ≡ raw body
      → x.logged ≡ some e
      → e.status ≡ reply.status
      → e.error ≡ some (upstream_returned reply.status)
      → IsRecordedAs f x
  replied :
      (body : Text) {e : Event}
      → x.answer ≡ answered (json_reply body)
      → x.logged ≡ some e
      → e.status ≡ 200
      → IsRecordedAs f x
  streamed_out :
      {w : _} {e : Event}
      → x.answer ≡ stream_sent w
      → x.logged ≡ some e
      → e.status ≡ 200
      → IsRecordedAs f x

Agrees-IsRecordedAs :
    (s : Session) (sent : List UpstreamRequest) (r : Event × Reply)
    → Agrees s r
    → IsRecordedAs s.client (log sent r)
Agrees-IsRecordedAs s sent (e, reply) (success body is status) =
    replied body (ap answered is) refl status
Agrees-IsRecordedAs s sent (e, reply) (failure status code message is recorded_status recorded) =
    failed status code message (ap answered is) refl recorded_status recorded

module _ {ℓ} {P V W S : Type ℓ} (host : Host P V W S) where
  refuse-IsRecordedAs :
      (f : RelayFormat) (status : ℕ) (code : Code) (message : Message)
      → IsRecordedAs f (refuse (write_error f status code message))
  refuse-IsRecordedAs f status code message = refused status code message refl refl

  fail-IsRecordedAs :
      (s : Session) (sent : List UpstreamRequest) (e : Event) (status : ℕ) (code : Code)
      (message : Message)
      → IsRecordedAs s.client (log sent (fail s.client host.latency e status code message))
  unfolding fail
  fail-IsRecordedAs s sent e status code message = failed status code message refl refl refl refl

  log_streamed-IsRecordedAs :
      (sent : List UpstreamRequest) (s : Session) (e : Event) (x : Streamed)
      → x ≢ stuck
      → IsStarted x
      → IsRecordedAs s.client (log_streamed host sent s e x)
  unfolding log_streamed
  log_streamed-IsRecordedAs sent s e (not_started status code message) ne h =
      fail-IsRecordedAs s sent e status code message
  log_streamed-IsRecordedAs sent s e (streamed e' w) ne h = streamed_out refl refl h
  log_streamed-IsRecordedAs sent s e stuck ne h = absurd (ne refl)

  after_send-IsRecordedAs :
      (s : Session) (e : Event) (u : UpstreamRequest) (x : Result Response)
      → IsRecordedAs s.client (after_send host s e u x)
  unfolding after_send relay_upstream_error
  after_send-IsRecordedAs s e u (err t) = fail-IsRecordedAs s _ e _ _ _
  after_send-IsRecordedAs s e u (ok response) =
      if_both (IsRecordedAs s.client) (not (response.status == 200)) _ _
        (passed_on refl refl refl refl refl)
        (if_both (IsRecordedAs s.client) s.streaming _ _
          (log_streamed-IsRecordedAs (u ∷ []) s e _
            (stream_response-ne-stuck host.streams host.latency s host.flushes e host.wire _)
            (stream_response-IsStarted host.streams host.latency s host.flushes e host.wire _))
          (Agrees-IsRecordedAs s (u ∷ []) _
            (buffered_response-Agrees host.replies host.latency s e response)))

  after_build-IsRecordedAs :
      (s : Session) (e : Event) (o : Option UpstreamRequest)
      → IsRecordedAs s.client (after_build host s e o)
  unfolding after_build
  after_build-IsRecordedAs s e none = fail-IsRecordedAs s _ e _ _ _
  after_build-IsRecordedAs s e (some u) = after_send-IsRecordedAs s e u (host.send s.rt.client u)

  after_convert-IsRecordedAs :
      (s : Session) (e : Event) (x : Result (RequestResult P))
      → IsRecordedAs s.client (after_convert host s e x)
  unfolding after_convert
  after_convert-IsRecordedAs s e (err t) = fail-IsRecordedAs s _ e _ _ _
  after_convert-IsRecordedAs s e (ok c) = after_build-IsRecordedAs s _ _

  handle-IsRecordedAs :
      (s : Session) (e : Event) (request : Request P)
      → IsRecordedAs s.client (handle host s e request)
  unfolding handle
  handle-IsRecordedAs s e request =
      after_convert-IsRecordedAs s e (convert_request host.requests s request)

  serve_decoded-IsRecordedAs :
      (rt : Runtime) (r : ClientRequest) (f : RelayFormat) (path_model : Text) (d : Decoded P)
      → IsRecordedAs f (serve_decoded host rt r f path_model d)
  unfolding serve_decoded new_session
  serve_decoded-IsRecordedAs rt r f path_model (bad message) = refuse-IsRecordedAs f _ _ _
  serve_decoded-IsRecordedAs rt r f path_model (decoded request) =
      if_both (IsRecordedAs f) (is_empty (trim_space (client_model f request path_model))) _ _
        (refuse-IsRecordedAs f _ _ _) (handle-IsRecordedAs _ _ request)

  serve_at-IsRecordedAs :
      (rt : Option Runtime) (r : ClientRequest) (f : RelayFormat) (path_model : Text)
      → IsRecordedAs f (serve_at host rt r f path_model)
  unfolding serve_at
  serve_at-IsRecordedAs none r f path_model = refuse-IsRecordedAs f _ _ _
  serve_at-IsRecordedAs (some rt) r f path_model =
      if_both (IsRecordedAs f) (not (authorized rt r.credentials)) _ _ (refuse-IsRecordedAs f _ _ _)
        (serve_decoded-IsRecordedAs rt r f path_model _)

  serve_matched-IsRecordedAs :
      (rt : Option Runtime) (r : ClientRequest) (o : Option (RelayFormat × Text))
      → IsRecordedAs (matched_protocol o) (serve_matched host rt r o)
  unfolding serve_matched matched_protocol
  serve_matched-IsRecordedAs rt r none = refuse-IsRecordedAs openai _ _ _
  serve_matched-IsRecordedAs rt r (some (f, m)) = serve_at-IsRecordedAs rt r f m

  posted-IsRecordedAs :
      (b : Bool) (f : RelayFormat) (x y : Served)
      → IsRecordedAs openai x
      → IsRecordedAs f y
      → IsRecordedAs (if b then openai else f) (if b then x else y)
  posted-IsRecordedAs true f x y hx hy = hx
  posted-IsRecordedAs false f x y hx hy = hy

  -- Every request that the relay serves is answered in one of these ways, and never left without an
  -- answer: with an error in the shape of the protocol of its path (of OpenAI, where the path is of
  -- none or the method is not POST), with the upstream's error passed on, with a reply, or with a
  -- stream. The history has nothing of an error before there is a session; of anything else it has
  -- the status that the client gets and, of an error, its message.
  pub serve_http-IsRecordedAs :
      (rt : Option Runtime) (r : ClientRequest)
      → IsRecordedAs (protocol_of r) (serve_http host rt r)
  unfolding serve_http protocol_of
  serve_http-IsRecordedAs rt r =
      posted-IsRecordedAs (not (equal r.method (codes "POST"))) _ _ _
        (refuse-IsRecordedAs openai _ _ _) (serve_matched-IsRecordedAs rt r (match_inbound r.path))
