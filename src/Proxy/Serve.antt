-- ===== src/Proxy/Serve.antt =====
-- internal/proxy/proxy.go: ServeHTTP and session.handle. The kernel, the JSON codec and the HTTP
-- client are arguments, and so are the clock's readings.
pub mod Gate
pub mod Caller
pub mod Streams
pub mod Recorded
use newapi_box.Prelude.{
  ℕ, ◌==◌, Bool, true, false, not, if◌then◌else◌, List, [], ◌∷◌, ◌++◌, Option, none, some, is_empty,
  length,
}
use newapi_box.Prelude.Int.{ℤ, pos}
use newapi_box.Text.{Text, codes, equal, trim_space}
use newapi_box.Config.{RelayFormat, openai, format_name}
use newapi_box.Protocol.Sse.{new_reader}
use newapi_box.Protocol.Surface.{Request, match_inbound, is_stream_request, client_model}
use newapi_box.Proxy.Types.{
  Result, ok, err, Source, Credentials, Reply, Message, method_not_allowed, not_found,
  not_configured, authentication_error, invalid_request_error, upstream_error, only_post,
  unsupported_path, no_upstream, invalid_key, no_model, cannot_convert, request_not_built,
  upstream_request_failed,
}
use newapi_box.Proxy.Errors.{write_error}
use newapi_box.Proxy.Admit.{Client, Runtime, authorized, Decoded, decoded, bad, decode_inbound}
use newapi_box.Proxy.Session.{
  Session, new_session, RequestHost, RequestResult, UpstreamRequest, convert_request,
  build_upstream_request,
}
use newapi_box.Proxy.Reply.{Response, ReplyHost, fail, relay_upstream_error, buffered_response}
use newapi_box.Proxy.Pump.{
  Wire, StreamHost, Streamed, not_started, streamed, stuck, stream_response,
}
use newapi_box.Proxy.Events.{Event}

pub record ClientRequest : Type 0 where
  pub method : Text
  pub path : Text
  pub credentials : Credentials
  pub body : Source

-- What a request comes to: an answer or a stream, the requests that went upstream, and the event
-- that the deferred append adds to the history. `no_end` is a stream that never ends.
pub data Answer : Type 0 where
  answered : Reply → Answer
  stream_sent : Wire → Answer
  no_end : Answer

pub record Served : Type 0 where
  pub answer : Answer
  pub sent : List UpstreamRequest
  pub logged : Option Event

-- A reply before there is a session.
abbrev refuse : Reply → Served
refuse r = record { answer = answered r; sent = []; logged = none }

abbrev pub log : List UpstreamRequest → Event × Reply → Served
log sent (e, r) = record { answer = answered r; sent = sent; logged = some e }

-- The event of the session literal.
unfoldable pub new_event : Text → Session → Event
unfolding format_name
new_event now s = record {
  seq = 0;
  time = now;
  client = format_name s.client;
  upstream = format_name s.upstream;
  model = s.client_model;
  upstream_model = s.upstream_model;
  stream = s.streaming;
  status = 0;
  latency_ms = pos 0;
  converter = [];
  diagnostics = 0;
  prompt_tokens = pos 0;
  completion_tokens = pos 0;
  error = none;
}

-- What ServeHTTP calls and reads: the JSON decoder of requests, the kernel and the codec for
-- requests, replies and streams, the upstream, the clock, and the client's connection.
pub record Host {ℓ} (P V W S : Type ℓ) : Type ℓ where
  pub unmarshal : RelayFormat → Text → Option (Request P)
  pub requests : RequestHost P
  pub replies : ReplyHost V
  pub streams : StreamHost W S
  -- http.Client.Do of the client of the runtime
  pub send : Client → UpstreamRequest → Result Response
  pub now : Text
  pub latency : ℤ
  pub flushes : Bool
  pub wire : Wire

module _ {ℓ} {P V W S : Type ℓ} (host : Host P V W S) where
  open host use {unmarshal, requests, replies, streams, send, now, latency, flushes, wire}

  unfoldable pub log_streamed : List UpstreamRequest → Session → Event → Streamed → Served
  unfolding fail
  log_streamed sent s e (not_started status code message) =
      log sent (fail s.client latency e status code message)
  log_streamed sent s e (streamed e' w) = record {
    answer = stream_sent w;
    sent = sent;
    logged = some e';
  }
  log_streamed sent s e stuck = record { answer = no_end; sent = sent; logged = none }

  -- The part of handle behind the upstream's answer.
  unfoldable pub after_send : Session → Event → UpstreamRequest → Result Response → Served
  unfolding log_streamed relay_upstream_error
  after_send s e u (err t) =
      log (u ∷ []) (fail s.client latency e 502 upstream_error (upstream_request_failed t))
  after_send s e u (ok response) =
      if not (response.status == 200)
      then log (u ∷ []) (relay_upstream_error latency e response)
      else if s.streaming
      then log_streamed (u ∷ []) s e (
          stream_response streams latency s flushes e wire
            (new_reader response.body.bytes response.body.fails))
      else log (u ∷ []) (buffered_response replies latency s e response)

  unfoldable pub after_build : Session → Event → Option UpstreamRequest → Served
  unfolding after_send fail
  after_build s e none =
      log [] (fail s.client latency e 400 invalid_request_error request_not_built)
  after_build s e (some u) = after_send s e u (send s.rt.client u)

  unfoldable pub after_convert : Session → Event → Result (RequestResult P) → Served
  unfolding after_build fail
  after_convert s e (err t) =
      log [] (fail s.client latency e 400 invalid_request_error (cannot_convert t))
  after_convert s e (ok c) =
      after_build s (record e { converter = c.converter; diagnostics = length c.diagnostics })
        (build_upstream_request requests s c.value)

  -- session.handle, and the deferred append
  unfoldable pub handle : Session → Event → Request P → Served
  unfolding after_convert
  handle s e request = after_convert s e (convert_request requests s request)

  -- The part of ServeHTTP behind the decoding of the body.
  unfoldable pub serve_decoded : Runtime → ClientRequest → RelayFormat → Text → Decoded P → Served
  unfolding handle new_event new_session
  serve_decoded rt r inbound path_model (bad message) =
      refuse (write_error inbound 400 invalid_request_error message)
  serve_decoded rt r inbound path_model (decoded request) =
      let model = client_model inbound request path_model in
      let s = new_session rt inbound (is_stream_request inbound request r.path) model in
      if is_empty (trim_space model)
      then refuse (write_error inbound 400 invalid_request_error no_model)
      else handle s (new_event now s) request

  -- The part behind MatchInbound.
  unfoldable pub serve_at : Option Runtime → ClientRequest → RelayFormat → Text → Served
  unfolding serve_decoded
  serve_at none r inbound path_model = refuse (write_error inbound 503 not_configured no_upstream)
  serve_at (some rt) r inbound path_model =
      if not (authorized rt r.credentials)
      then refuse (write_error inbound 401 authentication_error invalid_key)
      else serve_decoded rt r inbound path_model (decode_inbound unmarshal inbound r.body)

  unfoldable pub serve_matched :
      Option Runtime → ClientRequest → Option (RelayFormat × Text) → Served
  unfolding serve_at
  serve_matched rt r none = refuse (write_error openai 404 not_found (unsupported_path r.path))
  serve_matched rt r (some (inbound, path_model)) = serve_at rt r inbound path_model

  -- Proxy.ServeHTTP, with the runtime that the atomic pointer holds, if any
  unfoldable pub serve_http : Option Runtime → ClientRequest → Served
  unfolding serve_matched equal
  serve_http rt r =
      if not (equal r.method (codes "POST"))
      then refuse (write_error openai 405 method_not_allowed only_post)
      else serve_matched rt r (match_inbound r.path)
