-- ===== src/Proxy/Serve/Caller.antt =====
-- Which client a request goes upstream with: the one of the runtime that it is served from.
use newapi_box.Prelude.{arith, ◌≡◌, refl, List, [], ◌∷◌, Option, none, some}
use newapi_box.Text.{Text}
use newapi_box.Config.{RelayFormat}
use newapi_box.Protocol.Sse.{new_reader}
use newapi_box.Protocol.Surface.{match_inbound, is_stream_request, client_model}
use newapi_box.Proxy.Types.{Result, ok, err}
use newapi_box.Proxy.Admit.{Client, Runtime, Decoded, decoded, bad, decode_inbound}
use newapi_box.Proxy.Session.{Session, new_session, RequestResult, UpstreamRequest, convert_request}
use newapi_box.Proxy.Events.{Event}
use newapi_box.Proxy.Pump.{Streamed, not_started, streamed, stuck, stream_response}
use newapi_box.Proxy.Reply.{Response}
use newapi_box.Proxy.Serve.{
  ClientRequest, Host, new_event, log_streamed, after_send, after_build, after_convert, handle,
  serve_decoded, serve_at, serve_matched, serve_http,
}

-- The host with one client for all calls: whichever client a call is made with, it is answered as
-- a call with `c` is.
abbrev pub via {ℓ} : {P V W S : Type ℓ} → Client → Host P V W S → Host P V W S
via c host = record host { send = λ d. host.send c }

module _ {ℓ} {P V W S : Type ℓ} (host : Host P V W S) where
  log_streamed-via :
      (c : Client) (sent : List UpstreamRequest) (s : Session) (e : Event) (x : Streamed)
      → log_streamed (via c host) sent s e x ≡ log_streamed host sent s e x
  unfolding log_streamed
  log_streamed-via c sent s e (not_started status code message) = refl
  log_streamed-via c sent s e (streamed e' w) = refl
  log_streamed-via c sent s e stuck = refl

  after_send-via :
      (c : Client) (s : Session) (e : Event) (u : UpstreamRequest) (x : Result Response)
      → after_send (via c host) s e u x ≡ after_send host s e u x
  unfolding after_send
  after_send-via c s e u (err t) = refl
  after_send-via c s e u (ok response) = ground (
    arith,
    log_streamed-via c (u ∷ []) s e (
        stream_response host.streams host.latency s host.flushes e host.wire
          (new_reader response.body.bytes response.body.fails)),
  )

  after_build-via :
      (s : Session) (e : Event) (o : Option UpstreamRequest)
      → after_build (via s.rt.client host) s e o ≡ after_build host s e o
  unfolding after_build
  after_build-via s e none = refl
  after_build-via s e (some u) = after_send-via s.rt.client s e u (host.send s.rt.client u)

  after_convert-via :
      (s : Session) (e : Event) (x : Result (RequestResult P))
      → after_convert (via s.rt.client host) s e x ≡ after_convert host s e x
  unfolding after_convert
  after_convert-via s e (err t) = refl
  after_convert-via s e (ok c) = after_build-via s _ _

  serve_decoded-via :
      (rt : Runtime) (r : ClientRequest) (inbound : RelayFormat) (path_model : Text) (d : Decoded P)
      → serve_decoded (via rt.client host) rt r inbound path_model d
        ≡ serve_decoded host rt r inbound path_model d
  unfolding serve_decoded handle
  serve_decoded-via rt r inbound path_model (bad m) = refl
  serve_decoded-via rt r inbound path_model (decoded request) =
      let model = client_model inbound request path_model in
      let s = new_session rt inbound (is_stream_request inbound request r.path) model in
      ground (
        arith,
        after_convert-via s (new_event host.now s) (convert_request host.requests s request),
      )

  serve_matched-via :
      (rt : Runtime) (r : ClientRequest) (o : Option (RelayFormat × Text))
      → serve_matched (via rt.client host) (some rt) r o ≡ serve_matched host (some rt) r o
  unfolding serve_matched serve_at
  serve_matched-via rt r none = refl
  serve_matched-via rt r (some (inbound, path_model)) = ground (
    arith,
    serve_decoded-via rt r inbound path_model (decode_inbound host.unmarshal inbound r.body),
  )

  -- Serving a request with a runtime depends on what is answered to calls with the client of that
  -- runtime, and on nothing that is answered to calls with another client.
  pub serve_http-via :
      (rt : Runtime) (r : ClientRequest)
      → serve_http (via rt.client host) (some rt) r ≡ serve_http host (some rt) r
  unfolding serve_http
  serve_http-via rt r = ground (arith, serve_matched-via rt r (match_inbound r.path))
