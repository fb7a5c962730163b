-- ===== src/Examples/Streaming.antt =====
-- A stream of one event, from a Claude upstream to a Claude client.
use newapi_box.Prelude.{
  Bool, ℕ, ◌≡◌, refl, true, false, List, [], ◌∷◌, ◌++◌, Option, none, some, arith, All,
}
use newapi_box.Prelude.Int.{pos}
use newapi_box.Text.{Text, codes}
use newapi_box.Protocol.Sse
use newapi_box.Protocol.Sse.{Reader, new_reader}
use newapi_box.Protocol.Sse.Frames.{IsCarriedEvent}
use newapi_box.Protocol.Sse.RoundTrip.{Delivers, write_events}
use newapi_box.Protocol.Stream.{decode_stream_event}
use newapi_box.Proxy.Types.{Message}
use newapi_box.Proxy.Events.{Event}
use newapi_box.Proxy.Session.{new_session}
use newapi_box.Proxy.Pump.{Wire, stream_response, streamed}
use newapi_box.Proxy.Pump.Relay.{open_wire, frames, Relays, over, converted}
use newapi_box.Proxy.Pump.Disconnect.{IsPrefix, stream_response-IsPrefix}
use newapi_box.Proxy.Pump.Delivery.{sentinel, client_events, stream_response-Delivers}
use newapi_box.Proxy.Serve.{new_event}
use newapi_box.Config.{claude}
use newapi_box.Text.{trim_space}
use newapi_box.Protocol.Surface.{
  Request, messages, match_inbound, decode_request, client_model, is_stream_request,
}
use newapi_box.Proxy.Types.{ok, read_limited}
use newapi_box.Proxy.Admit.{presented, authorized, decode_inbound}
use newapi_box.Proxy.Session.{
  Session, RequestResult, UpstreamRequest, convert_request, build_upstream_request,
}
use newapi_box.Proxy.Serve.{Host, serve_http}
use newapi_box.Proxy.Serve.Gate.{IsAdmitted}
use newapi_box.Proxy.Serve.Streams.{Flows, IsStream, serve_http-IsStream}
use newapi_box.Examples.Data.{host, runtime, client_request, session, event, stream_host}

abbrev greeting : Sse.Event
greeting = record { name = []; body = codes "hi" }

carried : All IsCarriedEvent (greeting ∷ [])
carried = (
  (
    record { line = tt; clear = tt; short = omega arith },
    record { line = ((λ h. cc h), ((λ h. cc h), tt)); clear = λ h. cc h; short = omega arith },
  ),
  tt,
)

one_event :
    Relays stream_host session 0
      (greeting ∷ [])
      (frames stream_host session (some true ∷ []) ++ [])
      0
      none
unfolding decode_stream_event new_session
one_event = converted refl refl over

stream_response-Delivers_example :
    (out : List Sse.Event) × (b : ℕ) × (m : Option Message) × (ev : Event) × (w : Wire) × Relays
      stream_host session 0
      (greeting ∷ [])
      out
      b
      m
    × (stream_response stream_host
          (pos 3)
          session
          true
          event
          (open_wire [])
          (new_reader (write_events (greeting ∷ [])) false)
        ≡ streamed ev w)
    × (All IsCarriedEvent (client_events stream_host (pos 3) session out b)
        → Delivers Sse.NextResult.finished
            (new_reader w.sent false)
            (client_events stream_host (pos 3) session out b))
unfolding new_event
stream_response-Delivers_example =
    stream_response-Delivers stream_host (pos 3) session event (greeting ∷ []) 0 refl carried refl

-- The read fails behind the first event.
stream_response-IsPrefix_example :
    (full : Text) × ((w : Wire)
      → IsPrefix w full (write_events (sentinel session.client)) (
          stream_response stream_host
            (pos 3)
            session
            true
            event
            w
            (new_reader (write_events (greeting ∷ [])) true)))
stream_response-IsPrefix_example =
    stream_response-IsPrefix stream_host (pos 3) session event
      (new_reader (write_events (greeting ∷ [])) true) refl

abbrev stream_request : Request Bool
stream_request = messages (codes "m") (some true) true

-- A host whose upstream streams one event to a client that stays.
abbrev flowing : Host Bool Bool Bool ℕ
flowing = record host {
  unmarshal = λ f t. some stream_request;
  send = λ c r. ok (record {
    status = 200;
    content_type = codes "text/event-stream";
    body = record { bytes = write_events (greeting ∷ []); fails = false };
  });
  wire = open_wire [];
}

abbrev streaming : Session
streaming = new_session runtime claude true (codes "m")

admitted :
    IsAdmitted flowing
      (some runtime)
      client_request
      (serve_http flowing (some runtime) client_request)
unfolding serve_http match_inbound authorized trim_space presented decode_inbound read_limited
    decode_request client_model is_stream_request new_session
admitted = record {
  post = refl;
  inbound = claude;
  path_model = [];
  matched = refl;
  runtime = runtime;
  configured = refl;
  passes = refl;
  request = stream_request;
  decodes = refl;
  names_model = λ h. cc h;
  session = streaming;
  session_is = refl;
  handled = refl;
}

sent_conversion :
    (c : RequestResult Bool) × (convert_request flowing.requests streaming stream_request ≡ ok c)
    × ((u : UpstreamRequest) × (build_upstream_request flowing.requests streaming c.value ≡ some u))
unfolding convert_request build_upstream_request new_session
sent_conversion = (_, refl, (_, refl))

flows : Flows flowing streaming stream_request (greeting ∷ []) []
unfolding new_session
flows = record {
  streaming = refl;
  conversion = sent_conversion.0;
  converts = sent_conversion.1;
  upstream_request = sent_conversion.2.0;
  builds = sent_conversion.2.1;
  content_type = codes "text/event-stream";
  answers = refl;
  flushes = refl;
  stays = refl;
  state = 0;
  starts = refl;
  carried = carried;
}

serve_http-IsStream_example :
    IsStream flowing streaming
      (greeting ∷ [])
      []
      flows.upstream_request
      flows.state
      (serve_http flowing (some runtime) client_request)
unfolding admitted
serve_http-IsStream_example =
    serve_http-IsStream flowing (some runtime) client_request (greeting ∷ []) [] admitted flows
