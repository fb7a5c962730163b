-- ===== src/Proxy/Serve/Gate.antt =====
-- What a request must have before anything goes upstream, and what is recorded of it.
use newapi_box.Prelude.{
  if_split, if_both, ◌≤◌, ◌≡◌, ◌≢◌, ◌⊎◌, inl, inr, refl, true, not, [], ◌∷◌, Option, none, some,
  arith, length, is_empty,
}
use newapi_box.Text.{Text, codes, equal, trim_space}
use newapi_box.Text.Equal.{equal_iff, not_empty_iff}
use newapi_box.Config.{RelayFormat}
use newapi_box.Protocol.Surface.{Request, match_inbound, is_stream_request, client_model}
use newapi_box.Proxy.Types.{Result, ok, err}
use newapi_box.Proxy.Admit.{Runtime, authorized, Decoded, decoded, bad, decode_inbound}
use newapi_box.Proxy.Session.{Session, new_session, RequestResult, UpstreamRequest, convert_request}
use newapi_box.Proxy.Events.{Event}
use newapi_box.Proxy.Pump.{Streamed, not_started, streamed, stuck}
use newapi_box.Proxy.Pump.Total.{stream_response-ne-stuck}
use newapi_box.Proxy.Reply.{Response}
use newapi_box.Proxy.Serve.{
  ClientRequest, Served, Host, log_streamed, after_send, after_build, after_convert, handle,
  serve_decoded, serve_at, serve_matched, serve_http, new_event,
}

-- Nothing went upstream and nothing is recorded.
abbrev pub IsRefusal : Served → Type 0
IsRefusal x = (x.sent ≡ []) × (x.logged ≡ none)

module _ {ℓ} {P V W S : Type ℓ} (host : Host P V W S) where
  -- A request that has a session: it is a POST on a path of some protocol, an upstream is
  -- configured, its key passes, its body decodes and it names a model.
  pub record IsAdmitted (rt : Option Runtime) (r : ClientRequest) (x : Served) : Type ℓ where
    pub post : r.method ≡ codes "POST"
    pub inbound : RelayFormat
    pub path_model : Text
    pub matched : match_inbound r.path ≡ some (inbound, path_model)
    pub runtime : Runtime
    pub configured : rt ≡ some runtime
    pub passes : authorized runtime r.credentials ≡ true
    pub request : Request P
    pub decodes : decode_inbound host.unmarshal inbound r.body ≡ decoded request
    pub names_model : trim_space (client_model inbound request path_model) ≢ []
    pub session : Session
    pub session_is :
        session
        ≡ new_session runtime inbound
            (is_stream_request inbound request r.path)
            (client_model inbound request path_model)
    pub handled : x ≡ handle host session (new_event host.now session) request

  abbrev Fate : Option Runtime → ClientRequest → Served → Type ℓ
  Fate rt r x = IsRefusal x ⊎ IsAdmitted rt r x

  Fate-decoded :
      (rt : Runtime) (r : ClientRequest) (inbound : RelayFormat) (path_model : Text) (d : Decoded P)
      → r.method ≡ codes "POST"
      → match_inbound r.path ≡ some (inbound, path_model)
      → authorized rt r.credentials ≡ true
      → decode_inbound host.unmarshal inbound r.body ≡ d
      → Fate (some rt) r (serve_decoded host rt r inbound path_model d)
  unfolding serve_decoded
  Fate-decoded rt r inbound path_model (bad m) post matched passes e = inl (refl, refl)
  Fate-decoded rt r inbound path_model (decoded request) post matched passes e =
      if_split (Fate (some rt) r) (is_empty (trim_space (client_model inbound request path_model)))
        _ _ (λ _. inl (refl, refl))
        (λ named. inr (record {
          post = post;
          inbound = inbound;
          path_model = path_model;
          matched = matched;
          runtime = rt;
          configured = refl;
          passes = passes;
          request = request;
          decodes = e;
          names_model = (not_empty_iff _).0 named;
          session =
              new_session rt inbound (is_stream_request inbound request r.path)
                (client_model inbound request path_model);
          session_is = refl;
          handled = refl;
        }))

  Fate-at :
      (rt : Option Runtime) (r : ClientRequest) (inbound : RelayFormat) (path_model : Text)
      → r.method ≡ codes "POST"
      → match_inbound r.path ≡ some (inbound, path_model)
      → Fate rt r (serve_at host rt r inbound path_model)
  unfolding serve_at
  Fate-at none r inbound path_model post matched = inl (refl, refl)
  Fate-at (some rt) r inbound path_model post matched =
      if_split (Fate (some rt) r) (not (authorized rt r.credentials)) _ _ (λ _. inl (refl, refl))
        (λ passes. Fate-decoded rt r inbound path_model _ post matched (ground arith) refl)

  Fate-matched :
      (rt : Option Runtime) (r : ClientRequest) (o : Option (RelayFormat × Text))
      → r.method ≡ codes "POST"
      → match_inbound r.path ≡ o
      → Fate rt r (serve_matched host rt r o)
  unfolding serve_matched
  Fate-matched rt r none post matched = inl (refl, refl)
  Fate-matched rt r (some (inbound, path_model)) post matched =
      Fate-at rt r inbound path_model post matched

  -- Every request is refused with nothing sent upstream and nothing recorded, or is admitted and
  -- handled in its session.
  pub serve_http-cases :
      (rt : Option Runtime) (r : ClientRequest)
      → IsRefusal (serve_http host rt r) ⊎ IsAdmitted rt r (serve_http host rt r)
  unfolding serve_http
  serve_http-cases rt r =
      if_split (Fate rt r) (not (equal r.method (codes "POST"))) _ _ (λ _. inl (refl, refl))
        (λ post.
          Fate-matched rt r (match_inbound r.path)
            ((equal_iff r.method (codes "POST")).0 (ground arith)) refl)

  -- If anything goes upstream, the request is admitted and handled in its session.
  pub sent-IsAdmitted :
      (rt : Option Runtime) (r : ClientRequest)
      → (serve_http host rt r).sent ≢ []
      → IsAdmitted rt r (serve_http host rt r)
  sent-IsAdmitted rt r h = elim (serve_http-cases rt r) [
    | inl refused ↦ absurd (h refused.0)
    | inr admitted ↦ admitted
  ]

  -- At most one request goes upstream, and an event is recorded.
  abbrev pub IsRecorded : Served → Type 0
  IsRecorded x = (length x.sent ≤ 1) × ((e : Event) × (x.logged ≡ some e))

  log_streamed-IsRecorded :
      (u : UpstreamRequest) (s : Session) (e : Event) (x : Streamed)
      → x ≢ stuck
      → IsRecorded (log_streamed host (u ∷ []) s e x)
  unfolding log_streamed
  log_streamed-IsRecorded u s e (not_started st c m) ne = (omega arith, (_, refl))
  log_streamed-IsRecorded u s e (streamed e' w) ne = (omega arith, (_, refl))
  log_streamed-IsRecorded u s e stuck ne = absurd (ne refl)

  after_send-IsRecorded :
      (s : Session) (e : Event) (u : UpstreamRequest) (x : Result Response)
      → IsRecorded (after_send host s e u x)
  unfolding after_send
  after_send-IsRecorded s e u (err t) = (omega arith, (_, refl))
  after_send-IsRecorded s e u (ok response) =
      if_both IsRecorded _ _ _ (omega arith, (_, refl))
        (if_both IsRecorded s.streaming _ _
          (log_streamed-IsRecorded u s e _
            (stream_response-ne-stuck host.streams host.latency s host.flushes e host.wire _))
          (omega arith, (_, refl)))

  after_build-IsRecorded :
      (s : Session) (e : Event) (o : Option UpstreamRequest) → IsRecorded (after_build host s e o)
  unfolding after_build
  after_build-IsRecorded s e none = (omega arith, (_, refl))
  after_build-IsRecorded s e (some u) = after_send-IsRecorded s e u (host.send s.rt.client u)

  after_convert-IsRecorded :
      (s : Session) (e : Event) (x : Result (RequestResult P))
      → IsRecorded (after_convert host s e x)
  unfolding after_convert
  after_convert-IsRecorded s e (err t) = (omega arith, (_, refl))
  after_convert-IsRecorded s e (ok c) = after_build-IsRecorded s _ _

  -- A request that has a session, whatever becomes of it, sends at most one request upstream and
  -- leaves exactly one event.
  pub handle-IsRecorded :
      (s : Session) (e : Event) (request : Request P) → IsRecorded (handle host s e request)
  unfolding handle
  handle-IsRecorded s e request =
      after_convert-IsRecorded s e (convert_request host.requests s request)
