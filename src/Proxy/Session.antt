-- ===== src/Proxy/Session.antt =====
-- internal/proxy/proxy.go: from an admitted request to the request that goes upstream. The kernel
-- (relaykit), json.Marshal and the HTTP library are arguments.
pub mod Path
pub mod Build
pub mod Headers
pub mod Order
use newapi_box.Prelude.{
  ℕ, Bool, true, false, if◌then◌else◌, List, [], ◌∷◌, ◌++◌, Option, none, some, is_empty, length,
}
use newapi_box.Text.{Text, codes, replace_all, join}
use newapi_box.Config.{
  RelayFormat, openai, openai_responses, claude, gemini, other, format_equal, Upstream, StringMap,
  path_for, gemini_stream_path_for, map_model,
}
use newapi_box.Protocol.Surface.{
  StreamOptions, Request, chat, responses, messages, gemini_chat, unknown, set_model, is_gemini,
}
use newapi_box.Proxy.Types.{
  Result, ok, err, HeaderMap, set_header, Message, cannot_convert, request_not_built,
}
use newapi_box.Proxy.Admit.{Runtime}

-- convmeta.Values, as newMeta fills it; the default for max_tokens is one number for all models.
pub record Meta : Type 0 where
  pub origin_model_name : Text
  pub upstream_model_name : Text
  pub channel_meta_attached : Bool
  pub is_stream : Bool
  pub default_max_tokens : ℕ

-- session, but for its event, which Proxy/Serve threads through.
pub record Session : Type 0 where
  pub rt : Runtime
  pub client : RelayFormat
  pub upstream : RelayFormat
  pub streaming : Bool
  pub client_model : Text
  pub upstream_model : Text

-- The session literal of ServeHTTP.
unfoldable pub new_session : Runtime → RelayFormat → Bool → Text → Session
new_session rt inbound streaming client_model = record {
  rt = rt;
  client = inbound;
  upstream = rt.up.format;
  streaming = streaming;
  client_model = client_model;
  upstream_model = map_model rt.up client_model;
}

-- session.newMeta
unfoldable pub new_meta : Session → Meta
new_meta s = record {
  origin_model_name = s.client_model;
  upstream_model_name = s.upstream_model;
  channel_meta_attached = true;
  is_stream = s.streaming;
  default_max_tokens = s.rt.cfg.claude_default_max_tokens;
}

-- relayconvert.RequestResult, by the fields that are read; `diagnostics` has their codes.
pub record RequestResult {ℓ} (P : Type ℓ) : Type ℓ where
  pub value : Request P
  pub converter : Text
  pub diagnostics : List Text

-- describeDiagnostics
unfoldable describe_diagnostics : List Text → Text
unfolding join
describe_diagnostics ds = if is_empty ds then codes "none" else join ds (codes ",")

-- What goes upstream.
pub record UpstreamRequest : Type 0 where
  pub target : Text
  pub headers : HeaderMap
  pub body : Text

-- UpstreamAuthHeaders, with the entries of the map in one order
unfoldable pub upstream_auth_headers : RelayFormat → Text → StringMap
upstream_auth_headers claude api_key =
    (codes "x-api-key", api_key) ∷ (codes "anthropic-version", codes "2023-06-01") ∷ []
upstream_auth_headers gemini api_key = (codes "x-goog-api-key", api_key) ∷ []
upstream_auth_headers openai api_key = (codes "Authorization", codes "Bearer " ++ api_key) ∷ []
upstream_auth_headers openai_responses api_key =
    (codes "Authorization", codes "Bearer " ++ api_key) ∷ []
upstream_auth_headers (other s) api_key = (codes "Authorization", codes "Bearer " ++ api_key) ∷ []

abbrev pub model_placeholder : Text
model_placeholder = codes "{{model}}"

-- session.upstreamPath
unfoldable pub upstream_path : Session → Text
unfolding path_for gemini_stream_path_for replace_all
upstream_path s =
    if is_gemini s.upstream
    then replace_all
        (if s.streaming then gemini_stream_path_for s.rt.up else path_for s.rt.up gemini)
        model_placeholder s.upstream_model
    else path_for s.rt.up s.upstream

abbrev usage_options : StreamOptions
usage_options = record { include_usage = true; include_obfuscation = false }

-- The stream options of a chat request behind applyStreamFlag.
chat_options : Bool → Option StreamOptions → Option StreamOptions
chat_options false options = none
chat_options true none = some usage_options
chat_options true (some options) = some options

-- The loop over a map of headers, in the order of the map's entries.
unfoldable pub set_headers : (Text → Text) → HeaderMap → StringMap → HeaderMap
unfolding set_header
set_headers canonical m [] = m
set_headers canonical m ((name, value) ∷ rest) =
    set_headers canonical (set_header canonical m name value) rest

-- The headers of buildUpstreamRequest.
unfoldable pub request_headers : (Text → Text) → Session → HeaderMap
unfolding set_headers upstream_auth_headers
request_headers canonical s =
    let typed = set_header canonical [] (codes "Content-Type") (codes "application/json") in
    let accepting =
      if s.streaming
      then set_header canonical typed (codes "Accept") (codes "text/event-stream")
      else typed in
    let authenticated =
      set_headers canonical accepting (upstream_auth_headers s.upstream s.rt.up.api_key) in
    set_headers canonical authenticated s.rt.up.headers

module _ {ℓ} {P : Type ℓ} where
  -- applyStreamFlag
  apply_stream_flag : Request P → Bool → Request P
  unfolding chat_options
  apply_stream_flag (chat model stream options p) streaming =
      chat model (some streaming) (chat_options streaming options) p
  apply_stream_flag (responses model stream p) streaming = responses model (some streaming) p
  apply_stream_flag (messages model stream p) streaming = messages model (some streaming) p
  apply_stream_flag (gemini_chat p) streaming = gemini_chat p
  apply_stream_flag (unknown p) streaming = unknown p

-- What the relay path calls and does not implement, for a request.
pub record RequestHost {ℓ} (P : Type ℓ) : Type ℓ where
  -- relayconvert.ConvertRequest
  pub convert : Meta → RelayFormat → Request P → Result (RequestResult P)
  -- relayconvert.EnsureResponsesReasoningSummary
  pub ensure_summary : Request P → RelayFormat → Request P
  -- json.Marshal
  pub encode : Request P → Option Text
  -- http.CanonicalHeaderKey
  pub canonical : Text → Text
  -- whether http.NewRequestWithContext accepts a URL
  pub is_url : Text → Bool

module _ {ℓ} {P : Type ℓ} (host : RequestHost P) where
  open host use {convert, ensure_summary, encode, canonical, is_url}

  after_convert : Session → Result (RequestResult P) → Result (RequestResult P)
  after_convert s (err e) = err e
  after_convert s (ok r) = ok (record r { value = set_model r.value s.upstream_model })

  -- session.convertRequest
  unfoldable pub convert_request : Session → Request P → Result (RequestResult P)
  unfolding after_convert format_equal set_model
  convert_request s request =
      if format_equal s.client s.upstream
      then ok (record {
        value = ensure_summary (set_model request s.upstream_model) s.client;
        converter = [];
        diagnostics = [];
      })
      else after_convert s (convert (new_meta s) s.upstream request)

  -- The flag of buildUpstreamRequest, which Gemini does not have.
  flagged : Session → Request P → Request P
  unfolding apply_stream_flag
  flagged s payload =
      if is_gemini s.upstream then payload else apply_stream_flag payload s.streaming

  unfoldable pub with_body : Session → Option Text → Option UpstreamRequest
  with_body s none = none
  with_body s (some body) =
      let target = s.rt.up.base_url ++ upstream_path s in
      if is_url target
      then some (record { target = target; headers = request_headers canonical s; body = body })
      else none

  -- session.buildUpstreamRequest: `none` is an error. The request's context, which is cancelled when
  -- the client goes away, is left out.
  unfoldable pub build_upstream_request : Session → Request P → Option UpstreamRequest
  unfolding with_body flagged
  build_upstream_request s payload = with_body s (encode (flagged s payload))
