-- ===== src/Proxy/Reply.antt =====
-- internal/proxy/response.go and proxy.go: replies that are not streams, and what they record in
-- the event. `latency` is the time since the request began, read at the end.
pub mod Passthrough
use newapi_box.Prelude.{
  ℕ, ◌==◌, ltb, Bool, true, false, not, ◌||◌, if◌then◌else◌, List, [], ◌∷◌, Option, none, some,
  is_empty, length, take,
}
use newapi_box.Prelude.Int.{ℤ}
use newapi_box.Text.{Text, codes}
use newapi_box.Config.{RelayFormat, format_equal, or_default}
use newapi_box.Proxy.Types.{
  Result, ok, err, Source, read_limited, Code, Message, Reply, Body, raw, upstream_error,
  conversion_error, read_upstream_response, bad_upstream_response, cannot_convert_response,
  response_not_encoded, upstream_returned,
}
use newapi_box.Proxy.Errors.{write_error}
use newapi_box.Proxy.Events.{Event}
use newapi_box.Proxy.Session.{Session, Meta, new_meta}

-- The two counters of dto.Usage that the history shows.
pub record Usage : Type 0 where
  pub prompt_tokens : ℤ
  pub completion_tokens : ℤ

-- An upstream's response DTO by what usageOf reads of it. A nil pointer to one has no constructor:
-- the decoder never yields it.
pub data ResponseDto {ℓ} (V : Type ℓ) : Type ℓ where
  text_response : Usage → V → ResponseDto V
  responses_response : Option Usage → V → ResponseDto V
  claude_response : V → ResponseDto V
  gemini_response : Bool → V → ResponseDto V

pub record Response : Type 0 where
  pub status : ℕ
  pub content_type : Text
  pub body : Source

-- maxUpstreamResponseBody, usageExtractLimit and the bound on a relayed error
abbrev pub max_upstream_response_body : ℕ
max_upstream_response_body = 67_108_864

abbrev usage_extract_limit : ℕ
usage_extract_limit = 4_194_304

abbrev max_error_body : ℕ
max_error_body = 1_048_576

-- session.fail
unfoldable pub fail : RelayFormat → ℤ → Event → ℕ → Code → Message → Event × Reply
fail client latency e status code message = (
  record e { status = status; error = some message; latency_ms = latency },
  write_error client status code message,
)

-- session.succeed
unfoldable pub succeed : ℤ → Event → ℕ → Event
succeed latency e status = record e { status = status; latency_ms = latency }

-- session.recordUsage
unfoldable pub record_usage : Event → Option Usage → Event
record_usage e none = e
record_usage e (some u) = record e {
  prompt_tokens = u.prompt_tokens;
  completion_tokens = u.completion_tokens;
}

abbrev application_json : Text
application_json = codes "application/json"

-- session.relayUpstreamError: an error while the body is read keeps what was read
unfoldable pub relay_upstream_error : ℤ → Event → Response → Event × Reply
relay_upstream_error latency e response = (
  record e {
    status = response.status;
    latency_ms = latency;
    error = some (upstream_returned response.status);
  },
  record {
    status = response.status;
    content_type = or_default response.content_type application_json;
    body = raw (take max_error_body response.body.bytes);
  },
)

-- The writes of a successful reply.
unfoldable pub json_reply : Text → Reply
json_reply body = record { status = 200; content_type = application_json; body = raw body }

-- What the reply path calls and does not implement.
pub record ReplyHost {ℓ} (V : Type ℓ) : Type ℓ where
  -- json.Unmarshal of decodeUpstreamResponse, into the DTO of a protocol
  pub decode : RelayFormat → Text → Option (ResponseDto V)
  -- relayconvert.ConvertResponse, by the value and the usage of its result
  pub convert : Meta → RelayFormat → ResponseDto V → Result (V × Option Usage)
  -- json.Marshal of protocol.EncodeResponse
  pub encode : V → Option Text
  -- relayconvert.UsageFromClaudeAPIUsage and UsageFromGeminiMetadata
  pub claude_usage : V → Option Usage
  pub gemini_usage : V → Option Usage

module _ {ℓ} {V : Type ℓ} (host : ReplyHost V) where
  open host use {decode, convert, encode, claude_usage, gemini_usage}

  -- usageOf
  usage_of : ResponseDto V → Option Usage
  usage_of (text_response u v) = some u
  usage_of (responses_response u v) = u
  usage_of (claude_response v) = claude_usage v
  usage_of (gemini_response has_metadata v) = if has_metadata then gemini_usage v else none

  record_decoded : Event → Option (ResponseDto V) → Event
  unfolding record_usage usage_of
  record_decoded e none = e
  record_decoded e (some v) = record_usage e (usage_of v)

  -- session.recordUsageFromBody
  record_usage_from_body : RelayFormat → Event → Text → Event
  unfolding record_decoded
  record_usage_from_body client e body =
      if is_empty body || ltb usage_extract_limit (length body)
      then e
      else record_decoded e (decode client body)

  module _ (latency : ℤ) (s : Session) where
    unfoldable pub reply_encoded : Event → Option Text → Event × Reply
    unfolding fail succeed json_reply
    reply_encoded e none = fail s.client latency e 500 conversion_error response_not_encoded
    reply_encoded e (some body) = (succeed latency e 200, json_reply body)

    unfoldable pub reply_converted : Event → Result (V × Option Usage) → Event × Reply
    unfolding reply_encoded record_usage
    reply_converted e (err t) =
        fail s.client latency e 502 conversion_error (cannot_convert_response t)
    reply_converted e (ok (v, usage)) = reply_encoded (record_usage e usage) (encode v)

    unfoldable pub reply_decoded : Event → Option (ResponseDto V) → Event × Reply
    unfolding reply_converted
    reply_decoded e none = fail s.client latency e 502 upstream_error bad_upstream_response
    reply_decoded e (some v) = reply_converted e (convert (new_meta s) s.client v)

    unfoldable pub reply_body : Event → Option Text → Event × Reply
    unfolding reply_decoded record_usage_from_body format_equal
    reply_body e none = fail s.client latency e 502 upstream_error read_upstream_response
    reply_body e (some body) =
        if format_equal s.client s.upstream
        then (succeed latency (record_usage_from_body s.client e body) 200, json_reply body)
        else reply_decoded e (decode s.upstream body)

    -- session.bufferedResponse
    unfoldable pub buffered_response : Event → Response → Event × Reply
    unfolding reply_body read_limited
    buffered_response e response =
        reply_body e (read_limited max_upstream_response_body response.body)
