-- ===== src/Protocol/Stream.antt =====
-- internal/protocol/stream.go: the events of a stream to and from the kernel's DTOs.
use newapi_box.Prelude.{if◌then◌else◌, List, [], ◌∷◌, Option, none, some, is_empty}
use newapi_box.Text.{Text, codes, equal}
use newapi_box.Config.{RelayFormat, openai, openai_responses, claude, gemini, other}
use newapi_box.Protocol.Sse.{Event}

abbrev done_sentinel : Text
done_sentinel = codes "[DONE]"

-- The results of DecodeStreamEvent: a value, nothing, the end, or an error.
pub data Decoded {ℓ} (V : Type ℓ) : Type ℓ where
  value : V → Decoded V
  nothing done malformed : Decoded V

-- The switch of EncodeStreamEvent; `name` is eventName of the value.
frames_of : RelayFormat → Text → Text → Option (List Event)
frames_of openai name payload = some (record { name = []; body = payload } ∷ [])
frames_of gemini name payload = some (record { name = []; body = payload } ∷ [])
frames_of openai_responses name payload = some (record { name = name; body = payload } ∷ [])
frames_of claude name payload =
    some (if is_empty name then [] else record { name = name; body = payload } ∷ [])
frames_of (other s) name payload = none

frames_of_encoded : RelayFormat → Text → Option Text → Option (List Event)
frames_of_encoded format name none = none
frames_of_encoded format name (some payload) = frames_of format name payload

-- A value of a stream by its DTO: *dto.ResponsesStreamResponse and *dto.ClaudeResponse with their
-- `type` fields, and any other.
pub data StreamDto : Type 0 where
  responses_event claude_event : Text → StreamDto
  other_event : StreamDto

-- eventName
event_name : StreamDto → Text
event_name (responses_event type) = type
event_name (claude_event type) = type
event_name other_event = []

module _ {ℓ} {V : Type ℓ} where
  or_malformed : Option V → Decoded V
  or_malformed none = malformed
  or_malformed (some v) = value v

  -- The choice of a DTO, and json.Unmarshal into it.
  unfoldable pub decode_body : (RelayFormat → Text → Option V) → RelayFormat → Text → Decoded V
  unfolding or_malformed
  decode_body unmarshal (other s) body = malformed
  decode_body unmarshal openai body = or_malformed (unmarshal openai body)
  decode_body unmarshal openai_responses body = or_malformed (unmarshal openai_responses body)
  decode_body unmarshal claude body = or_malformed (unmarshal claude body)
  decode_body unmarshal gemini body = or_malformed (unmarshal gemini body)

  -- DecodeStreamEvent
  unfoldable pub decode_stream_event :
      (RelayFormat → Text → Option V) → RelayFormat → Event → Decoded V
  unfolding decode_body equal
  decode_stream_event unmarshal format e =
      if equal e.body done_sentinel
      then done
      else if is_empty e.body
      then nothing
      else decode_body unmarshal format e.body

  -- EncodeStreamEvent, where `marshal` is json.Marshal; the value may be nil, and `none` is an
  -- error. `dto` tells the DTO of a value.
  unfoldable pub encode_stream_event :
      (V → Option Text) → (V → StreamDto) → RelayFormat → Option V → Option (List Event)
  unfolding frames_of frames_of_encoded event_name
  encode_stream_event marshal dto format none = some []
  encode_stream_event marshal dto format (some v) =
      frames_of_encoded format (event_name (dto v)) (marshal v)
