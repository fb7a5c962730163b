-- ===== src/Protocol/Surface.antt =====
-- internal/protocol/surface.go: which protocol a path speaks, and what a request says of its model
-- and of streaming. `P` stands for the fields of the kernel's DTOs that this code does not touch.
pub mod Match
pub mod Model
use newapi_box.Prelude.{
  ℕ, ◌==◌, Bool, true, false, not, ◌&&◌, ◌||◌, if◌then◌else◌, List, [], ◌∷◌, ◌++◌, Option, none,
  some, is_empty,
}
use newapi_box.Text.{Text, codes, equal, has_prefix, cut_prefix, has_suffix, cut}
use newapi_box.Config.{RelayFormat, openai, openai_responses, claude, gemini, other}

pub record InboundRoute : Type 0 where
  pub prefix : Text
  pub format : RelayFormat

abbrev pub chat_route : InboundRoute
chat_route = record { prefix = codes "/v1/chat/completions"; format = openai }

abbrev pub responses_route : InboundRoute
responses_route = record { prefix = codes "/v1/responses"; format = openai_responses }

abbrev pub messages_route : InboundRoute
messages_route = record { prefix = codes "/v1/messages"; format = claude }

-- inboundRoutes
abbrev inbound_routes : List InboundRoute
inbound_routes = chat_route ∷ responses_route ∷ messages_route ∷ []

abbrev pub gemini_path_prefix : Text
gemini_path_prefix = codes "/v1beta/models/"

-- The switch over the method of a Gemini path.
unfoldable pub check_method : Option (Text × Text) → Option Text
check_method none = none
check_method (some (model, method)) =
    if is_empty model
    then none
    else if equal method (codes "generateContent") || equal method (codes "streamGenerateContent")
    then some model
    else none

model_of_rest : Option Text → Option Text
unfolding check_method
model_of_rest none = none
model_of_rest (some rest) = check_method (cut rest b':')

-- geminiModelFromPath
unfoldable pub gemini_model_from_path : Text → Option Text
unfolding model_of_rest cut_prefix cut equal
gemini_model_from_path path = model_of_rest (cut_prefix path gemini_path_prefix)

-- The condition of the loop in MatchInbound.
unfoldable pub on_route : InboundRoute → Text → Bool
unfolding equal has_prefix
on_route r path = equal path r.prefix || has_prefix path (r.prefix ++ codes "/")

unfoldable pub as_gemini : Option Text → Option (RelayFormat × Text)
as_gemini none = none
as_gemini (some model) = some (gemini, model)

unfoldable pub match_routes : List InboundRoute → Text → Option (RelayFormat × Text)
unfolding on_route as_gemini gemini_model_from_path
match_routes [] path = as_gemini (gemini_model_from_path path)
match_routes (r ∷ rs) path = if on_route r path then some (r.format, []) else match_routes rs path

-- MatchInbound
unfoldable pub match_inbound : Text → Option (RelayFormat × Text)
unfolding match_routes
match_inbound path = match_routes inbound_routes path

-- dto.StreamOptions
pub record StreamOptions : Type 0 where
  pub include_usage : Bool
  pub include_obfuscation : Bool

-- A decoded request: the DTO of each protocol by its model and stream flag, or something else.
pub data Request {ℓ} (P : Type ℓ) : Type ℓ where
  chat : Text → Option Bool → Option StreamOptions → P → Request P
  responses : Text → Option Bool → P → Request P
  messages : Text → Option Bool → P → Request P
  gemini_chat : P → Request P
  unknown : P → Request P

-- flag != nil && *flag
abbrev is_set : Option Bool → Bool
is_set none = false
is_set (some b) = b

abbrev pub is_gemini : RelayFormat → Bool
is_gemini gemini = true
is_gemini _ = false

module _ {ℓ} {P : Type ℓ} where
  -- IsStreamRequest
  unfoldable pub is_stream_request : RelayFormat → Request P → Text → Bool
  unfolding has_suffix
  is_stream_request format (chat model stream options p) path = is_set stream
  is_stream_request format (responses model stream p) path = is_set stream
  is_stream_request format (messages model stream p) path = is_set stream
  is_stream_request format (gemini_chat p) path =
      is_gemini format && has_suffix path (codes ":streamGenerateContent")
  is_stream_request format (unknown p) path = false

  -- SetModel
  unfoldable pub set_model : Request P → Text → Request P
  set_model (chat old stream options p) model = chat model stream options p
  set_model (responses old stream p) model = responses model stream p
  set_model (messages old stream p) model = messages model stream p
  set_model (gemini_chat p) model = gemini_chat p
  set_model (unknown p) model = unknown p

  -- ClientModel; the protocol is not looked at
  unfoldable pub client_model : RelayFormat → Request P → Text → Text
  client_model format (chat model stream options p) path_model = model
  client_model format (responses model stream p) path_model = model
  client_model format (messages model stream p) path_model = model
  client_model format (gemini_chat p) path_model = path_model
  client_model format (unknown p) path_model = []

  -- DecodeRequest, where `unmarshal` is json.Unmarshal into the DTO of a protocol. `none` is an
  -- error, of the decoder or for a protocol without one.
  unfoldable pub decode_request :
      (RelayFormat → Text → Option (Request P)) → RelayFormat → Text → Option (Request P)
  decode_request unmarshal (other s) body = none
  decode_request unmarshal openai body = unmarshal openai body
  decode_request unmarshal openai_responses body = unmarshal openai_responses body
  decode_request unmarshal claude body = unmarshal claude body
  decode_request unmarshal gemini body = unmarshal gemini body
