-- ===== src/Proxy/Types.antt =====
-- What the relay path and the HTTP library hand to one another.
use newapi_box.Prelude.{
  ℕ, leb, Bool, if◌then◌else◌, List, [], ◌∷◌, Option, none, some, length, take,
}
use newapi_box.Text.{Text, codes, equal}

-- A result, or the text of an error.
pub data Result {ℓ} (A : Type ℓ) : Type ℓ where
  ok : A → Result A
  err : Text → Result A

-- A body as a reader: the bytes that it yields, and then its end or an error.
pub record Source : Type 0 where
  pub bytes : Text
  pub fails : Bool

-- io.ReadAll(io.LimitReader(body, n)): `none` is an error
unfoldable pub read_limited : ℕ → Source → Option Text
read_limited n s =
    if leb n (length s.bytes) then some (take n s.bytes) else if s.fails then none else some s.bytes

-- The codes that writeError is called with.
pub data Code : Type 0 where
  method_not_allowed not_found not_configured authentication_error : Code
  invalid_request_error upstream_error conversion_error : Code

unfoldable pub code_name : Code → Text
code_name method_not_allowed = codes "method_not_allowed"
code_name not_found = codes "not_found"
code_name not_configured = codes "not_configured"
code_name authentication_error = codes "authentication_error"
code_name invalid_request_error = codes "invalid_request_error"
code_name upstream_error = codes "upstream_error"
code_name conversion_error = codes "conversion_error"

-- The messages of errors, by their format strings in the source, with the texts that fill them.
pub data Message : Type 0 where
  only_post no_upstream invalid_key no_model no_flusher : Message
  unsupported_path : Text → Message
  read_request_body bad_request_body : Message
  cannot_convert : Text → Message
  request_not_built : Message
  upstream_request_failed : Text → Message
  read_upstream_response bad_upstream_response : Message
  cannot_convert_response : Text → Message
  response_not_encoded : Message
  cannot_convert_stream : Text → Message
  upstream_returned : ℕ → Message
  stream_failed : Text → Message
  stream_not_read client_disconnected : Message

-- The three JSON shapes of an error.
pub data Payload : Type 0 where
  claude_error : Text → Message → Payload
  gemini_error : ℕ → Message → Text → Payload
  openai_error : Message → Text → Text → Payload

pub data Body : Type 0 where
  envelope : Payload → Body
  raw : Text → Body

-- What the client gets, but for the frames of a stream.
pub record Reply : Type 0 where
  pub status : ℕ
  pub content_type : Text
  pub body : Body

-- http.Header with its keys in canonical form
abbrev pub HeaderMap : Type 0
HeaderMap = List (Text × Text)

-- Header.Set; `canonical` is http.CanonicalHeaderKey
unfoldable pub set_key : HeaderMap → Text → Text → HeaderMap
set_key [] k v = (k, v) ∷ []
set_key ((j, w) ∷ m) k v = if equal j k then (k, v) ∷ m else (j, w) ∷ set_key m k v

unfoldable pub set_header : (Text → Text) → HeaderMap → Text → Text → HeaderMap
unfolding set_key
set_header canonical m name value = set_key m (canonical name) value

-- The headers of a client's request that the code reads, "" where there is none.
pub record Credentials : Type 0 where
  pub authorization : Text
  pub x_api_key : Text
  pub x_admin_key : Text
