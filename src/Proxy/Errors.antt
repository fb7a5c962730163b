-- ===== src/Proxy/Errors.antt =====
-- internal/proxy/error.go: an error in the shape of the calling protocol.
use newapi_box.Prelude.{ℕ, ◌-◌, ◌==◌, leb, ◌&&◌, if◌then◌else◌, map}
use newapi_box.Text.{Text, codes}
use newapi_box.Config.{RelayFormat, openai, openai_responses, claude, gemini, other}
use newapi_box.Proxy.Types.{
  Code, code_name, Message, Payload, claude_error, gemini_error, openai_error, envelope, Reply,
}

-- claudeErrorType
claude_error_type : ℕ → Text
claude_error_type status =
    if status == 400
    then codes "invalid_request_error"
    else if status == 401
    then codes "authentication_error"
    else if status == 403
    then codes "permission_error"
    else if status == 404
    then codes "not_found_error"
    else if status == 429
    then codes "rate_limit_error"
    else codes "api_error"

-- strings.ToUpper on ASCII; the codes are ASCII
to_upper : ℕ → ℕ
to_upper c = if leb b'a' c && leb c b'z' then c - 32 else c

-- The switch in writeError.
unfoldable pub payload : RelayFormat → ℕ → Code → Message → Payload
unfolding claude_error_type to_upper code_name
payload claude status code message = claude_error (claude_error_type status) message
payload gemini status code message = gemini_error status message (map to_upper (code_name code))
payload openai status code message = openai_error message (code_name code) (code_name code)
payload openai_responses status code message =
    openai_error message (code_name code) (code_name code)
payload (other s) status code message = openai_error message (code_name code) (code_name code)

-- writeError
unfoldable pub write_error : RelayFormat → ℕ → Code → Message → Reply
unfolding payload
write_error format status code message = record {
  status = status;
  content_type = codes "application/json";
  body = envelope (payload format status code message);
}
