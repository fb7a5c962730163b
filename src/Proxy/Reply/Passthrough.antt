-- ===== src/Proxy/Reply/Passthrough.antt =====
-- What every reply has in common, and the hop between equal protocols.
use newapi_box.Prelude.{
  if_both, ℕ, ◌<◌, ◌≤◌, take, leb-true, ◌≡◌, refl, true, false, Option, none, some, length,
  leb-false,
}
use newapi_box.Prelude.Int.{ℤ}
use newapi_box.Text.{Text}
use newapi_box.Config.{format_equal}
use newapi_box.Proxy.Types.{Result, ok, err, read_limited, Code, Message, Reply}
use newapi_box.Proxy.Errors.{write_error}
use newapi_box.Proxy.Events.{Event}
use newapi_box.Proxy.Session.{Session, new_meta}
use newapi_box.Proxy.Reply.{
  Usage, succeed, record_usage, ResponseDto, Response, max_upstream_response_body, fail, json_reply,
  ReplyHost, reply_encoded, reply_converted, reply_decoded, reply_body, buffered_response,
}

-- What the client gets and what the history records agree.
pub data Agrees (s : Session) : Event × Reply → Type 0 where
  success :
      {r : Event × Reply} (body : Text) → r.1 ≡ json_reply body → r.0.status ≡ 200 → Agrees s r
  failure :
      {r : Event × Reply} (status : ℕ) (code : Code) (message : Message)
      → r.1 ≡ write_error s.client status code message
      → r.0.status ≡ status
      → r.0.error ≡ some message
      → Agrees s r

module _ {ℓ} {V : Type ℓ} (host : ReplyHost V) (latency : ℤ) (s : Session) where
  fail-Agrees :
      (e : Event) (status : ℕ) (code : Code) (message : Message)
      → Agrees s (fail s.client latency e status code message)
  unfolding fail
  fail-Agrees e status code message = failure status code message refl refl refl

  reply_encoded-Agrees : (e : Event) (o : Option Text) → Agrees s (reply_encoded host latency s e o)
  unfolding reply_encoded
  reply_encoded-Agrees e none = fail-Agrees e _ _ _
  reply_encoded-Agrees e (some body) = success body refl refl

  reply_converted-Agrees :
      (e : Event) (r : Result (V × Option Usage)) → Agrees s (reply_converted host latency s e r)
  unfolding reply_converted
  reply_converted-Agrees e (err t) = fail-Agrees e _ _ _
  reply_converted-Agrees e (ok (v, u)) = reply_encoded-Agrees (record_usage e u) (host.encode v)

  reply_decoded-Agrees :
      (e : Event) (o : Option (ResponseDto V)) → Agrees s (reply_decoded host latency s e o)
  unfolding reply_decoded
  reply_decoded-Agrees e none = fail-Agrees e _ _ _
  reply_decoded-Agrees e (some v) = reply_converted-Agrees e (host.convert (new_meta s) s.client v)

  reply_body-Agrees : (e : Event) (o : Option Text) → Agrees s (reply_body host latency s e o)
  unfolding reply_body
  reply_body-Agrees e none = fail-Agrees e _ _ _
  reply_body-Agrees e (some body) =
      if_both (Agrees s) (format_equal s.client s.upstream) _ _ (success body refl refl)
        (reply_decoded-Agrees e (host.decode s.upstream body))

  -- A reply to a request that is not streamed is either 200 with a JSON body, or an error in the
  -- shape of the client's protocol; and the history records the status that the client gets and,
  -- with an error, its message.
  pub buffered_response-Agrees :
      (e : Event) (response : Response) → Agrees s (buffered_response host latency s e response)
  unfolding buffered_response
  buffered_response-Agrees e response =
      reply_body-Agrees e (read_limited max_upstream_response_body response.body)

  -- Where the client speaks the upstream's protocol, a body that is read to its end and stays below
  -- the bound reaches the client byte for byte, whatever the decoder and the kernel make of it; of a
  -- longer one the client gets the bytes up to the bound, with the status of a success.
  pub buffered_response-passthrough :
      (e : Event) (status : ℕ) (content_type body : Text)
      → format_equal s.client s.upstream ≡ true
      → let r = buffered_response host latency s e (record {
        status = status;
        content_type = content_type;
        body = record { bytes = body; fails = false };
      }) in
        (length body < max_upstream_response_body → r.1 ≡ json_reply body)
        × (max_upstream_response_body ≤ length body
            → (r.1 ≡ json_reply (take max_upstream_response_body body)) × (r.0.status ≡ 200))
  unfolding buffered_response
  buffered_response-passthrough e status content_type body same = (
    λ short.
        rw (leb-false max_upstream_response_body (length body) short) (rw (same, reply_body) refl),
    λ long.
        rw (leb-true max_upstream_response_body (length body) long)
          (rw (same, reply_body) (unfold succeed in (refl, refl))),
  )
