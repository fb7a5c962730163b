-- ===== src/Proxy/Pump.antt =====
-- internal/proxy/response.go: streamResponse, which pumps the upstream's events through the kernel
-- to the client.
pub mod Total
pub mod Status
pub mod Relay
pub mod Comes
pub mod Delivery
pub mod Hangup
pub mod Prefix
pub mod Disconnect
use newapi_box.Prelude.{
  ℕ, zero, suc, ◌-◌, ◌==◌, Bool, true, false, if◌then◌else◌, List, [], ◌∷◌, ◌++◌, is_empty, Option,
  none, some, length,
}
use newapi_box.Prelude.Int.{ℤ}
use newapi_box.Text.{Text, codes}
use newapi_box.Config.{RelayFormat, openai, openai_responses, claude, gemini, other}
use newapi_box.Protocol.Sse
use newapi_box.Protocol.Sse.{Reader, NextResult, next, write_data, write_done}
use newapi_box.Protocol.Stream.{
  StreamDto, Decoded, value, nothing, done, malformed, decode_stream_event, encode_stream_event,
}
use newapi_box.Proxy.Types.{
  Result, ok, err, Code, conversion_error, Message, stream_failed, stream_not_read,
  client_disconnected, cannot_convert_stream, no_flusher,
}
use newapi_box.Proxy.Events.{Event}
use newapi_box.Proxy.Session.{Session, Meta, new_meta}
use newapi_box.Proxy.Reply.{Usage, record_usage}

-- The client's side: the bytes that it was sent, and the number of writes that it takes before it
-- hangs up, if it does. A write to a client that has hung up delivers nothing.
pub record Wire : Type 0 where
  pub sent : Text
  pub room : Option ℕ

write_to : Option ℕ → Wire → Text → Wire × Bool
write_to none w t = (record w { sent = w.sent ++ t }, true)
write_to (some zero) w t = (w, false)
write_to (some (suc n)) w t = (record { sent = w.sent ++ t; room = some n }, true)

-- io.WriteString; false is an error
write_string : Wire → Text → Wire × Bool
unfolding write_to
write_string w t = write_to w.room w t

-- The strings that writeEvent writes one after the other.
event_strings : Sse.Event → List Text
unfolding write_data
event_strings e =
    if is_empty e.name
    then write_data e.body ∷ []
    else (codes "event: " ++ (e.name ++ codes "\n")) ∷ write_data e.body ∷ []

-- Writes up to the first that fails.
write_strings : Wire → List Text → Wire × Bool
unfolding write_string
write_strings w [] = (w, true)
write_strings w (t ∷ ts) =
    let (w', written) = write_string w t in
    let rest = write_strings w' ts in if written then rest else (w', false)

-- The loop over the events of one result.
write_frames : Wire → List Sse.Event → Wire × Bool
unfolding write_strings event_strings
write_frames w [] = (w, true)
write_frames w (e ∷ es) =
    let (w', written) = write_strings w (event_strings e) in
    let rest = write_frames w' es in if written then rest else (w', false)

-- What the stream calls and does not implement; `S` is the kernel's ResponseStreamState, which the
-- calls change.
pub record StreamHost {ℓ} (V S : Type ℓ) : Type ℓ where
  -- relayconvert.NewResponseStreamState, for the upstream's and the client's protocol and a model
  pub new_state : RelayFormat → RelayFormat → Text → Result S
  -- json.Unmarshal into the DTO of a protocol
  pub unmarshal : RelayFormat → Text → Option V
  -- relayconvert.ConvertStreamResponseChunk, with the metadata of the session; a result's value may be nil
  pub convert : Meta → S → V → Result (List (Option V)) × S
  -- relayconvert.FinalizeStreamResponse
  pub finalize : Meta → S → Result (List (Option V)) × S
  -- ResponseStreamState.Usage
  pub usage : S → Option Usage
  -- json.Marshal, and which DTO a value is
  pub marshal : V → Option Text
  pub dto : V → StreamDto

-- The state of streamResponse: the kernel's, the client's side, and streamErr.
pub record Pump {ℓ} (S : Type ℓ) : Type ℓ where
  pub state : S
  pub wire : Wire
  pub error : Option Message

-- How the loop ends: by a break, by the client's hanging up, or for want of fuel.
pub data Outcome {ℓ} (S : Type ℓ) : Type ℓ where
  broke : Pump S → Outcome S
  hung_up : Pump S → Outcome S
  out_of_fuel : Outcome S

module _ {ℓ} {V S : Type ℓ} (host : StreamHost V S) (s : Session) where
  open host use {unmarshal, convert, finalize, usage, marshal, dto}

  -- A result that is not encoded is passed over.
  frames_or_none : Option (List Sse.Event) → List Sse.Event
  frames_or_none none = []
  frames_or_none (some es) = es

  -- The closure emit; false means that the client hung up.
  unfoldable pub emit : Wire → List (Option V) → Wire × Bool
  unfolding write_frames frames_or_none encode_stream_event
  emit w [] = (w, true)
  emit w (r ∷ rs) =
      let (w', written) =
        write_frames w (frames_or_none (encode_stream_event marshal dto s.client r)) in
      let rest = emit w' rs in if written then rest else (w', false)

  unfoldable pub after_emit : Pump S → (Pump S → Outcome S) → Wire × Bool → Outcome S
  after_emit p go (w, true) = go (record p { wire = w })
  after_emit p go (w, false) = hung_up (record p { wire = w })

  -- The part of the loop's body behind the conversion.
  unfoldable pub after_convert :
      Pump S → (Pump S → Outcome S) → Result (List (Option V)) × S → Outcome S
  unfolding after_emit
  after_convert p go (err t, state) =
      broke (record p { state = state; error = some (stream_failed t) })
  after_convert p go (ok results, state) =
      after_emit (record p { state = state }) go (emit p.wire results)

  -- The part behind DecodeStreamEvent; `go` is the next round.
  unfoldable pub after_decode : Pump S → (Pump S → Outcome S) → Decoded V → Outcome S
  unfolding after_convert
  after_decode p go malformed = go p
  after_decode p go nothing = go p
  after_decode p go done = broke p
  after_decode p go (value v) = after_convert p go (convert (new_meta s) p.state v)

  unfoldable pub after_next :
      Pump S → (Reader → Pump S → Outcome S) → NextResult × Reader → Outcome S
  unfolding after_decode decode_stream_event
  after_next p go (Sse.NextResult.finished, r) = broke p
  after_next p go (Sse.NextResult.failed, r) = broke (record p { error = some stream_not_read })
  after_next p go (Sse.NextResult.event e, r) =
      after_decode p (go r) (decode_stream_event unmarshal s.upstream e)

  -- The loop of streamResponse.
  unfoldable pub pump : ℕ → Reader → Pump S → Outcome S
  unfolding after_next
  pump zero r p = out_of_fuel
  pump (suc fuel) r p = after_next p (λ q p'. pump fuel q p') (next r)

-- What streamResponse leaves: a reply that is no stream, or a status of 200 with the bytes sent.
pub data Streamed : Type 0 where
  not_started : ℕ → Code → Message → Streamed
  streamed : Event → Wire → Streamed
  stuck : Streamed

-- if streamErr != ""
with_error : Event → Option Message → Event
with_error e none = e
with_error e (some m) = record e { error = some m }

module _ {ℓ} {V S : Type ℓ} (host : StreamHost V S) (latency : ℤ) (s : Session) where
  open host use {new_state, finalize, usage}

  -- session.finishStream
  finish_stream : Event → S → Option Message → Event
  unfolding record_usage with_error
  finish_stream e state error =
      with_error (record (record_usage e (usage state)) { latency_ms = latency }) error

  -- The sentinel that OpenAI clients wait for; an error of the write is not looked at.
  send_done : RelayFormat → Wire → Wire
  unfolding write_string write_done
  send_done openai w = (write_string w write_done).0
  send_done _ w = w

  unfoldable pub after_final_emit : Event → S → Option Message → Wire × Bool → Streamed
  unfolding finish_stream send_done
  after_final_emit e state error (w, true) =
      streamed (finish_stream e state error) (send_done s.client w)
  after_final_emit e state error (w, false) =
      streamed (finish_stream e state (some client_disconnected)) w

  -- FinalizeStreamResponse and what follows.
  unfoldable pub after_finalize : Event → Pump S → Result (List (Option V)) × S → Streamed
  unfolding after_final_emit
  after_finalize e p (err t, state) =
      after_final_emit e state (some (stream_failed t)) (p.wire, true)
  after_finalize e p (ok results, state) =
      after_final_emit e state p.error (emit host s p.wire results)

  -- The part of streamResponse behind the loop.
  unfoldable pub after_loop : Event → Outcome S → Streamed
  unfolding after_finalize
  after_loop e (broke p) = after_finalize e p (finalize (new_meta s) p.state)
  after_loop e (hung_up p) = streamed (finish_stream e p.state (some client_disconnected)) p.wire
  after_loop e out_of_fuel = stuck

  unfoldable pub with_state : Event → Wire → Reader → Result S → Streamed
  unfolding after_loop
  with_state e w r (err t) = not_started 400 conversion_error (cannot_convert_stream t)
  with_state e w r (ok state) =
      after_loop (record e { status = 200 })
        (pump host s (suc (length r.lines)) r (record { state = state; wire = w; error = none }))

  -- session.streamResponse, over the reader of the upstream's body; `flushes` is whether the
  -- response writer is a Flusher
  unfoldable pub stream_response : Bool → Event → Wire → Reader → Streamed
  unfolding with_state
  stream_response flushes e w r =
      if flushes
      then with_state e w r (new_state s.upstream s.client s.upstream_model)
      else not_started 500 conversion_error no_flusher
