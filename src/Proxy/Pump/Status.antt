-- ===== src/Proxy/Pump/Status.antt =====
-- What the history records of a stream that has started.
use newapi_box.Prelude.{◌≡◌, refl, ◌∙◌, Bool, true, false, List, Option, none, some}
use newapi_box.Prelude.Int.{ℤ}
use newapi_box.Protocol.Sse.{Reader}
use newapi_box.Proxy.Types.{Result, ok, err, Message, stream_failed, client_disconnected}
use newapi_box.Proxy.Events.{Event}
use newapi_box.Proxy.Session.{Session, new_meta}
use newapi_box.Proxy.Reply.{Usage, record_usage}
use newapi_box.Proxy.Pump.{
  Wire, StreamHost, Pump, Outcome, broke, hung_up, out_of_fuel, Streamed, streamed, with_error,
  finish_stream, emit, after_final_emit, after_finalize, after_loop, with_state, stream_response,
}

-- A stream that has started is recorded with the status 200, which the client has got.
abbrev pub IsStarted : Streamed → Type 0
IsStarted (streamed e w) = e.status ≡ 200
IsStarted _ = Unit

with_error-status : (e : Event) (o : Option Message) → (with_error e o).status ≡ e.status
unfolding with_error
with_error-status e none = refl
with_error-status e (some m) = refl

record_usage-status : (e : Event) (o : Option Usage) → (record_usage e o).status ≡ e.status
unfolding record_usage
record_usage-status e none = refl
record_usage-status e (some u) = refl

module _ {ℓ} {V S : Type ℓ} (host : StreamHost V S) (latency : ℤ) (s : Session) where
  finish_stream-status :
      (e : Event) (state : S) (error : Option Message)
      → e.status ≡ 200
      → (finish_stream host latency s e state error).status ≡ 200
  unfolding finish_stream
  finish_stream-status e state error h =
      with_error-status _ error ∙ record_usage-status e (host.usage state) ∙ h

  after_final_emit-IsStarted :
      (e : Event) (state : S) (error : Option Message) (x : Wire × Bool)
      → e.status ≡ 200
      → IsStarted (after_final_emit host latency s e state error x)
  unfolding after_final_emit
  after_final_emit-IsStarted e state error (w, true) h = finish_stream-status e state error h
  after_final_emit-IsStarted e state error (w, false) h =
      finish_stream-status e state (some client_disconnected) h

  after_finalize-IsStarted :
      (e : Event) (p : Pump S) (x : Result (List (Option V)) × S)
      → e.status ≡ 200
      → IsStarted (after_finalize host latency s e p x)
  unfolding after_finalize
  after_finalize-IsStarted e p (err t, state) h =
      after_final_emit-IsStarted e state (some (stream_failed t)) (p.wire, true) h
  after_finalize-IsStarted e p (ok results, state) h =
      after_final_emit-IsStarted e state p.error (emit host s p.wire results) h

  after_loop-IsStarted :
      (e : Event) (x : Outcome S) → e.status ≡ 200 → IsStarted (after_loop host latency s e x)
  unfolding after_loop
  after_loop-IsStarted e (broke p) h =
      after_finalize-IsStarted e p (host.finalize (new_meta s) p.state) h
  after_loop-IsStarted e (hung_up p) h = finish_stream-status e p.state (some client_disconnected) h
  after_loop-IsStarted e out_of_fuel h = tt

  with_state-IsStarted :
      (e : Event) (w : Wire) (r : Reader) (x : Result S)
      → IsStarted (with_state host latency s e w r x)
  unfolding with_state
  with_state-IsStarted e w r (err t) = tt
  with_state-IsStarted e w r (ok state) = after_loop-IsStarted (record e { status = 200 }) _ refl

  pub stream_response-IsStarted :
      (flushes : Bool) (e : Event) (w : Wire) (r : Reader)
      → IsStarted (stream_response host latency s flushes e w r)
  unfolding stream_response
  stream_response-IsStarted true e w r = with_state-IsStarted e w r _
  stream_response-IsStarted false e w r = tt
