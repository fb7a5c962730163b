-- ===== src/Proxy/Pump/Total.antt =====
-- The pump ends: a round for each line of the upstream's body, and one more, are enough.
use newapi_box.Prelude.{
  ℕ, zero, suc, ◌≤◌, ◌<◌, ◌≡◌, ◌≢◌, refl, ap, Bool, true, false, List, [], ◌∷◌, Option, some, arith,
  length, subst, ◌&&◌, if◌then◌else◌, is_empty,
}
use newapi_box.Prelude.Int.{ℤ}
use newapi_box.Text.{Text, trim_right}
use newapi_box.Protocol.Sse
use newapi_box.Protocol.Sse.{
  Reader, Frame, empty_frame, NextResult, read_frame, next, take_line, at_end,
}
use newapi_box.Protocol.Stream.{Decoded, value, nothing, done, malformed}
use newapi_box.Proxy.Types.{Result, ok, err, Message, stream_failed}
use newapi_box.Proxy.Events.{Event}
use newapi_box.Proxy.Session.{Session, new_meta}
use newapi_box.Proxy.Pump.{
  Wire, StreamHost, Pump, Outcome, broke, hung_up, out_of_fuel, after_emit, after_convert,
  after_decode, after_next, pump, stuck, after_final_emit, after_finalize, after_loop, with_state,
  stream_response, emit,
}

if-le :
    (b : Bool) (x y : NextResult × List Text) (n : ℕ)
    → length x.1 ≤ n
    → length y.1 ≤ n
    → length (if b then x else y).1 ≤ n
if-le true x y n hx hy = hx
if-le false x y n hx hy = hy

read_frame-cons :
    (l : Text) (ls : List Text) (f : Frame) (fails : Bool)
    → ((g : Frame) → length (read_frame g ls fails).1 ≤ length ls)
    → length (read_frame f (l ∷ ls) fails).1 ≤ length ls
unfolding read_frame
read_frame-cons l ls f fails ih =
    if-le (is_empty (trim_right l b'\r') && f.saw_any) _ _ _ (omega arith)
      (ih (if is_empty (trim_right l b'\r') then f else take_line f (trim_right l b'\r')))

read_frame-le :
    (ls : List Text) (f : Frame) (fails : Bool) → length (read_frame f ls fails).1 ≤ length ls
unfolding read_frame
read_frame-le [] f fails = omega arith
read_frame-le (l ∷ ls) f fails =
    omega (arith, read_frame-cons l ls f fails (λ g. read_frame-le ls g fails))

next-lt_lines :
    (ls : List Text) (fails : Bool) (e : Sse.Event)
    → (read_frame empty_frame ls fails).0 ≡ Sse.NextResult.event e
    → length (read_frame empty_frame ls fails).1 < length ls
next-lt_lines [] fails e h = absurd (unfold read_frame in ground arith)
next-lt_lines (l ∷ ls) fails e h =
    omega (arith, read_frame-cons l ls empty_frame fails (λ g. read_frame-le ls g fails))

-- An event uses up at least one line.
pub next-lt :
    (r : Reader) (e : Sse.Event) (q : Reader)
    → next r ≡ (Sse.NextResult.event e, q)
    → length q.lines < length r.lines
unfolding next
next-lt r e q h =
    subst (λ (x : Reader). length x.lines < length r.lines) (ap (λ x. x.1) h)
      (next-lt_lines r.lines r.fails e (ap (λ x. x.0) h))

-- The outcome is not for want of fuel.
abbrev pub IsOver {ℓ} : {S : Type ℓ} → Outcome S → Type 0
IsOver out_of_fuel = ⊥
IsOver _ = Unit

module _ {ℓ} {V S : Type ℓ} (host : StreamHost V S) (s : Session) where
  after_emit-IsOver :
      (p : Pump S) (go : Pump S → Outcome S) (x : Wire × Bool)
      → ((q : Pump S) → IsOver (go q))
      → IsOver (after_emit host s p go x)
  unfolding after_emit
  after_emit-IsOver p go (w, true) h = h _
  after_emit-IsOver p go (w, false) h = tt

  after_convert-IsOver :
      (p : Pump S) (go : Pump S → Outcome S) (x : Result (List (Option V)) × S)
      → ((q : Pump S) → IsOver (go q))
      → IsOver (after_convert host s p go x)
  unfolding after_convert
  after_convert-IsOver p go (err t, state) h = tt
  after_convert-IsOver p go (ok rs, state) h = after_emit-IsOver (record p { state = state }) go _ h

  after_decode-IsOver :
      (p : Pump S) (go : Pump S → Outcome S) (d : Decoded V)
      → ((q : Pump S) → IsOver (go q))
      → IsOver (after_decode host s p go d)
  unfolding after_decode
  after_decode-IsOver p go malformed h = h p
  after_decode-IsOver p go nothing h = h p
  after_decode-IsOver p go done h = tt
  after_decode-IsOver p go (value v) h =
      after_convert-IsOver p go (host.convert (new_meta s) p.state v) h

  after_next-IsOver :
      (p : Pump S) (go : Reader → Pump S → Outcome S) (x : NextResult × Reader)
      → ((e : Sse.Event) (r : Reader) (q : Pump S)
          → x ≡ (Sse.NextResult.event e, r)
          → IsOver (go r q))
      → IsOver (after_next host s p go x)
  unfolding after_next
  after_next-IsOver p go (Sse.NextResult.finished, r) h = tt
  after_next-IsOver p go (Sse.NextResult.failed, r) h = tt
  after_next-IsOver p go (Sse.NextResult.event e, r) h =
      after_decode-IsOver p (go r) _ (λ q. h e r q refl)

  -- Whatever the upstream sends and the kernel and the client do, the loop ends within one round
  -- more than the upstream's body has lines.
  pump-IsOver :
      (fuel : ℕ) (r : Reader) (p : Pump S) → length r.lines < fuel → IsOver (pump host s fuel r p)
  unfolding pump
  pump-IsOver zero r p h = absurd (omega arith)
  pump-IsOver (suc fuel) r p h =
      after_next-IsOver p _ (next r)
        (λ e q p' x. pump-IsOver fuel q p' (omega (arith, next-lt r e q x)))

module _ {ℓ} {V S : Type ℓ} (host : StreamHost V S) (latency : ℤ) (s : Session) where
  after_final_emit-ne-stuck :
      (e : Event) (state : S) (m : Option Message) (x : Wire × Bool)
      → after_final_emit host latency s e state m x ≢ stuck
  unfolding after_final_emit
  after_final_emit-ne-stuck e state m (w, true) h = cc
  after_final_emit-ne-stuck e state m (w, false) h = cc

  after_finalize-ne-stuck :
      (e : Event) (p : Pump S) (x : Result (List (Option V)) × S)
      → after_finalize host latency s e p x ≢ stuck
  unfolding after_finalize
  after_finalize-ne-stuck e p (err t, state) =
      after_final_emit-ne-stuck e state (some (stream_failed t)) (p.wire, true)
  after_finalize-ne-stuck e p (ok rs, state) =
      after_final_emit-ne-stuck e state p.error (emit host s p.wire rs)

  after_loop-ne-stuck :
      (e : Event) (o : Outcome S) → IsOver o → after_loop host latency s e o ≢ stuck
  unfolding after_loop
  after_loop-ne-stuck e (broke p) over h =
      after_finalize-ne-stuck e p (host.finalize (new_meta s) p.state) h
  after_loop-ne-stuck e (hung_up p) over h = cc
  after_loop-ne-stuck e out_of_fuel over h = absurd over

  with_state-ne-stuck :
      (e : Event) (w : Wire) (r : Reader) (o : Result S) → with_state host latency s e w r o ≢ stuck
  unfolding with_state
  with_state-ne-stuck e w r (err t) h = cc
  with_state-ne-stuck e w r (ok state) h =
      after_loop-ne-stuck _ _ (pump-IsOver host s (suc (length r.lines)) r _ (omega arith)) h

  -- streamResponse comes to an end: it refuses to start, or has streamed.
  pub stream_response-ne-stuck :
      (flushes : Bool) (e : Event) (w : Wire) (r : Reader)
      → stream_response host latency s flushes e w r ≢ stuck
  unfolding stream_response
  stream_response-ne-stuck true e w r h = with_state-ne-stuck e w r _ h
  stream_response-ne-stuck false e w r h = cc
