-- ===== src/Proxy/Pump/Comes.antt =====
-- Every sequence of events comes to something.
use newapi_box.Prelude.{◌≡◌, inl, inr, refl, List, [], ◌∷◌, ◌++◌, Option, none, some}
use newapi_box.Protocol.Sse
use newapi_box.Protocol.Sse.{new_reader, write_data, write_event, write_done}
use newapi_box.Protocol.Stream.{Decoded, value, nothing, done, malformed}
use newapi_box.Proxy.Types.{Result, ok, err, Message, stream_failed}
use newapi_box.Proxy.Session.{Session, new_meta}
use newapi_box.Proxy.Pump.{StreamHost}
use newapi_box.Proxy.Pump.Relay.{frames, decode, Relays, over, skipped, ended, converted, broken}

module _ {ℓ} {V S : Type ℓ} (host : StreamHost V S) (s : Session) where
  -- The events come to something.
  abbrev pub Comes : S → List Sse.Event → Type ℓ
  Comes a es = (out : List Sse.Event) × (b : S) × (m : Option Message) × Relays host s a es out b m

  converted-Comes :
      (a : S) (e : Sse.Event) (es : List Sse.Event) (v : V) (x : Result (List (Option V)) × S)
      → decode host s e ≡ value v
      → host.convert (new_meta s) a v ≡ x
      → ((b : S) → Comes b es)
      → Comes a (e ∷ es)
  converted-Comes a e es v (ok rs, b) d c rest =
      let (out, z, m, r) = rest b in (frames host s rs ++ out, z, m, converted d c r)
  converted-Comes a e es v (err t, b) d c rest = ([], b, some (stream_failed t), broken d c)

  decoded-Comes :
      (a : S) (e : Sse.Event) (es : List Sse.Event) (d : Decoded V)
      → decode host s e ≡ d
      → ((b : S) → Comes b es)
      → Comes a (e ∷ es)
  decoded-Comes a e es (value v) h rest =
      converted-Comes a e es v (host.convert (new_meta s) a v) h refl rest
  decoded-Comes a e es nothing h rest =
      let (out, z, m, r) = rest a in (out, z, m, skipped (inl h) r)
  decoded-Comes a e es malformed h rest =
      let (out, z, m, r) = rest a in (out, z, m, skipped (inr h) r)
  decoded-Comes a e es done h rest = ([], a, none, ended h)

  pub Relays-Comes : (es : List Sse.Event) (a : S) → Comes a es
  Relays-Comes [] a = ([], a, none, over)
  Relays-Comes (e ∷ es) a = decoded-Comes a e es (decode host s e) refl (λ b. Relays-Comes es b)
