-- ===== src/Admin/Console/Effects.antt =====
-- What a request to the server may do: which requests reach the state or an upstream.
use newapi_box.Prelude.{
  ◌^◌, ◌≤◌, ◌≡◌, ◌⊎◌, inl, inr, refl, sym, ap, subst, List, [], Option, none, some, length,
}
use newapi_box.Text.{Text, codes}
use newapi_box.Proxy.Session.{UpstreamRequest}
use newapi_box.Proxy.Events.{Event, append, record_event}
use newapi_box.Proxy.Serve.{Served}
use newapi_box.Proxy.Serve.Gate.{
  IsRefusal, IsAdmitted, IsRecorded, serve_http-cases, handle-IsRecorded,
}
use newapi_box.Proxy.Types.{read_limited}
use newapi_box.Admin.View.{View}
use newapi_box.Admin.Save.{save_config}
use newapi_box.Admin.Probe.Send.Outcome.{IsProbe, test_upstream-IsProbe}
use newapi_box.Admin.Routes.{
  Route, relay, page, unauthorized, unknown_endpoint, status_api, get_config_api, save_config_api,
  test_api, events_api,
}
use newapi_box.Admin.Console.Keys.{HasKey, LacksKey, IsOutside, IsWrite, Comes, route-Comes}
use newapi_box.Admin.Console.{
  fixed_error, Written, write_json, serve_ui, Shared, ConsoleRequest, Handled, written, relayed,
  ConsoleHost, save_decoded, save_read, respond, serve,
}

module _ {ℓ} {P V W S : Type ℓ} (host : ConsoleHost P V W S) where
  -- What a request does to the state `s`, which is `t` behind it.
  pub data IsEffect (s : Shared) (r : ConsoleRequest) (t : Shared) : Handled → Type ℓ where
    shows_page : IsOutside r → t ≡ s → IsEffect s r t (written (serve_ui host.asset) [])
    denies :
        LacksKey s r
        → t ≡ s
        → IsEffect s r t
            (written (write_json 401 (fixed_error (codes "invalid or missing admin key"))) [])
    answers : {w : Written} → HasKey s r → t ≡ s → IsEffect s r t (written w [])
    probes :
        {w : Written} {sent : List UpstreamRequest}
        → HasKey s r
        → t ≡ s
        → IsProbe host.probe_host sent
        → IsEffect s r t (written w sent)
    saves :
        {w : Written} {body : Text} {v : View}
        → HasKey s r
        → IsWrite r
        → read_limited (2 ^ 20) r.client.body ≡ some body
        → host.probe_host.decode body ≡ some v
        → t ≡ record s {
          live = (save_config host.parse_duration host.encode host.answers s.live v).0;
        }
        → IsEffect s r t (written w [])
    refuses : {x : Served} → IsOutside r → IsRefusal x → t ≡ s → IsEffect s r t (relayed x)
    relays :
        {x : Served} {e : Event}
        → IsOutside r
        → IsAdmitted host.relay_host s.live.runtime r.client x
        → length x.sent ≤ 1
        → x.logged ≡ some e
        → t ≡ record s { log = append s.log e }
        → IsEffect s r t (relayed x)

  relayed-IsEffect :
      (s : Shared) (r : ConsoleRequest) (x : Served)
      → IsOutside r
      → IsRefusal x ⊎ IsAdmitted host.relay_host s.live.runtime r.client x
      → IsEffect s r (record s { log = record_event s.log x.logged }) (relayed x)
  unfolding record_event
  relayed-IsEffect s r x out (inl refused) =
      refuses out refused (ap (λ o. record s { log = record_event s.log o }) refused.1)
  relayed-IsEffect s r x out (inr admitted) =
      let recorded : IsRecorded host.relay_host x =
        subst (IsRecorded host.relay_host) (sym admitted.handled)
          (handle-IsRecorded host.relay_host admitted.session _ admitted.request) in
      relays out admitted recorded.0 recorded.1.1
        (ap (λ o. record s { log = record_event s.log o }) recorded.1.1)

  decoded-IsEffect :
      (s : Shared) (r : ConsoleRequest) (body : Text) (o : Option View)
      → HasKey s r × IsWrite r
      → read_limited (2 ^ 20) r.client.body ≡ some body
      → host.probe_host.decode body ≡ o
      → IsEffect s r (save_decoded host s o).0 (save_decoded host s o).1
  unfolding save_decoded
  decoded-IsEffect s r body none g read e = answers g.0 refl
  decoded-IsEffect s r body (some v) g read e = saves g.0 g.1 read e refl

  read-IsEffect :
      (s : Shared) (r : ConsoleRequest) (o : Option Text)
      → HasKey s r × IsWrite r
      → read_limited (2 ^ 20) r.client.body ≡ o
      → IsEffect s r (save_read host s o).0 (save_read host s o).1
  unfolding save_read
  read-IsEffect s r none g read = answers g.0 refl
  read-IsEffect s r (some body) g read =
      decoded-IsEffect s r body (host.probe_host.decode body) g read refl

  respond-IsEffect :
      (s : Shared) (r : ConsoleRequest) (x : Route)
      → Comes s r x
      → IsEffect s r (respond host s r x).0 (respond host s r x).1
  unfolding respond Comes
  respond-IsEffect s r relay g =
      relayed-IsEffect s r _ g (serve_http-cases host.relay_host s.live.runtime r.client)
  respond-IsEffect s r page g = shows_page g refl
  respond-IsEffect s r unauthorized g = denies g refl
  respond-IsEffect s r unknown_endpoint g = answers g refl
  respond-IsEffect s r status_api g = answers g refl
  respond-IsEffect s r get_config_api g = answers g refl
  respond-IsEffect s r save_config_api g = read-IsEffect s r _ g refl
  respond-IsEffect s r test_api g =
      probes g refl (test_upstream-IsProbe host.probe_host _ r.client.method _)
  respond-IsEffect s r events_api g = answers g refl

  -- Every request to the server does one of these. On a path outside the console's API it is shown
  -- the page, or the relay refuses it with nothing sent and nothing changed, or the relay admits it,
  -- sends at most one request and appends one event. On a path of the API, if the console has a key
  -- that neither header carries, it gets the status 401 and a fixed error; otherwise it is answered
  -- with nothing sent and nothing changed, or sends a probe (at most one request, with the body `{}`)
  -- and changes nothing, or, with the method PUT or POST and a body that is read within 2^20 bytes
  -- and decodes, saves as saveConfig does and sends nothing.
  pub serve-IsEffect :
      (s : Shared) (r : ConsoleRequest) → IsEffect s r (serve host s r).0 (serve host s r).1
  unfolding serve
  serve-IsEffect s r = respond-IsEffect s r _ (route-Comes s r)
