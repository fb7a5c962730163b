-- ===== src/Examples/Start.antt =====
-- A start whose file holds the configuration.
use newapi_box.Prelude.{◌≡◌, refl, ap, [], ◌∷◌, ℕ, Bool, true, some, arith, length}
use newapi_box.Text.{Text, codes, trim_space, trim_right, trim_prefix}
use newapi_box.Config.{Config, normalize, clone, normalize_upstream, find_upstream, active_upstream}
use newapi_box.Config.Validate.{validate, request_timeout}
use newapi_box.Listen.{resolve_listen}
use newapi_box.Protocol.Surface.{match_inbound, decode_request, client_model, is_stream_request}
use newapi_box.Proxy.Types.{read_limited}
use newapi_box.Proxy.Session.{convert_request, build_upstream_request}
use newapi_box.Proxy.Serve.{serve_http}
use newapi_box.Proxy.Admit.Bounds.{IsBounded}
use newapi_box.Proxy.Admit.{presented, decode_inbound, authorized, Runtime, new_runtime}
use newapi_box.System.{Flight, Reach, here, later, begin}
use newapi_box.System.Started.{seed_of, started-IsBounded}
use newapi_box.Config.Load.{FileRead, file_content, load_or_init}
use newapi_box.Config.Store.{new_store}
use newapi_box.Startup.{Running, running, start}
use newapi_box.Proxy.Serve.Caller.{via}
use newapi_box.Examples.Data.{
  parse_duration, decode_config, encode_config, disk, host, client_request,
}

abbrev file : FileRead
file = file_content (codes "{}")

started :
    (r : Running) × (start parse_duration decode_config (codes "c") disk true (codes "80") [] file
      ≡ running r)
unfolding start load_or_init validate normalize clone normalize_upstream trim_space request_timeout
    find_upstream active_upstream trim_right resolve_listen trim_prefix new_runtime new_store
started = (_, refl)

-- A start with -listen, which takes the place of the file's address.
given :
    (r : Running) × (start parse_duration decode_config
        (codes "c")
        disk
        true
        []
        (codes " :81 ")
        file
      ≡ running r)
unfolding start load_or_init validate normalize clone normalize_upstream trim_space request_timeout
    find_upstream active_upstream trim_right resolve_listen trim_prefix new_runtime new_store
given = (_, refl)

abbrev first_flight : Flight
first_flight = record { runtime = some started.0.runtime; request = client_request }

begun :
    Reach Bool Bool Bool ℕ parse_duration encode_config
      (seed_of started.0)
      (record (seed_of started.0) { flights = first_flight ∷ [] })
begun = later here (begin client_request)

one_sent : length (serve_http host (some started.0.runtime) client_request).sent ≡ 1
unfolding started serve_http match_inbound authorized trim_space presented decode_inbound
    read_limited decode_request client_model convert_request build_upstream_request
    is_stream_request normalize clone normalize_upstream trim_right
one_sent = refl

started-IsBounded_example :
    (rt : Runtime) × (first_flight.runtime ≡ some rt)
    × (authorized rt client_request.credentials ≡ true)
    × IsBounded rt
    × (serve_http (via rt.client host) first_flight.runtime client_request
        ≡ serve_http host first_flight.runtime client_request)
started-IsBounded_example =
    started-IsBounded parse_duration decode_config (codes "c") disk Bool Bool Bool ℕ encode_config
      true (codes "80") [] file host [] [] first_flight started.1 begun refl
      (λ h. omega (arith, one_sent, ap length h))
