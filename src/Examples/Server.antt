-- ===== src/Examples/Server.antt =====
-- The server as a whole: requests to the console and the relay, and a run of several handlers.
use mathlib.Core.List.{Perm}
use newapi_box.Proxy.Admit.{Runtime, built, new_runtime}
use newapi_box.Prelude.{inl, inr, ◌≡◌, ℕ, refl, Bool, [], ◌∷◌, ◌++◌, some, arith, length}
use newapi_box.Text.{codes, trim_space, has_prefix, trim_prefix}
use newapi_box.Config.{Config}
use newapi_box.Config.Mask.{utf8, short, long}
use newapi_box.Config.Store.{current_of}
use newapi_box.Protocol.Surface.{match_inbound, decode_request, client_model, is_stream_request}
use newapi_box.Proxy.Types.{read_limited}
use newapi_box.Proxy.Session.{convert_request, build_upstream_request}
use newapi_box.Proxy.Admit.{presented, decode_inbound, authorized}
use newapi_box.Proxy.Serve.{serve_http}
use newapi_box.Proxy.Events.{new_event_log, record_event}
use newapi_box.Proxy.Events.History.{Refines}
use newapi_box.Admin.Access.{bearer, authorized as console_authorized}
use newapi_box.Admin.View.Shown.{SameShown}
use newapi_box.Admin.Routes.{route}
use newapi_box.Admin.Console.{Shared, ConsoleRequest, ConsoleHost, serve}
use newapi_box.Admin.Console.Effects.{IsEffect, serve-IsEffect}
use newapi_box.Admin.Console.Reports.{IsReport, serve-IsReport}
use newapi_box.Admin.View.{view_of}
use newapi_box.Admin.Console.Secrets.{SameState, serve-hides}
use newapi_box.System.{System, stored, Reach, here, later, begin, finish, swap, close_previous}
use newapi_box.System.Finished.{finished, recorded_by, Reach-Refines}
use newapi_box.System.Closed.{runtimes, published, Reach-closed}
use newapi_box.Proxy.Serve.Recorded.{protocol_of, IsRecordedAs, serve_http-IsRecordedAs}
use newapi_box.Examples.Data.{
  config, first_upstream, second_upstream, parse_duration, encode_config, smooth, store, runtime,
  credentials, host, client_request, probe_host,
}
use newapi_box.Examples.Running.{seed, flight}

abbrev console_host : ConsoleHost Bool Bool Bool ℕ
console_host = record {
  relay_host = host;
  probe_host = probe_host;
  parse_duration = parse_duration;
  encode = encode_config;
  answers = smooth;
  asset = some (codes "<html>");
  uptime = 5;
}

abbrev shared : Shared
shared = record { live = seed.live; log = new_event_log }

abbrev reading : ConsoleRequest
reading = record {
  client = record client_request { method = codes "GET"; path = codes "/admin/api/config" };
  since = [];
}

serve-IsEffect_example :
    IsEffect console_host shared reading
      (serve console_host shared reading).0
      (serve console_host shared reading).1
serve-IsEffect_example = serve-IsEffect console_host shared reading

-- A save of the configuration as it is shown.
abbrev saving : ConsoleRequest
saving = record {
  client = record client_request { method = codes "PUT"; path = codes "/admin/api/config" };
  since = [];
}

abbrev saving_host : ConsoleHost Bool Bool Bool ℕ
saving_host = record console_host {
  probe_host = record probe_host { decode = λ t. some (view_of config) };
}

has_bearer : bearer credentials ≡ trim_space (current_of (some store)).admin_key
unfolding trim_space trim_prefix current_of
has_bearer = refl

serve-IsReport_example :
    IsReport saving_host shared saving
      (serve saving_host shared saving).0
      (serve saving_host shared saving).1
serve-IsReport_example =
    serve-IsReport saving_host shared saving refl (inl refl) (inr (inl has_bearer))

-- The same configuration with another key of eight bytes.
abbrev other_config : Config
other_config = record config {
  upstreams = record first_upstream { api_key = codes "sk-other" } ∷ second_upstream ∷ [];
}

abbrev other_shared : Shared
other_shared = record shared {
  live = record seed.live { store = record store { current = some other_config } };
}

same_shown : SameShown config other_config
unfolding utf8 trim_space
same_shown = record {
  keys_alone = refl;
  same_admin = refl;
  same_access = refl;
  same_upstreams =
      ((refl, short refl (omega arith)), ((refl, long (omega arith) (omega arith) refl refl), tt));
}

same_state : SameState shared other_shared
unfolding current_of
same_state = record { same_log = refl; same_path = refl; same_shown = same_shown }

serve-hides_example :
    (serve console_host shared reading).1 ≡ (serve console_host other_shared reading).1
unfolding current_of route console_authorized has_prefix trim_space trim_prefix
serve-hides_example = serve-hides console_host shared other_shared reading same_state refl tt

abbrev calm : System
calm = record seed {
  log = record_event new_event_log (serve_http host (some runtime) client_request).logged;
}

abbrev finished_run : Reach Bool Bool Bool ℕ parse_duration encode_config seed calm
finished_run = later (later here (begin client_request)) (finish host [] [] flight refl)

abbrev waiting : System
waiting = record seed { savers = stored config ∷ [] }

one_finished : length (finished Bool Bool Bool ℕ parse_duration encode_config finished_run) ≡ 1
unfolding finished recorded_by serve_http match_inbound authorized trim_space presented
    decode_inbound read_limited decode_request client_model convert_request build_upstream_request
    is_stream_request
one_finished = refl

Reach-Refines_example :
    Refines (finished Bool Bool Bool ℕ parse_duration encode_config finished_run) calm.log
Reach-Refines_example =
    Reach-Refines Bool Bool Bool ℕ parse_duration encode_config finished_run refl
      (omega (arith, one_finished))

waiting_built : (rt : Runtime) × (new_runtime parse_duration config ≡ built rt)
unfolding new_runtime newapi_box.Config.Validate.request_timeout trim_space
    newapi_box.Config.active_upstream newapi_box.Text.equal
waiting_built = (_, refl)

applied_run : (t : System) × Reach Bool Bool Bool ℕ parse_duration encode_config waiting t
applied_run = (
  _,
  later (later here (swap [] [] config waiting_built.0 refl waiting_built.1))
      (close_previous [] [] (some runtime) refl),
)

Reach-closed_example :
    Perm
      (runtimes applied_run.0)
      (published Bool Bool Bool ℕ parse_duration encode_config applied_run.1 ++ runtimes waiting)
Reach-closed_example = Reach-closed Bool Bool Bool ℕ parse_duration encode_config applied_run.1

serve_http-IsRecordedAs_example :
    IsRecordedAs (protocol_of client_request) (serve_http host (some runtime) client_request)
serve_http-IsRecordedAs_example = serve_http-IsRecordedAs host (some runtime) client_request
