-- ===== src/Examples/Running.antt =====
-- A server that runs with the configuration, and the history that it records.
use newapi_box.Prelude.{
  ◌++◌, ◌+◌, ℕ, ◌≡◌, ◌≢◌, ap, refl, Bool, true, [], ◌∷◌, none, some, arith, length,
}
use newapi_box.Text.{Text, codes, equal, trim_space, trim_right, has_prefix, trim_prefix}
use newapi_box.Config.{normalize, clone, find_upstream, active_upstream, normalize_upstream}
use newapi_box.Config.Validate.{validate, request_timeout}
use newapi_box.Config.File.{write_file}
use newapi_box.Config.Store.{current_of, save}
use newapi_box.Protocol.Surface.{match_inbound, decode_request, client_model, is_stream_request}
use newapi_box.Proxy.Types.{read_limited}
use newapi_box.Proxy.Session.{convert_request, build_upstream_request}
use newapi_box.Proxy.Admit.{presented, decode_inbound, authorized, Runtime, built, new_runtime}
use newapi_box.Proxy.Serve.{serve_http}
use newapi_box.Proxy.Events.{new_event_log, append_all, since, latest_seq}
use newapi_box.Proxy.Events.History.{Refines, recent, since-Refines, append_all-history}
use newapi_box.Admin.Access.{authorized as console_authorized}
use newapi_box.Admin.View.{View, view_of}
use newapi_box.Proxy.Events.Poll.{stamped}
use newapi_box.Admin.Routes.Following.{all_of, follow, follow_all}
use newapi_box.Admin.Routes.Polls.{get_events-skips}
use newapi_box.Admin.Routes.{get_events, save_config_api, route}
use newapi_box.Admin.Save.{next_config}
use newapi_box.System.{Flight, System, Reach, here, later, begin}
use newapi_box.System.Sanctioned.{IsSanctioned, Inv, Reach-Inv, sent-IsSanctioned}
use newapi_box.System.Race.{overlapping_saves}
use newapi_box.Examples.Data.{
  config, parse_duration, encode_config, smooth, store, runtime, credentials, event, host,
  client_request,
}

history : Refines (event ∷ event ∷ []) (append_all new_event_log (event ∷ event ∷ []))
history = append_all-history (event ∷ event ∷ []) (omega arith)

abbrev pub seed : System
seed = record {
  live = record { store = store; runtime = some runtime; closed = [] };
  log = new_event_log;
  flights = [];
  savers = [];
}

abbrev pub flight : Flight
flight = record { runtime = some runtime; request = client_request }

abbrev pub busy : System
busy = record seed { flights = flight ∷ [] }

pub busy-Reach : Reach Bool Bool Bool ℕ parse_duration encode_config seed busy
busy-Reach = later here (begin client_request)

one_sent : length (serve_http host (some runtime) client_request).sent ≡ 1
unfolding serve_http match_inbound authorized trim_space presented decode_inbound read_limited
    decode_request client_model convert_request build_upstream_request is_stream_request
one_sent = refl

pub sends : (serve_http host (some runtime) client_request).sent ≢ []
sends h = omega (arith, one_sent, ap length h)

abbrev shown : View
shown = view_of config

admitted :
    route (current_of (some store)) credentials (codes "/admin/api/config") (codes "PUT")
    ≡ save_config_api
unfolding current_of route console_authorized has_prefix trim_space trim_prefix
admitted = refl

abbrev moved : View
moved = record shown { listen = codes ":1" }

abbrev moved_again : View
moved_again = record shown { listen = codes ":2" }

both_saved :
    ((save parse_duration encode_config smooth store
        (some (next_config moved (current_of (some store))))).1
      ≡ none)
    × ((save parse_duration encode_config smooth
          (save parse_duration encode_config smooth store
            (some (next_config moved (current_of (some store))))).0
          (some (next_config moved_again (current_of (some store))))).1
        ≡ none)
unfolding save validate write_file normalize normalize_upstream trim_space request_timeout
    find_upstream active_upstream trim_right clone next_config view_of current_of
both_saved = (refl, refl)

rebuilt :
    (rt : Runtime) × (new_runtime parse_duration (next_config moved (current_of (some store)))
      ≡ built rt)
unfolding new_runtime request_timeout trim_space active_upstream next_config view_of equal
rebuilt = (_, refl)

one_yet : Refines (event ∷ []) (append_all new_event_log (event ∷ []))
one_yet = append_all-history (event ∷ []) (omega arith)

none_yet : Refines [] new_event_log
unfolding append_all
none_yet = append_all-history [] (omega arith)

since-Refines_example :
    (since (some (append_all new_event_log (event ∷ event ∷ []))) 1 ≡ recent (event ∷ event ∷ []) 1)
    × (latest_seq (some (append_all new_event_log (event ∷ event ∷ [])))
        ≡ length (event ∷ event ∷ []))
since-Refines_example =
    since-Refines (event ∷ event ∷ []) (append_all new_event_log (event ∷ event ∷ [])) 1 history

Reach-Inv_example : Inv parse_duration encode_config seed busy
Reach-Inv_example =
    Reach-Inv parse_duration encode_config Bool Bool Bool ℕ seed refl refl busy-Reach

sent-IsSanctioned_example :
    (rt : Runtime) × (flight.runtime ≡ some rt)
    × (authorized rt client_request.credentials ≡ true)
    × IsSanctioned parse_duration encode_config (some runtime) (some rt)
sent-IsSanctioned_example =
    sent-IsSanctioned parse_duration encode_config Bool Bool Bool ℕ seed host [] [] flight refl refl
      busy-Reach refl sends

rebuilt_again :
    (rt : Runtime) × (new_runtime parse_duration (next_config moved_again (current_of (some store)))
      ≡ built rt)
unfolding new_runtime request_timeout trim_space active_upstream next_config view_of equal
rebuilt_again = (_, refl)

overlapping_saves_example :
    (t : System) × (content : Text) × Reach Bool Bool Bool ℕ parse_duration encode_config seed t
    × (t.savers ≡ [])
    × (t.live.store.current ≡ some (normalize (next_config moved_again (current_of (some store)))))
    × (encode_config (normalize (next_config moved_again (current_of (some store)))) ≡ some content)
    × (t.live.store.disk.target ≡ some (content ++ b'\n' ∷ []))
    × (t.live.runtime ≡ some rebuilt.0)
overlapping_saves_example =
    overlapping_saves parse_duration encode_config Bool Bool Bool ℕ seed smooth smooth credentials
      (codes "/admin/api/config") (codes "PUT") moved moved_again admitted both_saved.0 both_saved.1
      rebuilt.1 rebuilt_again.1

-- A poll between whose reads one event comes, and the next one behind one more.
get_events-skips_example :
    let first = get_events (some new_event_log) (some (append_all new_event_log (event ∷ []))) 0 in
    (first.0 ≡ recent [] 0)
    × (first.1 ≡ 0 + 1)
    × ((get_events
          (some (append_all new_event_log (event ∷ event ∷ [])))
          (some (append_all new_event_log (event ∷ event ∷ [])))
          first.1).0
        ≡ stamped (0 + 1) (event ∷ []))
get_events-skips_example =
    get_events-skips [] (event ∷ []) (event ∷ []) new_event_log
      (append_all new_event_log (event ∷ [])) (append_all new_event_log (event ∷ event ∷ [])) 0
      none_yet one_yet history (omega arith)

follow_all_example :
    follow new_event_log 0 ((event ∷ []) ∷ (event ∷ event ∷ []) ∷ [])
    ≡ stamped 0 (all_of ((event ∷ []) ∷ (event ∷ event ∷ []) ∷ []))
follow_all_example =
    follow_all [] new_event_log ((event ∷ []) ∷ (event ∷ event ∷ []) ∷ []) none_yet
      (omega arith, (omega arith, tt)) (omega arith)
