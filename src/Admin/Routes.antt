-- ===== src/Admin/Routes.antt =====
-- internal/admin/admin.go: which handler a request gets, the status and the history that the console
-- is shown. A handler is a constructor here; what each of them does stands in Admin/Console.
pub mod Guard
pub mod Polls
pub mod Following
use newapi_box.Prelude.{
  ℕ, ◌==◌, Bool, true, false, not, ◌||◌, if◌then◌else◌, List, [], ◌∷◌, Option, none, some, is_empty,
  length,
}
use newapi_box.Text.{Text, codes, equal, has_prefix, trim_prefix, trim_space}
use newapi_box.Config.{
  RelayFormat, openai, openai_responses, claude, gemini, Upstream, Config, active_upstream,
}
use newapi_box.Config.Store.{Store, path_of, current_of}
use newapi_box.Proxy.Types.{Credentials}
use newapi_box.Proxy.Events.{Event, EventLog, since, latest_seq}
use newapi_box.Admin.View.{View, view_of}
use newapi_box.Admin.Access.{authorized}

-- The handlers of the console's API, and the refusals by their status.
pub data Route : Type 0 where
  relay page : Route
  unauthorized unknown_endpoint : Route
  status_api get_config_api save_config_api test_api events_api : Route

abbrev pub api_prefix : Text
api_prefix = codes "/admin/api/"

unfoldable pub config_route : Text → Route
unfolding equal
config_route method =
    if equal method (codes "PUT") || equal method (codes "POST")
    then save_config_api
    else get_config_api

-- The switch of serveAPI.
unfoldable pub api_route : Text → Text → Route
unfolding config_route
api_route endpoint method =
    if equal endpoint (codes "status")
    then status_api
    else if equal endpoint (codes "config")
    then config_route method
    else if equal endpoint (codes "test")
    then test_api
    else if equal endpoint (codes "events")
    then events_api
    else unknown_endpoint

-- Admin.serveAPI
unfoldable pub serve_api : Config → Credentials → Text → Text → Route
unfolding api_route
serve_api cfg h path method =
    if not (authorized cfg h) then unauthorized else api_route (trim_prefix path api_prefix) method

-- Admin.ServeHTTP
unfoldable pub route : Config → Credentials → Text → Text → Route
unfolding serve_api
route cfg h path method =
    if has_prefix path api_prefix
    then serve_api cfg h path method
    else if equal path (codes "/") || equal path (codes "/admin") || equal path (codes "/admin/")
    then page
    else relay

-- config.SupportedFormats
abbrev supported_formats : List RelayFormat
supported_formats = openai ∷ openai_responses ∷ claude ∷ gemini ∷ []

abbrev inbound_endpoints : List Text
inbound_endpoints =
    codes "POST /v1/chat/completions"
    ∷ codes "POST /v1/responses"
    ∷ codes "POST /v1/messages"
    ∷ codes "POST /v1beta/models/{model}:generateContent"
    ∷ codes "POST /v1beta/models/{model}:streamGenerateContent"
    ∷ []

-- statusView
pub record StatusView : Type 0 where
  pub config_path : Text
  pub listen : Text
  pub uptime_seconds : ℕ
  pub auth_required : Bool
  pub upstream_name : Text
  pub upstream_format : RelayFormat
  pub upstream_url : Text
  pub upstream_total : ℕ
  pub model_map_size : ℕ
  pub events_total : ℕ
  pub formats : List RelayFormat
  pub endpoints : List Text

-- Admin.getStatus; the uptime is an argument
unfoldable pub get_status : Store → Option EventLog → ℕ → StatusView
unfolding current_of latest_seq
get_status s l uptime =
    let cfg = current_of (some s) in
    let active = active_upstream (some cfg) in
    record {
      config_path = path_of (some s);
      listen = cfg.listen;
      uptime_seconds = uptime;
      auth_required = not (is_empty (trim_space cfg.admin_key));
      upstream_name = active.name;
      upstream_format = active.format;
      upstream_url = active.base_url;
      upstream_total = length cfg.upstreams;
      model_map_size = length active.model_map;
      events_total = latest_seq l;
      formats = supported_formats;
      endpoints = inbound_endpoints;
    }

-- Admin.getEvents: the events behind a number, and the log's own. The log is locked for each of the
-- two by itself, so it may have grown between them: it is given twice. The number of the query is an
-- argument, 0 where it does not parse.
unfoldable pub get_events : Option EventLog → Option EventLog → ℕ → List Event × ℕ
unfolding since latest_seq
get_events l later n = (since l n, latest_seq later)

-- Admin.getConfig
unfoldable pub get_config : Store → View
unfolding current_of view_of
get_config s = view_of (current_of (some s))
