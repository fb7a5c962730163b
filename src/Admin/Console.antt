-- ===== src/Admin/Console.antt =====
-- internal/admin: the whole of Admin.ServeHTTP in admin.go, with serveUI of ui.go. A request is
-- answered in one step here; System has the steps of handlers that overlap. The JSON of a payload is
-- the encoder's, and the payload stands for it.
pub mod Keys
pub mod Effects
pub mod Secrets
pub mod Reports
use newapi_box.Prelude.{
  ℕ, ◌+◌, ◌-◌, ◌*◌, ◌^◌, leb, ltb, Bool, ◌&&◌, if◌then◌else◌, List, [], ◌∷◌, Option, none, some,
}
use newapi_box.Prelude.Int.{ℤ}
use newapi_box.Text.{Text, codes}
use newapi_box.Config.{Config}
use newapi_box.Config.Validate.{Error}
use newapi_box.Config.File.{Answers}
use newapi_box.Config.Store.{SaveError, current_of}
use newapi_box.Proxy.Types.{read_limited}
use newapi_box.Proxy.Session.{UpstreamRequest}
use newapi_box.Proxy.Events.{Event, EventLog, record_event}
use newapi_box.Proxy.Serve.{ClientRequest, Host, Served, serve_http}
use newapi_box.Admin.View.{View, view_of}
use newapi_box.Admin.Save.{Live, SaveReply, saved, save_refused, apply_refused, save_config}
use newapi_box.Admin.Probe.Send.{ProbeHost, ProbeOutcome, test_upstream}
use newapi_box.Admin.Routes.{
  Route, relay, page, unauthorized, unknown_endpoint, status_api, get_config_api, save_config_api,
  test_api, events_api, StatusView, get_status, get_config, get_events, route,
}

-- What is written as JSON, and the page as bytes. The two errors of reading a save's body are
-- constructors.
pub data Content : Type 0 where
  fixed_error : Text → Content
  body_not_read body_not_parsed : Content
  save_error : SaveError → Content
  apply_error : Error → Content
  status_content : StatusView → Content
  config_content : View → Content
  saved_content : View → Bool → Content
  probe_content : ProbeOutcome → Content
  events_content : List Event → ℕ → Content
  page_content : Text → Content

pub record Written : Type 0 where
  pub status : ℕ
  pub content_type : Text
  pub cache_control : Option Text
  pub content : Content

-- writeJSON
unfoldable pub write_json : ℕ → Content → Written
write_json status content = record {
  status = status;
  content_type = codes "application/json; charset=utf-8";
  cache_control = some (codes "no-store");
  content = content;
}

-- Admin.serveUI; the asset is the file in the binary. The other answer is that of http.Error.
unfoldable pub serve_ui : Option Text → Written
serve_ui none = record {
  status = 500;
  content_type = codes "text/plain; charset=utf-8";
  cache_control = none;
  content = page_content (codes "console asset is missing from the binary\n");
}
serve_ui (some asset) = record {
  status = 200;
  content_type = codes "text/html; charset=utf-8";
  cache_control = some (codes "no-store");
  content = page_content asset;
}

abbrev max_uint64 : ℕ
max_uint64 = 18_446_744_073_709_551_615

-- strconv.ParseUint in base 10 with its error dropped, behind the digits read so far: no digit
-- gives 0, and a number beyond 64 bits gives the greatest.
parse_digits : ℕ → Text → ℕ
parse_digits n [] = n
parse_digits n (c ∷ s) =
    let m = n * 10 + (c - 48) in
    let rest = parse_digits m s in
    if leb 48 c && leb c 57 then if leb m max_uint64 then rest else max_uint64 else 0

unfoldable pub parse_uint : Text → ℕ
unfolding parse_digits
parse_uint s = parse_digits 0 s

-- The state that the handlers share.
pub record Shared : Type 0 where
  pub live : Live
  pub log : EventLog

-- A request to the server, with `since` of its query, "" where there is none.
pub record ConsoleRequest : Type 0 where
  pub client : ClientRequest
  pub since : Text

-- An answer of the console, with the requests that it sent upstream, or one of the relay.
pub data Handled : Type 0 where
  written : Written → List UpstreamRequest → Handled
  relayed : Served → Handled

-- What the handlers call and read: the relay's and the probe's callees, the codecs, the disk's
-- answers, the page in the binary, and the seconds since the start.
pub record ConsoleHost {ℓ} (P V W S : Type ℓ) : Type ℓ where
  pub relay_host : Host P V W S
  pub probe_host : ProbeHost
  pub parse_duration : Text → Option ℤ
  pub encode : Config → Option Text
  pub answers : Answers
  pub asset : Option Text
  pub uptime : ℕ

abbrev plain : Shared → Written → Shared × Handled
plain s w = (s, written w [])

module _ {ℓ} {P V W S : Type ℓ} (host : ConsoleHost P V W S) where
  open host use {relay_host, probe_host, parse_duration, encode, answers, asset, uptime}

  -- The response of saveConfig behind Save and Apply.
  unfoldable pub save_written : Live → SaveReply → Written
  save_written l (save_refused e) = write_json 400 (save_error e)
  save_written l (apply_refused e) = write_json 500 (apply_error e)
  save_written l (saved restart) =
      write_json 200 (saved_content (view_of (current_of (some l.store))) restart)

  unfoldable pub save_decoded : Shared → Option View → Shared × Handled
  unfolding save_written
  save_decoded s none = plain s (write_json 400 body_not_parsed)
  save_decoded s (some v) =
      let r = save_config parse_duration encode answers s.live v in
      plain (record s { live = r.0 }) (save_written r.0 r.1)

  unfoldable pub save_read : Shared → Option Text → Shared × Handled
  unfolding save_decoded
  save_read s none = plain s (write_json 400 body_not_read)
  save_read s (some body) = save_decoded s (probe_host.decode body)

  -- The handler that ServeHTTP and serveAPI come to.
  unfoldable pub respond : Shared → ConsoleRequest → Route → Shared × Handled
  unfolding save_read serve_ui record_event
  respond s r relay =
      let x = serve_http relay_host s.live.runtime r.client in
      (record s { log = record_event s.log x.logged }, relayed x)
  respond s r page = plain s (serve_ui asset)
  respond s r unauthorized =
      plain s (write_json 401 (fixed_error (codes "invalid or missing admin key")))
  respond s r unknown_endpoint =
      plain s (write_json 404 (fixed_error (codes "unknown admin endpoint")))
  respond s r status_api =
      plain s (write_json 200 (status_content (get_status s.live.store (some s.log) uptime)))
  respond s r get_config_api = plain s (write_json 200 (config_content (get_config s.live.store)))
  respond s r save_config_api = save_read s (read_limited (2 ^ 20) r.client.body)
  respond s r test_api =
      let x =
        test_upstream probe_host (current_of (some s.live.store)) r.client.method
          r.client.body.bytes in
      (s, written (write_json 200 (probe_content x.0)) x.1)
  respond s r events_api =
      let x = get_events (some s.log) (some s.log) (parse_uint r.since) in
      plain s (write_json 200 (events_content x.0 x.1))

  -- Admin.ServeHTTP
  unfoldable pub serve : Shared → ConsoleRequest → Shared × Handled
  unfolding respond route
  serve s r =
      respond s r
        (route (current_of (some s.live.store)) r.client.credentials r.client.path r.client.method)
