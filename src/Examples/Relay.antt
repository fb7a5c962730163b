-- ===== src/Examples/Relay.antt =====
-- The relay path: a Claude client in front of a Claude upstream.
use newapi_box.Prelude.{Option, ◌<◌, ◌≤◌, length, take, ◌≡◌, ◌≢◌, ◌↔◌, ◌⊎◌, refl, true, false, some}
use newapi_box.Prelude.Int.{pos}
use newapi_box.Text.{Text, codes, trim_space, equal}
use newapi_box.Config.{map_model, lookup, lookup_or_empty, format_equal}
use newapi_box.Protocol.Sse.{new_reader}
use newapi_box.Proxy.Admit.{authorized}
use newapi_box.Proxy.Admit.Keys.{IsOpen, IsPresented, IsKeyOf, authorized_iff}
use newapi_box.Proxy.Session.{new_session, upstream_path}
use newapi_box.Proxy.Session.Path.{UsesDefaultPaths, IsServedPath, upstream_path-IsServedPath}
use newapi_box.Proxy.Reply.{json_reply, buffered_response, max_upstream_response_body}
use newapi_box.Proxy.Reply.Passthrough.{buffered_response-passthrough}
use newapi_box.Proxy.Types.{Result, ok}
use newapi_box.Proxy.Media.{Fetched}
use newapi_box.Proxy.Pump.{stuck, stream_response}
use newapi_box.Proxy.Pump.Total.{stream_response-ne-stuck}
use newapi_box.Examples.Data.{
  runtime, credentials, session, event, reply_host, stream_host, wire, response,
}

authorized_iff_example :
    (authorized runtime credentials ≡ true)
    ↔ (IsOpen runtime.cfg ⊎ ((key : Text) × IsPresented credentials key × IsKeyOf runtime.cfg key))
authorized_iff_example = authorized_iff runtime credentials

buffered_response-passthrough_example :
    let r = buffered_response reply_host (pos 3) session event response in
    (length (codes "{}") < max_upstream_response_body → r.1 ≡ json_reply (codes "{}"))
    × (max_upstream_response_body ≤ length (codes "{}")
        → (r.1 ≡ json_reply (take max_upstream_response_body (codes "{}"))) × (r.0.status ≡ 200))
unfolding new_session format_equal
buffered_response-passthrough_example =
    buffered_response-passthrough reply_host (pos 3) session event 200 (codes "application/json")
      (codes "{}") refl

stream_response-ne-stuck_example :
    stream_response stream_host
      (pos 3)
      session
      true
      event
      wire
      (new_reader (codes "data: {}\n\n") false)
    ≢ stuck
stream_response-ne-stuck_example =
    stream_response-ne-stuck stream_host (pos 3) session true event wire
      (new_reader (codes "data: {}\n\n") false)

default_paths : UsesDefaultPaths runtime.up
unfolding trim_space lookup_or_empty lookup
default_paths = record { at = λ f. refl; stream = refl }

upstream_path-IsServedPath_example :
    IsServedPath (upstream_path session) session.upstream session.upstream_model
unfolding new_session map_model lookup trim_space equal
upstream_path-IsServedPath_example =
    upstream_path-IsServedPath session default_paths (λ h. cc h) ((λ h. cc h), tt) refl

abbrev served : Text → Option (Result Fetched)
served url = some (
    ok (record {
      status = 200;
      content_type = codes "image/png";
      body = record { bytes = codes "p"; fails = false };
    }))
