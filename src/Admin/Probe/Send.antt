-- ===== src/Admin/Probe/Send.antt =====
-- internal/admin/admin.go: the whole of testUpstream, with the HTTP call as an argument.
pub mod Outcome
pub mod Endpoint
pub mod Borrowed
use newapi_box.Prelude.{
  ℕ, ◌^◌, Bool, true, false, not, ◌&&◌, if◌then◌else◌, List, [], ◌∷◌, Option, none, some, is_empty,
  take,
}
use newapi_box.Text.{Text, codes, trim_space, equal}
use newapi_box.Config.{Config}
use newapi_box.Proxy.Types.{Result, ok, err, HeaderMap, set_header}
use newapi_box.Proxy.Reply.{Response}
use newapi_box.Proxy.Session.{UpstreamRequest, set_headers, upstream_auth_headers}
use newapi_box.Admin.View.{View}
use newapi_box.Admin.Probe.{Verdict, classify_probe, Plan, probe_plan, probe_target}

-- The message of an outcome.
pub data ProbeMessage : Type 0 where
  no_base_url : ProbeMessage
  request_refused unreachable : Text → ProbeMessage
  verdict : Verdict → ProbeMessage

-- probeOutcome, but for the method, which is POST
pub record ProbeOutcome : Type 0 where
  pub ok : Bool
  pub url : Text
  pub status : ℕ
  pub latency : ℕ
  pub message : ProbeMessage
  pub body : Text

-- What testUpstream calls.
pub record ProbeHost : Type 0 where
  -- json.Unmarshal into a view
  pub decode : Text → Option View
  -- the error of http.NewRequestWithContext for a URL
  pub refuses : Text → Option Text
  -- http.CanonicalHeaderKey
  pub canonical : Text → Text
  -- http.Client.Do of the probe's client
  pub send : UpstreamRequest → Result Response
  -- the milliseconds that the call takes
  pub latency : ℕ
  -- the code points of a string of bytes
  pub runes : Text → Text

-- An outcome before anything was sent.
abbrev pub unsent : Text → ProbeMessage → ProbeOutcome
unsent url message = record {
  ok = false;
  url = url;
  status = 0;
  latency = 0;
  message = message;
  body = [];
}

module _ (host : ProbeHost) where
  -- The view that a POST has in its body. Reading stops at 2^20 bytes or an error.
  unfoldable pub posted_view : Text → Text → Option View
  unfolding equal
  posted_view method body =
      if equal method (codes "POST") && not (is_empty (take (2 ^ 20) body))
      then host.decode (take (2 ^ 20) body)
      else none

  unfoldable pub probe_headers : Plan → HeaderMap
  unfolding set_headers upstream_auth_headers set_header
  probe_headers p =
      set_headers host.canonical
        (set_header host.canonical [] (codes "Content-Type") (codes "application/json"))
        (upstream_auth_headers p.format p.api_key)

  unfoldable pub probe_request : Plan → Text → UpstreamRequest
  unfolding probe_headers
  probe_request p target = record { target = target; headers = probe_headers p; body = codes "{}" }

  unfoldable pub probe_answered : Text → Result Response → ProbeOutcome
  unfolding classify_probe
  probe_answered target (err e) = record (unsent target (unreachable e)) { latency = host.latency }
  probe_answered target (ok r) =
      let (fine, said) = classify_probe r.status in
      record {
        ok = fine;
        url = target;
        status = r.status;
        latency = host.latency;
        message = verdict said;
        body = trim_space (host.runes (take 512 r.body.bytes));
      }

  unfoldable pub probe_built : Plan → Text → Option Text → ProbeOutcome × List UpstreamRequest
  unfolding probe_request probe_answered
  probe_built p target (some e) = (unsent target (request_refused e), [])
  probe_built p target none =
      let request = probe_request p target in
      (probe_answered target (host.send request), request ∷ [])

  unfoldable pub probe_at : Plan → Option Text → ProbeOutcome × List UpstreamRequest
  unfolding probe_built
  probe_at p none = (unsent [] no_base_url, [])
  probe_at p (some target) = probe_built p target (host.refuses target)

  -- testUpstream, and the requests that it sends
  unfoldable pub test_upstream : Config → Text → Text → ProbeOutcome × List UpstreamRequest
  unfolding posted_view probe_at
  test_upstream cfg method body =
      let p = probe_plan cfg (posted_view method body) in probe_at p (probe_target p)
