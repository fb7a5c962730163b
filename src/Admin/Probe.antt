-- ===== src/Admin/Probe.antt =====
-- internal/admin/admin.go: what testUpstream probes, and its verdict. The messages of a verdict
-- are Chinese texts in the source; a constructor stands for each.
pub mod Send
pub mod Verdicts
pub mod Order
use newapi_box.Prelude.{
  ℕ, ◌==◌, leb, Bool, true, false, not, ◌||◌, if◌then◌else◌, List, [], ◌∷◌, ◌++◌, Option, none,
  some, is_empty,
}
use newapi_box.Text.{Text, codes, trim_space, trim_right, replace_all}
use newapi_box.Config.{
  RelayFormat, is_unset, StringMap, Upstream, zero_upstream, Config, find_upstream, active_upstream,
  path_for, or_default,
}
use newapi_box.Protocol.Surface.{is_gemini}
use newapi_box.Proxy.Session.{model_placeholder}
use newapi_box.Admin.View.{View, UpstreamView, active_draft}

pub data Verdict : Type 0 where
  reachable rejected_body rejected_key no_route wrong_method rate_limited : Verdict
  server_error other_status : ℕ → Verdict

-- classifyProbe
unfoldable pub classify_probe : ℕ → Bool × Verdict
classify_probe status =
    if status == 200 || status == 201
    then (true, reachable)
    else if status == 400 || status == 422
    then (true, rejected_body)
    else if status == 401 || status == 403
    then (false, rejected_key)
    else if status == 404
    then (false, no_route)
    else if status == 405
    then (false, wrong_method)
    else if status == 429
    then (true, rate_limited)
    else if leb 500 status
    then (false, server_error status)
    else (false, other_status status)

-- probeModel, over the entries in iteration order
unfoldable pub probe_model : StringMap → Text
probe_model [] = codes "probe"
probe_model ((k, v) ∷ m) = if is_empty (trim_space v) then probe_model m else trim_space v

-- The local variables of testUpstream.
pub record Plan : Type 0 where
  pub format : RelayFormat
  pub base_url : Text
  pub api_key : Text
  pub paths : StringMap
  pub model_map : StringMap

unfoldable pub plan_of : Upstream → Plan
plan_of u = record {
  format = u.format;
  base_url = u.base_url;
  api_key = u.api_key;
  paths = u.paths;
  model_map = u.model_map;
}

base_of : Upstream → Option Upstream → Upstream
base_of stored none = stored
base_of stored (some named) = named

-- The assignments for a draft with a base URL.
unfoldable pub draft_plan : Config → Upstream → UpstreamView → Plan
unfolding base_of
draft_plan cfg stored draft =
    let base = base_of stored (find_upstream (some cfg) draft.name) in
    record {
      format = if is_unset draft.format then base.format else draft.format;
      base_url = draft.base_url;
      api_key = or_default (trim_space draft.api_key) base.api_key;
      paths = draft.paths;
      model_map = draft.model_map;
    }

-- The plan of a probe; the view is there if a POST had a body that decodes.
unfoldable pub probe_plan : Config → Option View → Plan
unfolding draft_plan plan_of
probe_plan cfg none = plan_of (active_upstream (some cfg))
probe_plan cfg (some v) =
    if is_empty (trim_space (active_draft v).base_url)
    then plan_of (active_upstream (some cfg))
    else draft_plan cfg (active_upstream (some cfg)) (active_draft v)

-- The URL that is probed; `none` where there is no base URL.
unfoldable pub probe_target : Plan → Option Text
unfolding probe_model
probe_target p =
    let base = trim_right (trim_space p.base_url) b'/' in
    let path = path_for (record zero_upstream { paths = p.paths }) p.format in
    if is_empty base
    then none
    else some (
        base
        ++ (if is_gemini p.format
            then replace_all path model_placeholder (probe_model p.model_map)
            else path))
