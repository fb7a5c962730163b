-- ===== src/Admin/View.antt =====
-- internal/admin/admin.go: what the console is shown of a configuration and what it sends back.
pub mod Shown
use newapi_box.Prelude.{
  ℕ, Bool, false, not, if◌then◌else◌, List, [], ◌∷◌, map, Option, none, some, is_empty,
}
use newapi_box.Text.{Text, equal, trim_space}
use newapi_box.Config.{RelayFormat, other, StringMap, Upstream, Config}
use newapi_box.Config.Mask.{masked_api_key}

pub record UpstreamView : Type 0 where
  pub name : Text
  pub original_name : Text
  pub format : RelayFormat
  pub base_url : Text
  pub api_key : Text
  pub api_key_set : Bool
  pub api_key_masked : List ℕ
  pub clear_api_key : Bool
  pub timeout : Text
  pub headers : StringMap
  pub paths : StringMap
  pub model_map : StringMap

pub record View : Type 0 where
  pub listen : Text
  pub admin_key : Text
  pub admin_key_set : Bool
  pub clear_admin_key : Bool
  pub access_key : Text
  pub access_key_set : Bool
  pub clear_access_key : Bool
  pub claude_default_max_tokens : ℕ
  pub verbose : Bool
  pub active_upstream : Text
  pub upstreams : List UpstreamView

-- upstreamViewOf
unfoldable pub upstream_view_of : Upstream → UpstreamView
upstream_view_of u = record {
  name = u.name;
  original_name = [];
  format = u.format;
  base_url = u.base_url;
  api_key = [];
  api_key_set = not (is_empty (trim_space u.api_key));
  api_key_masked = masked_api_key u.api_key;
  clear_api_key = false;
  timeout = u.timeout;
  headers = u.headers;
  paths = u.paths;
  model_map = u.model_map;
}

-- viewOf
unfoldable pub view_of : Config → View
unfolding upstream_view_of
view_of c = record {
  listen = c.listen;
  admin_key = [];
  admin_key_set = not (is_empty (trim_space c.admin_key));
  clear_admin_key = false;
  access_key = [];
  access_key_set = not (is_empty (trim_space c.access_key));
  clear_access_key = false;
  claude_default_max_tokens = c.claude_default_max_tokens;
  verbose = c.verbose;
  active_upstream = c.active;
  upstreams = map upstream_view_of c.upstreams;
}

-- upstreamView{}
abbrev pub zero_view : UpstreamView
zero_view = record {
  name = [];
  original_name = [];
  format = other [];
  base_url = [];
  api_key = [];
  api_key_set = false;
  api_key_masked = [];
  clear_api_key = false;
  timeout = [];
  headers = [];
  paths = [];
  model_map = [];
}

first_view : List UpstreamView → UpstreamView
first_view [] = zero_view
first_view (u ∷ us) = u

named_view : List UpstreamView → Text → Option UpstreamView
unfolding equal
named_view [] name = none
named_view (u ∷ us) name = if equal u.name name then some u else named_view us name

-- view.activeDraft
unfoldable pub active_draft : View → UpstreamView
unfolding first_view named_view
active_draft v = elim (named_view v.upstreams v.active_upstream) [
  | some u ↦ u
  | none ↦ first_view v.upstreams
]
