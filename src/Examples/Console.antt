-- ===== src/Examples/Console.antt =====
-- The console: its key, a save, and a probe.
use newapi_box.Prelude.{◌≡◌, ◌↔◌, refl, true, false, [], ◌∷◌, none, some, map}
use newapi_box.Text.{codes, equal, trim_space}
use newapi_box.Config.{Upstream, find_upstream, active_upstream}
use newapi_box.Admin.View.{View, view_of, zero_view, active_draft}
use newapi_box.Admin.Save.{Live, next_config}
use newapi_box.Admin.Save.Keys.{next_config-view_of}
use newapi_box.Config.{claude, map_model}
use newapi_box.Proxy.Session.{new_session, UpstreamRequest, build_upstream_request}
use newapi_box.Text.{trim_right}
use newapi_box.Admin.Probe.{probe_model}
use newapi_box.Admin.Probe.Send.{ProbeHost, test_upstream, posted_view}
use newapi_box.Admin.Probe.Send.Outcome.{Proves, test_upstream_iff}
use newapi_box.Admin.Probe.Send.Endpoint.{IsPlain, probe-reaches}
use newapi_box.Admin.Probe.Send.Borrowed.{Carries, test_upstream-borrows}
use newapi_box.Examples.Data.{probe_host, request, host, config, store, runtime}

next_config-view_of_example :
    map (λ (u : Upstream). u.api_key) (next_config (view_of config) config).upstreams
    ≡ codes "sk-first" ∷ codes "sk-second" ∷ []
next_config-view_of_example = next_config-view_of config (((λ h. cc h), tt), (tt, tt))

abbrev cleared : View
cleared = record {
  listen = codes ":9000";
  admin_key = [];
  admin_key_set = false;
  clear_admin_key = true;
  access_key = codes "guest";
  access_key_set = false;
  clear_access_key = false;
  claude_default_max_tokens = 4096;
  verbose = false;
  active_upstream = codes "a";
  upstreams = record zero_view { name = codes "a"; base_url = codes "http://new" } ∷ [];
}

abbrev live : Live
live = record { store = store; runtime = some runtime; closed = [] }

abbrev unnamed : View
unnamed = record cleared {
  active_upstream = codes "new";
  upstreams = record zero_view { name = codes "new"; base_url = codes "http://new" } ∷ [];
}

-- A host that decodes every body to the view of an upstream that is not stored.
abbrev draft_host : ProbeHost
draft_host = record probe_host { decode = λ t. some unnamed }

test_upstream-borrows_example :
    Carries draft_host
      (codes "http://new")
      (active_upstream (some config)).api_key
      (test_upstream draft_host config (codes "POST") (codes "{}")).1
unfolding active_draft trim_space find_upstream posted_view trim_right equal
test_upstream-borrows_example =
    test_upstream-borrows draft_host config (codes "POST") (codes "{}") unnamed refl (λ h. cc h)
      refl refl (λ t. refl)

plain : IsPlain probe_host runtime claude (codes "m")
unfolding new_session trim_right trim_space probe_model map_model
plain = record {
  has_base_url = λ h. cc h;
  trimmed = refl;
  same_model = λ h. cc h;
  no_headers = refl;
}

built_request :
    (q : UpstreamRequest) × (build_upstream_request host.requests
        (new_session runtime claude false (codes "m"))
        request
      ≡ some q)
unfolding build_upstream_request
built_request = (_, refl)

the_active : active_upstream (some config) ≡ runtime.up
unfolding active_upstream equal
the_active = refl

nothing_posted : posted_view probe_host (codes "GET") [] ≡ none
unfolding posted_view
nothing_posted = refl

test_upstream_iff_example :
    ((test_upstream probe_host config (codes "GET") []).0.ok ≡ true)
    ↔ Proves probe_host
        (test_upstream probe_host config (codes "GET") []).0
        (test_upstream probe_host config (codes "GET") []).1
test_upstream_iff_example = test_upstream_iff probe_host config (codes "GET") []

probe-reaches_example :
    (test_upstream probe_host config (codes "GET") []).1
    ≡ record built_request.0 { body = codes "{}" } ∷ []
probe-reaches_example =
    probe-reaches probe_host runtime claude (codes "m") host.requests request config (codes "GET")
      [] plain refl the_active nothing_posted built_request.1 refl
