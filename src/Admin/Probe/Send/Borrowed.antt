-- ===== src/Admin/Probe/Send/Borrowed.antt =====
-- Whose key a probe sends, and where to.
use newapi_box.Prelude.{◌≡◌, ◌≢◌, refl, sym, ap, ◌∙◌, subst, List, [], ◌∷◌, ◌++◌, none, some}
use newapi_box.Text.{Text, codes, trim_space, trim_right}
use newapi_box.Text.Equal.{not_empty_iff}
use newapi_box.Config.{RelayFormat, Config, find_upstream, active_upstream}
use newapi_box.Proxy.Types.{set_header}
use newapi_box.Proxy.Session.{UpstreamRequest, set_headers, upstream_auth_headers}
use newapi_box.Admin.View.{View, active_draft}
use newapi_box.Admin.Probe.{Plan, draft_plan, probe_plan, probe_target}
use newapi_box.Admin.Probe.Send.{
  ProbeHost, posted_view, probe_headers, probe_request, probe_built, probe_at, test_upstream,
}

module _ (host : ProbeHost) where
  -- One request is sent, to a URL that starts with `base`, and with the credentials for `key`.
  pub record Carries (base key : Text) (sent : List UpstreamRequest) : Type 0 where
    pub request : UpstreamRequest
    pub only : sent ≡ request ∷ []
    pub path : Text
    pub goes_to : request.target ≡ base ++ path
    pub format : RelayFormat
    pub credentials :
        request.headers
        ≡ set_headers host.canonical
            (set_header host.canonical [] (codes "Content-Type") (codes "application/json"))
            (upstream_auth_headers format key)

  built-Carries :
      (p : Plan) (base path : Text)
      → host.refuses (base ++ path) ≡ none
      → Carries base p.api_key (probe_at host p (some (base ++ path))).1
  unfolding probe_at probe_built probe_request probe_headers
  built-Carries p base path accepted = record {
    request = probe_request host p (base ++ path);
    only = ap (λ o. (probe_built host p (base ++ path) o).1) accepted;
    path = path;
    goes_to = refl;
    format = p.format;
    credentials = refl;
  }

  plan-Carries :
      (p : Plan)
      → trim_right (trim_space p.base_url) b'/' ≢ []
      → ((t : Text) → host.refuses t ≡ none)
      → Carries
          (trim_right (trim_space p.base_url) b'/')
          p.api_key
          (probe_at host p (probe_target p)).1
  unfolding probe_target
  plan-Carries p has_base accepted =
      rw ((not_empty_iff (trim_right (trim_space p.base_url) b'/')).1 has_base)
        (built-Carries p _ _ (accepted _))

  module _ (cfg : Config) (method body : Text) (v : View) where
    abbrev plan : Plan
    plan = draft_plan cfg (active_upstream (some cfg)) (active_draft v)

    posted_plan :
        posted_view host method body ≡ some v
        → trim_space (active_draft v).base_url ≢ []
        → probe_plan cfg (posted_view host method body) ≡ plan
    unfolding probe_plan
    posted_plan posted filled =
        ap (probe_plan cfg) posted
        ∙ rw ((not_empty_iff (trim_space (active_draft v).base_url)).1 filled) refl

    plan-key :
        trim_space (active_draft v).api_key ≡ []
        → find_upstream (some cfg) (active_draft v).name ≡ none
        → plan.api_key ≡ (active_upstream (some cfg)).api_key
    unfolding draft_plan
    plan-key blank missing = rw blank (rw missing refl)

    -- A test of a draft whose name is not stored, with a blank key field, sends the stored key of
    -- the active upstream to a URL under the draft's base URL, if the draft has one and requests can
    -- be built for all URLs.
    pub test_upstream-borrows :
        posted_view host method body ≡ some v
        → trim_right (trim_space (active_draft v).base_url) b'/' ≢ []
        → trim_space (active_draft v).api_key ≡ []
        → find_upstream (some cfg) (active_draft v).name ≡ none
        → ((t : Text) → host.refuses t ≡ none)
        → Carries
            (trim_right (trim_space (active_draft v).base_url) b'/')
            (active_upstream (some cfg)).api_key
            (test_upstream host cfg method body).1
    unfolding test_upstream draft_plan
    test_upstream-borrows posted has_base blank missing accepted =
        subst
          (λ q.
            Carries (trim_right (trim_space (active_draft v).base_url) b'/')
              (active_upstream (some cfg)).api_key (probe_at host q (probe_target q)).1)
          (sym (
            posted_plan posted
              (λ e. has_base (ap (λ t. trim_right t b'/') e ∙ unfold trim_right in refl))))
          (subst
            (λ key.
              Carries (trim_right (trim_space (active_draft v).base_url) b'/') key
                (probe_at host plan (probe_target plan)).1)
            (plan-key blank missing) (plan-Carries plan has_base accepted))
