-- ===== src/Admin/Probe/Send/Endpoint.antt =====
-- The endpoint that a probe reaches, against the one that the relay calls.
use newapi_box.Prelude.{
  ◌≡◌, ◌≢◌, refl, sym, ap, ◌∙◌, true, false, if◌then◌else◌, [], ◌∷◌, ◌++◌, Option, none, some,
  is_empty,
}
use newapi_box.Text.{Text, codes, trim_space, trim_right, replace_all}
use newapi_box.Text.Equal.{not_empty_iff}
use newapi_box.Config.{
  RelayFormat, gemini, openai, openai_responses, claude, other, Config, Upstream, path_for,
  active_upstream,
}
use newapi_box.Proxy.Admit.{Runtime}
use newapi_box.Protocol.Surface.{Request, is_gemini}
use newapi_box.Proxy.Session.{
  Session, RequestHost, build_upstream_request, new_session, UpstreamRequest, set_headers,
  upstream_path, request_headers, model_placeholder,
}
use newapi_box.Admin.Probe.{plan_of, probe_model, probe_plan, probe_target}
use newapi_box.Admin.Probe.Send.{
  ProbeHost, posted_view, probe_headers, probe_request, probe_built, probe_at, test_upstream,
}
use newapi_box.Proxy.Session.Build.{build-IsRelayed}

path-same :
    (f : RelayFormat) (u : Upstream) (m n : Text)
    → (is_gemini f ≡ true → m ≡ n)
    → (if is_gemini f then replace_all (path_for u f) model_placeholder n else path_for u f)
      ≡ (if is_gemini f then replace_all (path_for u gemini) model_placeholder m else path_for u f)
path-same gemini u m n h = ap (replace_all (path_for u gemini) model_placeholder) (sym (h refl))
path-same openai u m n h = refl
path-same openai_responses u m n h = refl
path-same claude u m n h = refl
path-same (other t) u m n h = refl

module _ (host : ProbeHost) where
  module _ (rt : Runtime) (inbound : RelayFormat) (model : Text) where
    abbrev buffered : Session
    buffered = new_session rt inbound false model

    -- What the relay may do that a probe does not know of.
    pub record IsPlain : Type 0 where
      pub has_base_url : rt.up.base_url ≢ []
      pub trimmed : trim_right (trim_space rt.up.base_url) b'/' ≡ rt.up.base_url
      pub same_model :
          is_gemini rt.up.format ≡ true → buffered.upstream_model ≡ probe_model rt.up.model_map
      pub no_headers : rt.up.headers ≡ []

    headers-same :
        IsPlain → probe_headers host (plan_of rt.up) ≡ request_headers host.canonical buffered
    unfolding probe_headers request_headers plan_of new_session set_headers
    headers-same h =
        sym (ap (set_headers host.canonical (probe_headers host (plan_of rt.up))) h.no_headers)

    target-same :
        IsPlain → probe_target (plan_of rt.up) ≡ some (rt.up.base_url ++ upstream_path buffered)
    unfolding probe_target plan_of new_session upstream_path path_for
    target-same h =
        ap
          (λ base.
            if is_empty base
            then none
            else some (
                base
                ++ (if is_gemini rt.up.format
                    then replace_all (path_for rt.up rt.up.format) model_placeholder
                        (probe_model rt.up.model_map)
                    else path_for rt.up rt.up.format)))
          h.trimmed
        ∙ rw ((not_empty_iff rt.up.base_url).1 h.has_base_url) (
            ap (λ p. some (rt.up.base_url ++ p))
              (path-same rt.up.format rt.up buffered.upstream_model (probe_model rt.up.model_map)
                h.same_model))

    at-sent :
        (target : Option Text) {path : Text}
        → target ≡ some path
        → host.refuses path ≡ none
        → (probe_at host (plan_of rt.up) target).1 ≡ probe_request host (plan_of rt.up) path ∷ []
    unfolding probe_at probe_built
    at-sent target e accepts = rw e (rw accepts refl)

    stored-sent :
        (cfg : Config) (method body : Text) {path : Text}
        → active_upstream (some cfg) ≡ rt.up
        → posted_view host method body ≡ none
        → probe_target (plan_of rt.up) ≡ some path
        → host.refuses path ≡ none
        → (test_upstream host cfg method body).1 ≡ probe_request host (plan_of rt.up) path ∷ []
    unfolding test_upstream probe_plan
    stored-sent cfg method body active stored at accepts =
        ap (λ v. (probe_at host (probe_plan cfg v) (probe_target (probe_plan cfg v))).1) stored
        ∙ ap (λ u. (probe_at host (plan_of u) (probe_target (plan_of u))).1) active
        ∙ at-sent _ at accepts

    -- Where the relay adds nothing of its own (a base URL without blanks and slashes around it, no
    -- custom headers, and for Gemini the model that the probe takes), a probe of the stored
    -- configuration sends exactly the request that the relay builds for a client that does not
    -- stream, but for the body: the same URL and the same headers.
    pub probe-reaches {ℓ} :
        {P : Type ℓ} (requests : RequestHost P) (payload : Request P) (cfg : Config)
        (method body : Text) {q : UpstreamRequest}
        → IsPlain
        → requests.canonical ≡ host.canonical
        → active_upstream (some cfg) ≡ rt.up
        → posted_view host method body ≡ none
        → build_upstream_request requests buffered payload ≡ some q
        → host.refuses q.target ≡ none
        → (test_upstream host cfg method body).1 ≡ record q { body = codes "{}" } ∷ []
    unfolding probe_request new_session
    probe-reaches requests payload cfg method body {q} h canon active stored built_it accepts =
        let (to, with) = build-IsRelayed requests buffered payload built_it in
        stored-sent cfg method body active stored (target-same h ∙ ap some (sym to)) accepts
        ∙ ap (λ hs. record q { headers = hs; body = codes "{}" } ∷ [])
            (headers-same h ∙ ap (λ c. request_headers c buffered) (sym canon) ∙ sym with)
