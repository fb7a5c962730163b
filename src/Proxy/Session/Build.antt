-- ===== src/Proxy/Session/Build.antt =====
-- What a request that the relay has built goes to.
use newapi_box.Prelude.{◌≡◌, inl, inr, refl, subst, ◌++◌, Option, none, some, Bool-cases}
use newapi_box.Text.{Text}
use newapi_box.Protocol.Surface.{Request}
use newapi_box.Proxy.Session.{
  Session, RequestHost, with_body, build_upstream_request, UpstreamRequest, upstream_path,
  request_headers,
}

module _ {ℓ} {P : Type ℓ} (requests : RequestHost P) (s : Session) where
  -- What a request of the relay has for a target and for headers.
  abbrev pub IsRelayed : UpstreamRequest → Type 0
  IsRelayed q =
      (q.target ≡ s.rt.up.base_url ++ upstream_path s)
      × (q.headers ≡ request_headers requests.canonical s)

  with_body-IsRelayed :
      (body : Option Text) {q : UpstreamRequest} → with_body requests s body ≡ some q → IsRelayed q
  unfolding with_body
  with_body-IsRelayed none h = cc h
  with_body-IsRelayed (some body) {q} h =
      elim (Bool-cases (requests.is_url (s.rt.up.base_url ++ upstream_path s))) [
        | inl fine ↦
            let made : (record {
              target = s.rt.up.base_url ++ upstream_path s;
              headers = request_headers requests.canonical s;
              body = body;
            })
                ≡ q =
              cc (rw fine at h) in
            subst IsRelayed made (refl, refl)
        | inr bad ↦ cc (rw bad at h)
      ]

  pub build-IsRelayed :
      (payload : Request P) {q : UpstreamRequest}
      → build_upstream_request requests s payload ≡ some q
      → IsRelayed q
  unfolding build_upstream_request
  build-IsRelayed payload h = with_body-IsRelayed _ h
