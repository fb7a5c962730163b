-- ===== src/Admin/Probe/Send/Outcome.antt =====
-- What the outcome of a probe says.
use newapi_box.Prelude.{
  ◌≡◌, ◌≤◌, ◌↔◌, refl, sym, ap, ◌∙◌, subst, true, List, [], ◌∷◌, Option, none, some, arith, length,
  All,
}
use newapi_box.Text.{Text, codes}
use newapi_box.Config.{Config}
use newapi_box.Proxy.Types.{Result, ok, err}
use newapi_box.Proxy.Reply.{Response}
use newapi_box.Proxy.Session.{UpstreamRequest}
use newapi_box.Admin.Probe.{Plan, probe_plan, probe_target, classify_probe}
use newapi_box.Admin.Probe.Verdicts.{IsProof, classify_probe_iff}
use newapi_box.Admin.Probe.Send.{
  ProbeHost, ProbeOutcome, posted_view, probe_request, probe_answered, probe_built, probe_at,
  test_upstream,
}

module _ (host : ProbeHost) where
  -- A probe that proves something: it sent one request, `{}` to the URL that it reports, and the
  -- upstream answered it with a status that shows that the route exists and the key was accepted.
  pub record Proves (o : ProbeOutcome) (sent : List UpstreamRequest) : Type 0 where
    pub request : UpstreamRequest
    pub response : Response
    pub only : sent ≡ request ∷ []
    pub empty_object : request.body ≡ codes "{}"
    pub reported : o.url ≡ request.target
    pub answered : host.send request ≡ ok response
    pub proof : IsProof response.status

  answered-Proves :
      (p : Plan) (target : Text) (r : Result Response)
      → host.send (probe_request host p target) ≡ r
      → (probe_answered host target r).ok ≡ true
      → Proves (probe_answered host target r) (probe_request host p target ∷ [])
  unfolding probe_answered probe_request classify_probe
  answered-Proves p target (err e) answer h = cc h
  answered-Proves p target (ok r) answer h = record {
    request = probe_request host p target;
    response = r;
    only = refl;
    empty_object = refl;
    reported = refl;
    answered = answer;
    proof = (classify_probe_iff r.status).0 h;
  }

  answered-ok :
      (target : Text) (r : Response)
      → IsProof r.status
      → (probe_answered host target (ok r)).ok ≡ true
  unfolding probe_answered classify_probe
  answered-ok target r proof = (classify_probe_iff r.status).1 proof

  -- It sends at most one request, and what it reports goes by the answer.
  built-Proves :
      (p : Plan) (target : Text) (refusal : Option Text)
      → ((probe_built host p target refusal).0.ok ≡ true)
        ↔ Proves (probe_built host p target refusal).0 (probe_built host p target refusal).1
  unfolding probe_built
  built-Proves p target (some e) = (λ h. cc h, λ v. cc v.only)
  built-Proves p target none = (
    answered-Proves p target _ refl,
    λ v.
        let e : probe_request host p target ≡ v.request = cc v.only in
        subst (λ r. (probe_answered host target r).ok ≡ true) (sym (ap host.send e ∙ v.answered))
          (answered-ok target v.response v.proof),
  )

  at-Proves :
      (p : Plan) (target : Option Text)
      → ((probe_at host p target).0.ok ≡ true)
        ↔ Proves (probe_at host p target).0 (probe_at host p target).1
  unfolding probe_at
  at-Proves p none = (λ h. cc h, λ v. cc v.only)
  at-Proves p (some target) = built-Proves p target (host.refuses target)

  -- A probe reports success exactly if it sent one request, with the body `{}`, to the URL that it
  -- reports, and the upstream answered that request with 200, 201, 400, 422 or 429. In all other
  -- cases (no base URL, a request that cannot be built, no answer, another status) it reports failure.
  pub test_upstream_iff :
      (cfg : Config) (method body : Text)
      → ((test_upstream host cfg method body).0.ok ≡ true)
        ↔ Proves (test_upstream host cfg method body).0 (test_upstream host cfg method body).1
  unfolding test_upstream
  test_upstream_iff cfg method body =
      let p = probe_plan cfg (posted_view host method body) in at-Proves p (probe_target p)

  -- What a probe sends.
  abbrev pub IsProbe : List UpstreamRequest → Type 0
  IsProbe sent = (length sent ≤ 1) × All (λ q. q.body ≡ codes "{}") sent

  built-IsProbe :
      (p : Plan) (target : Text) (refusal : Option Text)
      → IsProbe (probe_built host p target refusal).1
  unfolding probe_built probe_request
  built-IsProbe p target (some e) = (omega arith, tt)
  built-IsProbe p target none = (omega arith, (refl, tt))

  at-IsProbe : (p : Plan) (target : Option Text) → IsProbe (probe_at host p target).1
  unfolding probe_at
  at-IsProbe p none = (omega arith, tt)
  at-IsProbe p (some target) = built-IsProbe p target (host.refuses target)

  -- A probe sends at most one request, and its body is `{}`.
  pub test_upstream-IsProbe :
      (cfg : Config) (method body : Text) → IsProbe (test_upstream host cfg method body).1
  unfolding test_upstream
  test_upstream-IsProbe cfg method body =
      let p = probe_plan cfg (posted_view host method body) in at-IsProbe p (probe_target p)
