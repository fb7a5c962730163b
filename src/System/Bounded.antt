-- ===== src/System/Bounded.antt =====
-- The bounds of the calls that go upstream, in every reachable state.
use newapi_box.Prelude.{true, ◌≡◌, ◌≢◌, refl, sym, ◌∙◌, subst, List, [], ◌∷◌, ◌++◌, Option, some}
use newapi_box.Prelude.Int.{ℤ}
use newapi_box.Text.{Text}
use newapi_box.Config.{Config}
use newapi_box.Proxy.Admit.{Runtime, authorized}
use newapi_box.Proxy.Admit.Bounds.{IsBounded, new_runtime-IsBounded}
use newapi_box.Proxy.Serve.{Host, serve_http}
use newapi_box.Proxy.Serve.Caller.{via, serve_http-via}
use newapi_box.System.{Flight, System, Reach}
use newapi_box.System.Sanctioned.{IsSanctioned, of_start, of_save, sent-IsSanctioned}

module _ (parse_duration : Text → Option ℤ) (encode : Config → Option Text) where
  AllBounded : Option Runtime → Type 0
  AllBounded o = (rt : Runtime) → o ≡ some rt → IsBounded rt

  some-injective : (a b : Runtime) → some a ≡ some b → a ≡ b
  some-injective a b h = cc h

  IsSanctioned-bounded :
      (start o : Option Runtime)
      → AllBounded start
      → IsSanctioned parse_duration encode start o
      → AllBounded o
  unfolding AllBounded
  IsSanctioned-bounded start o h (of_start e) rt is = h rt (sym e ∙ is)
  IsSanctioned-bounded start o h (of_save next made e valid) rt is =
      subst IsBounded (some-injective made rt is) (new_runtime-IsBounded parse_duration next e)

  module _ {ℓ} (P V W S : Type ℓ) (seed : System) where
    -- What is sent upstream in a reachable state is sent for a request that has passed the key check
    -- and with the client of a bounded runtime, if the start's runtime, if any, is bounded.
    pub sent-IsBounded :
        {s : System} (host : Host P V W S) (before after : List Flight) (f : Flight)
        → ((rt : Runtime) → seed.live.runtime ≡ some rt → IsBounded rt)
        → seed.flights ≡ []
        → seed.savers ≡ []
        → Reach P V W S parse_duration encode seed s
        → s.flights ≡ before ++ f ∷ after
        → (serve_http host f.runtime f.request).sent ≢ []
        → (rt : Runtime) × (f.runtime ≡ some rt)
          × (authorized rt f.request.credentials ≡ true)
          × IsBounded rt
          × (serve_http (via rt.client host) f.runtime f.request
              ≡ serve_http host f.runtime f.request)
    unfolding AllBounded
    sent-IsBounded host before after f bounded calm quiet r e h =
        let (rt, loaded, passes, sanctioned) =
          sent-IsSanctioned parse_duration encode P V W S seed host before after f calm quiet r e
            h in
        (
          rt,
          loaded,
          passes,
          IsSanctioned-bounded seed.live.runtime (some rt) bounded sanctioned rt refl,
          subst (λ o. serve_http (via rt.client host) o f.request ≡ serve_http host o f.request)
              (sym loaded) (serve_http-via host rt f.request),
        )
