-- ===== src/Startup/Built.antt =====
-- The relay gets its runtime from a configuration that loads.
use newapi_box.Prelude.{
  ◌≡◌, ◌≢◌, inl, inr, refl, sym, ap, ◌∙◌, subst, true, List, [], ◌∷◌, map, Option, none, some, All,
  All-imp,
}
use newapi_box.Prelude.Int.{ℤ, is_positive}
use newapi_box.Text.{Text, codes, trim_space}
use newapi_box.Text.Trim.{trim_space-nil}
use newapi_box.Config.{
  Upstream, Config, default_config, normalize, normalize_upstream, migrate, or_starter,
  active_upstream,
}
use newapi_box.Config.Normalize.{IsNormal, clone-some}
use newapi_box.Config.Resolve.{
  FirstNamed, here, there, IsActive, named, first, blank, active_upstream-IsActive,
}
use newapi_box.Config.Validate.{TimeoutResult, duration, refused, timeout_error}
use newapi_box.Config.Valid.{IsTimeout, IsValid, request_timeout_iff}
use newapi_box.Config.File.{Disk}
use newapi_box.Config.Store.{new_store, current_of}
use newapi_box.Proxy.Admit.{Runtime, built, new_runtime, with_timeout}
use newapi_box.Listen.{refused}
use newapi_box.Startup.{new_relay}

module _ (parse_duration : Text → Option ℤ) where
  abbrev TimesOut : Upstream → Type 0
  TimesOut u = IsTimeout parse_duration u.timeout

  first-TimesOut :
      {u : Upstream} {us : List Upstream} → FirstNamed u us → All TimesOut us → TimesOut u
  first-TimesOut (here e) h = subst TimesOut (sym e) h.0
  first-TimesOut (there ne f) h = first-TimesOut f h.1

  IsActive-TimesOut :
      (c : Config) {u : Upstream} → All TimesOut c.upstreams → IsActive c u → TimesOut u
  IsActive-TimesOut c h (named e f) = first-TimesOut f h
  IsActive-TimesOut c h (first missing e same) =
      subst TimesOut (sym same) (subst (All TimesOut) e h).0
  IsActive-TimesOut c h (blank e same) = subst TimesOut (sym same) (inl trim_space-nil)

  with_timeout-built :
      (c : Config) (u : Upstream) (r : TimeoutResult)
      → timeout_error r ≡ none
      → (rt : Runtime) × (with_timeout c u r ≡ built rt)
  unfolding with_timeout
  with_timeout-built c u (duration d) h = (_, refl)
  with_timeout-built c u (refused e) h = cc h

  new_runtime-built :
      (c : Config)
      → All TimesOut c.upstreams
      → (rt : Runtime) × (new_runtime parse_duration c ≡ built rt)
  unfolding new_runtime
  new_runtime-built c h = with_timeout-built c (active_upstream (some c)) _ (
      (request_timeout_iff parse_duration (active_upstream (some c))).1
        (IsActive-TimesOut c h (active_upstream-IsActive c)))

  -- What a start loads: entries, with trimmed timeouts that Validate lets pass, and no legacy one.
  pub record IsStartable (c : Config) : Type 0 where
    no_legacy : c.upstream ≡ none
    some_upstream : c.upstreams ≢ []
    trimmed : All (λ u. trim_space u.timeout ≡ u.timeout) c.upstreams
    timeouts : All TimesOut c.upstreams

  map-TimesOut :
      (us : List Upstream)
      → All (λ u. trim_space u.timeout ≡ u.timeout) us
      → All TimesOut us
      → All TimesOut (map normalize_upstream us)
  unfolding normalize_upstream
  map-TimesOut [] t h = tt
  map-TimesOut (u ∷ us) t h =
      (subst (IsTimeout parse_duration) (sym t.0) h.0, map-TimesOut us t.1 h.1)

  entries-kept : (us : List Upstream) → us ≢ [] → or_starter (migrate none us) ≡ us
  unfolding or_starter migrate
  entries-kept [] h = absurd (h refl)
  entries-kept (u ∷ us) h = refl

  normalize-TimesOut : (c : Config) → IsStartable c → All TimesOut (normalize c).upstreams
  unfolding normalize
  normalize-TimesOut c h =
      subst (λ us. All TimesOut (map normalize_upstream us))
        (sym (
          ap (λ o. or_starter (migrate o c.upstreams)) h.no_legacy
          ∙ entries-kept c.upstreams h.some_upstream))
        (map-TimesOut c.upstreams h.trimmed h.timeouts)

  pub new_relay-built :
      (path addr : Text) (disk : Disk) (c : Config)
      → IsStartable c
      → (rt : Runtime) × (new_relay parse_duration
            (new_store path (some (record c { listen = addr })) disk)
          ≡ built rt)
  unfolding new_relay new_store current_of
  new_relay-built path addr disk c h =
      let (rt, e) = new_runtime-built (normalize (record c { listen = addr })) (
        normalize-TimesOut (record c { listen = addr })
          (record {
            no_legacy = h.no_legacy;
            some_upstream = h.some_upstream;
            trimmed = h.trimmed;
            timeouts = h.timeouts;
          })) in
      (
        rt,
        ap (λ k. new_runtime parse_duration (normalize k)) (clone-some (record c { listen = addr }))
            ∙ e,
      )

  -- time.ParseDuration reads the timeout of the starter's entry.
  abbrev pub ReadsStarter : Type 0
  ReadsStarter = (d : ℤ) × (parse_duration (codes "5m") ≡ some d) × (is_positive d ≡ true)

  pub default-IsStartable : ReadsStarter → IsStartable default_config
  unfolding trim_space
  default-IsStartable five = record {
    no_legacy = refl;
    some_upstream = λ e. cc e;
    trimmed = (refl, tt);
    timeouts = (inr five, tt);
  }

  pub valid-IsStartable : (c : Config) → IsNormal c → IsValid parse_duration c → IsStartable c
  valid-IsStartable c n v = record {
    no_legacy = n.no_legacy;
    some_upstream = n.some_upstream;
    trimmed = All-imp c.upstreams (λ u t. t.1) n.entries_trimmed;
    timeouts = All-imp c.upstreams (λ u t. t.2) v.entries;
  }
