-- ===== src/System/Sanctioned.antt =====
-- Which runtimes the relay may run with, in every reachable state.
use newapi_box.Prelude.{
  ◌≡◌, ◌≢◌, inl, refl, sym, subst, true, List, [], ◌∷◌, ◌++◌, Option, some, All, All-append,
}
use newapi_box.Prelude.Int.{ℤ}
use newapi_box.Text.{Text}
use newapi_box.Config.{Config, normalize}
use newapi_box.Config.Normalize.{clone-some}
use newapi_box.Config.Valid.{IsValid}
use newapi_box.Config.Store.Publish.{IsServed, save-IsServed, save-IsPublished}
use newapi_box.Proxy.Admit.{Runtime, built, new_runtime, authorized}
use newapi_box.Proxy.Serve.{Host, serve_http}
use newapi_box.Proxy.Serve.Gate.{sent-IsAdmitted}
use newapi_box.System.{
  Flight, Saver, planned, stored, swapped, System, Step, begin, finish, plan, save_fails,
  save_succeeds, apply_fails, swap, close_previous, Reach, here, later,
}

All-split :
    {A : Type 0} (Q : A → Type 0) (before : List A) (x : A) (after : List A)
    → All Q (before ++ x ∷ after)
    → All Q before × Q x × All Q after
All-split Q [] x after h = (tt, h.0, h.1)
All-split Q (y ∷ before) x after h =
    let (front, it, back) = All-split Q before x after h.1 in ((h.0, front), it, back)

module _ (parse_duration : Text → Option ℤ) (encode : Config → Option Text) where
  -- The runtime of the start, or one that was built from a configuration whose normalization
  -- Validate accepts.
  pub data IsSanctioned (start : Option Runtime) : Option Runtime → Type 0 where
    of_start : {o : Option Runtime} → o ≡ start → IsSanctioned start o
    of_save :
        (next : Config) (rt : Runtime)
        → new_runtime parse_duration next ≡ built rt
        → IsValid parse_duration (normalize next)
        → IsSanctioned start (some rt)

  -- Validate accepts the normalization of a configuration that waits for Apply.
  abbrev IsSaved : Saver → Type 0
  IsSaved (planned next) = Unit
  IsSaved (stored next) = IsValid parse_duration (normalize next)
  IsSaved (swapped previous) = Unit

  pub record Inv (seed s : System) : Type 0 where
    pub served : IsServed parse_duration encode seed.live.store s.live.store
    pub runs : IsSanctioned seed.live.runtime s.live.runtime
    pub flights : All (λ f. IsSanctioned seed.live.runtime f.runtime) s.flights
    pub saved : All IsSaved s.savers

  module _ {ℓ} (P V W S : Type ℓ) (seed : System) where
    Step-Inv : {s t : System} → Step P V W S parse_duration encode s t → Inv seed s → Inv seed t
    Step-Inv {s} (begin r) i = record {
      served = i.served;
      runs = i.runs;
      flights = (i.runs, i.flights);
      saved = i.saved;
    }
    Step-Inv {s} (finish host before after f e) i =
        let (front, it, back) = All-split _ before f after (subst (All _) e i.flights) in
        record {
          served = i.served;
          runs = i.runs;
          flights = All-append _ before after front back;
          saved = i.saved;
        }
    Step-Inv {s} (plan h path method v e) i = record {
      served = i.served;
      runs = i.runs;
      flights = i.flights;
      saved = (tt, i.saved);
    }
    Step-Inv {s} (save_fails a before after next e failed) i =
        let (front, it, back) =
          All-split IsSaved before (planned next) after (subst (All IsSaved) e i.saved) in
        record {
          served =
              save-IsServed parse_duration encode a seed.live.store s.live.store (some next)
                i.served;
          runs = i.runs;
          flights = i.flights;
          saved = All-append IsSaved before after front back;
        }
    Step-Inv {s} (save_succeeds a before after next e ok) i =
        let (front, it, back) =
          All-split IsSaved before (planned next) after (subst (All IsSaved) e i.saved) in
        let p = save-IsPublished parse_duration encode a s.live.store (some next) ok in
        record {
          served =
              save-IsServed parse_duration encode a seed.live.store s.live.store (some next)
                i.served;
          runs = i.runs;
          flights = i.flights;
          saved =
              All-append IsSaved before (stored next ∷ after) front
                (subst (λ c. IsValid parse_duration (normalize c)) (clone-some next) p.valid, back);
        }
    Step-Inv {s} (apply_fails before after next e failed) i =
        let (front, it, back) =
          All-split IsSaved before (stored next) after (subst (All IsSaved) e i.saved) in
        record {
          served = i.served;
          runs = i.runs;
          flights = i.flights;
          saved = All-append IsSaved before after front back;
        }
    Step-Inv {s} (swap before after next rt e made) i =
        let (front, it, back) =
          All-split IsSaved before (stored next) after (subst (All IsSaved) e i.saved) in
        record {
          served = i.served;
          runs = of_save next rt made it;
          flights = i.flights;
          saved = All-append IsSaved before (swapped s.live.runtime ∷ after) front (tt, back);
        }
    Step-Inv {s} (close_previous before after previous e) i =
        let (front, it, back) =
          All-split IsSaved before (swapped previous) after (subst (All IsSaved) e i.saved) in
        record {
          served = i.served;
          runs = i.runs;
          flights = i.flights;
          saved = All-append IsSaved before after front back;
        }

    Inv-start : seed.flights ≡ [] → seed.savers ≡ [] → Inv seed seed
    Inv-start calm quiet = record {
      served = inl refl;
      runs = of_start refl;
      flights = subst (All (λ f. IsSanctioned seed.live.runtime f.runtime)) (sym calm) tt;
      saved = subst (All IsSaved) (sym quiet) tt;
    }

    -- From a state with no handler under way, and whatever requests and saves come between one
    -- another: the store's snapshot is the seed's or one that Validate accepted; the live runtime,
    -- and that of each request under way, is the start's or was built from a configuration whose
    -- normalization Validate accepted; and so is what waits for Apply.
    pub Reach-Inv :
        {s : System}
        → seed.flights ≡ []
        → seed.savers ≡ []
        → Reach P V W S parse_duration encode seed s
        → Inv seed s
    Reach-Inv calm quiet here = Inv-start calm quiet
    Reach-Inv calm quiet (later r st) = Step-Inv st (Reach-Inv calm quiet r)

    -- If a request that is under way in a reachable state, wherever the state has gone since the
    -- request came in, sends anything upstream, then its key passes the check of the runtime that it
    -- loaded, which is the start's or was built from a configuration whose normalization Validate
    -- accepts.
    pub sent-IsSanctioned :
        {s : System} (host : Host P V W S) (before after : List Flight) (f : Flight)
        → seed.flights ≡ []
        → seed.savers ≡ []
        → Reach P V W S parse_duration encode seed s
        → s.flights ≡ before ++ f ∷ after
        → (serve_http host f.runtime f.request).sent ≢ []
        → (rt : Runtime) × (f.runtime ≡ some rt)
          × (authorized rt f.request.credentials ≡ true)
          × IsSanctioned seed.live.runtime (some rt)
    sent-IsSanctioned host before after f calm quiet r e h =
        let (front, it, back) =
          All-split (λ (g : Flight). IsSanctioned seed.live.runtime g.runtime) before f after
            (subst (All (λ (g : Flight). IsSanctioned seed.live.runtime g.runtime)) e
              (Reach-Inv calm quiet r).flights) in
        let admitted = sent-IsAdmitted host f.runtime f.request h in
        (
          admitted.runtime,
          admitted.configured,
          admitted.passes,
          subst (IsSanctioned seed.live.runtime) admitted.configured it,
        )
