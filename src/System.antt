-- ===== src/System.antt =====
-- The server while it runs: the state that its handlers share (the fields of proxy.Proxy in
-- internal/proxy/proxy.go and of the store), and the steps in which concurrent requests reach it.
-- Two handlers take steps in any order. A relayed request loads the runtime once, at its entry, and
-- appends its event at its end. saveConfig of internal/admin/admin.go reads the snapshot, saves, swaps
-- the runtime and closes the previous one, and nothing keeps the steps of another save from coming
-- between these four.

pub mod Sanctioned
pub mod Race
pub mod Finished
pub mod Closed
pub mod Bounded
pub mod Started
use newapi_box.Prelude.{ℕ, ◌≡◌, Bool, true, false, List, [], ◌∷◌, ◌++◌, Option, none, some}
use newapi_box.Prelude.Int.{ℤ}
use newapi_box.Text.{Text}
use newapi_box.Config.{Config}
use newapi_box.Config.File.{Answers}
use newapi_box.Config.Store.{Store, SaveError, current_of, save}
use newapi_box.Config.Validate.{Error}
use newapi_box.Proxy.Admit.{Runtime, built, not_built, new_runtime}
use newapi_box.Proxy.Events.{EventLog, record_event}
use newapi_box.Proxy.Serve.{ClientRequest, Host, Served, serve_http}
use newapi_box.Proxy.Types.{Credentials}
use newapi_box.Admin.View.{View}
use newapi_box.Admin.Routes.{Route, save_config_api, route}
use newapi_box.Admin.Save.{Live, next_config, swap_runtime, close_runtime}

-- A relayed request that is being served, with the runtime that it loaded.
pub record Flight : Type 0 where
  pub runtime : Option Runtime
  pub request : ClientRequest

-- A saveConfig that has built `next`, one whose Save has returned nil, and one whose Apply has
-- swapped the runtime and has yet to close the previous one, if any.
pub data Saver : Type 0 where
  planned : Config → Saver
  stored : Config → Saver
  swapped : Option Runtime → Saver

pub record System : Type 0 where
  pub live : Live
  pub log : EventLog
  pub flights : List Flight
  pub savers : List Saver

module _ {ℓ} (P V W S : Type ℓ) (parse_duration : Text → Option ℤ)
    (encode : Config → Option Text) where
  pub data Step (s : System) : System → Type ℓ where
    begin :
        (r : ClientRequest)
        → Step s
            (record s { flights = record { runtime = s.live.runtime; request = r } ∷ s.flights })
    finish :
        (host : Host P V W S) (before after : List Flight) (f : Flight)
        → s.flights ≡ before ++ f ∷ after
        → Step s (record s {
          flights = before ++ after;
          log = record_event s.log (serve_http host f.runtime f.request).logged;
        })
    plan :
        (h : Credentials) (path method : Text) (v : View)
        → route (current_of (some s.live.store)) h path method ≡ save_config_api
        → Step s (record s {
          savers = planned (next_config v (current_of (some s.live.store))) ∷ s.savers;
        })
    save_fails :
        (a : Answers) (before after : List Saver) (next : Config) {e : SaveError}
        → s.savers ≡ before ++ planned next ∷ after
        → (save parse_duration encode a s.live.store (some next)).1 ≡ some e
        → Step s (record s {
          live = record s.live {
            store = (save parse_duration encode a s.live.store (some next)).0;
          };
          savers = before ++ after;
        })
    save_succeeds :
        (a : Answers) (before after : List Saver) (next : Config)
        → s.savers ≡ before ++ planned next ∷ after
        → (save parse_duration encode a s.live.store (some next)).1 ≡ none
        → Step s (record s {
          live = record s.live {
            store = (save parse_duration encode a s.live.store (some next)).0;
          };
          savers = before ++ stored next ∷ after;
        })
    apply_fails :
        (before after : List Saver) (next : Config) {e : Error}
        → s.savers ≡ before ++ stored next ∷ after
        → new_runtime parse_duration next ≡ not_built e
        → Step s (record s { savers = before ++ after })
    swap :
        (before after : List Saver) (next : Config) (rt : Runtime)
        → s.savers ≡ before ++ stored next ∷ after
        → new_runtime parse_duration next ≡ built rt
        → Step s (record s {
          live = swap_runtime s.live rt;
          savers = before ++ swapped s.live.runtime ∷ after;
        })
    close_previous :
        (before after : List Saver) (previous : Option Runtime)
        → s.savers ≡ before ++ swapped previous ∷ after
        → Step s (record s { live = close_runtime previous s.live; savers = before ++ after })

  pub data Reach (s : System) : System → Type ℓ where
    here : Reach s s
    later : {t u : System} → Reach s t → Step t u → Reach s u
