-- ===== src/Admin/Save/Outcome.antt =====
-- What saveConfig leaves in the store and in the runtime, by its response.
use newapi_box.Prelude.{◌≡◌, ◌≢◌, refl, Bool, not, Option, none, some}
use newapi_box.Prelude.Int.{ℤ}
use newapi_box.Text.{Text, equal, trim_space}
use newapi_box.Config.{Config}
use newapi_box.Config.Validate.{Error}
use newapi_box.Config.File.{Answers}
use newapi_box.Config.Store.{Store, current_of, SaveError, save}
use newapi_box.Config.Store.Publish.{IsPublished, save-IsPublished, save_failure}
use newapi_box.Proxy.Admit.{Runtime, RuntimeResult, built, not_built, new_runtime}
use newapi_box.Admin.View.{View}
use newapi_box.Admin.Save.{
  next_config, Live, SaveReply, saved, save_refused, apply_refused, apply_runtime, after_save,
  save_config,
}

module _ (parse_duration : Text → Option ℤ) (encode : Config → Option Text) where
  -- What a response says of the store and the runtime after it: on success the store holds the
  -- normalized configuration and the runtime is built from the one before Normalize; a refused
  -- save leaves both; a refused Apply has published the configuration and leaves the runtime.
  pub data IsOutcome (l m : Live) (next : Config) (restart : Bool) : SaveReply → Type 0 where
    on_saved :
        {rt : Runtime}
        → IsPublished parse_duration encode l.store m.store (some next)
        → new_runtime parse_duration next ≡ built rt
        → m.runtime ≡ some rt
        → IsOutcome l m next restart (saved restart)
    on_refused :
        {e : SaveError}
        → m.store.current ≡ l.store.current
        → m.runtime ≡ l.runtime
        → IsOutcome l m next restart (save_refused e)
    on_not_applied :
        {e : Error}
        → IsPublished parse_duration encode l.store m.store (some next)
        → new_runtime parse_duration next ≡ not_built e
        → m.runtime ≡ l.runtime
        → IsOutcome l m next restart (apply_refused e)

  apply-IsOutcome :
      (l : Live) (t : Store) (next : Config) (restart : Bool) (r : RuntimeResult)
      → IsPublished parse_duration encode l.store t (some next)
      → new_runtime parse_duration next ≡ r
      → let x = apply_runtime (record l { store = t }) restart r in IsOutcome l x.0 next restart x.1
  unfolding apply_runtime
  apply-IsOutcome l t next restart (built rt) p h = on_saved p h refl
  apply-IsOutcome l t next restart (not_built e) p h = on_not_applied p h refl

  after_save-IsOutcome :
      (l : Live) (next : Config) (restart : Bool) (t : Store) (e : Option SaveError)
      → (e ≡ none → IsPublished parse_duration encode l.store t (some next))
      → (e ≢ none → t.current ≡ l.store.current)
      → let x = after_save parse_duration encode l next restart (t, e) in
        IsOutcome l x.0 next restart x.1
  unfolding after_save
  after_save-IsOutcome l next restart t none p q =
      apply-IsOutcome l t next restart (new_runtime parse_duration next) (p refl) refl
  after_save-IsOutcome l next restart t (some e) p q = on_refused (q (λ h. cc h)) refl

  -- Every response of saveConfig, for a body that decodes, tells what became of the store and the
  -- runtime, and a restart is asked for exactly when the trimmed listen address is another one.
  pub save_config-IsOutcome :
      (a : Answers) (l : Live) (v : View)
      → let x = save_config parse_duration encode a l v in
        let current = current_of (some l.store) in
        IsOutcome l x.0
          (next_config v current)
          (not (equal (trim_space v.listen) current.listen))
          x.1
  unfolding save_config
  save_config-IsOutcome a l v =
      let next = next_config v (current_of (some l.store)) in
      let r = save parse_duration encode a l.store (some next) in
      after_save-IsOutcome l next _ r.0 r.1
        (save-IsPublished parse_duration encode a l.store (some next))
        (save_failure parse_duration encode a l.store (some next))
