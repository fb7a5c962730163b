-- ===== src/System/Race.antt =====
-- Two saves that overlap.
use newapi_box.Prelude.{◌++◌, ◌≡◌, refl, sym, ap, ◌∙◌, [], ◌∷◌, Option, none, some}
use newapi_box.Prelude.Int.{ℤ}
use newapi_box.Text.{Text}
use newapi_box.Config.{Config, normalize}
use newapi_box.Config.Normalize.{clone-some}
use newapi_box.Config.File.{Answers, Disk}
use newapi_box.Config.Store.{current_of, save}
use newapi_box.Config.Store.Publish.{save-IsPublished}
use newapi_box.Proxy.Types.{Credentials}
use newapi_box.Proxy.Admit.{Runtime, built, new_runtime}
use newapi_box.Admin.View.{View}
use newapi_box.Admin.Save.{next_config}
use newapi_box.Admin.Routes.{save_config_api, route}
use newapi_box.System.{
  planned, stored, System, plan, save_succeeds, swap, close_previous, Reach, here, later,
}

module _ (parse_duration : Text → Option ℤ) (encode : Config → Option Text) where
  module _ {ℓ} (P V W S : Type ℓ) where
    -- Two saves that both read the snapshot before either has saved, that both save, and whose
    -- configurations both give a runtime, can end
    -- with the second one's configuration in the store and on the disk and the first one's runtime in
    -- the relay, with neither under way any more.
    pub overlapping_saves :
        (s : System) (a b : Answers) (h : Credentials) (path method : Text) (v w : View)
        {rt rt' : Runtime}
        → route (current_of (some s.live.store)) h path method ≡ save_config_api
        → let current = current_of (some s.live.store) in
          let first = save parse_duration encode a s.live.store (some (next_config v current)) in
          let second = save parse_duration encode b first.0 (some (next_config w current)) in
          first.1 ≡ none
          → second.1 ≡ none
          → new_runtime parse_duration (next_config v current) ≡ built rt
          → new_runtime parse_duration (next_config w current) ≡ built rt'
          → (t : System) × (content : Text) × Reach P V W S parse_duration encode s t
            × (t.savers ≡ s.savers)
            × (t.live.store.current ≡ some (normalize (next_config w current)))
            × (encode (normalize (next_config w current)) ≡ some content)
            × (t.live.store.disk.target ≡ some (content ++ b'\n' ∷ []))
            × (t.live.runtime ≡ some rt)
    overlapping_saves s a b h path method v w {rt} {rt'} at ok ok' e e' =
        let current = current_of (some s.live.store) in
        let nv = next_config v current in
        let nw = next_config w current in
        let planned_both = later (later here (plan h path method v at)) (plan h path method w at) in
        let stored_first =
          later planned_both (save_succeeds a (planned nw ∷ []) s.savers nv refl ok) in
        let stored_both =
          later stored_first (save_succeeds b [] (stored nv ∷ s.savers) nw refl ok') in
        let swapped_second = later stored_both (swap [] (stored nv ∷ s.savers) nw rt' refl e') in
        let closed_second =
          later swapped_second (close_previous [] (stored nv ∷ s.savers) s.live.runtime refl) in
        let swapped_first = later closed_second (swap [] s.savers nv rt refl e) in
        let p = save-IsPublished parse_duration encode b _ (some nw) ok' in
        (
          _,
          p.content,
          later swapped_first (close_previous [] s.savers (some rt') refl),
          refl,
          p.published ∙ ap (λ c. some (normalize c)) (clone-some nw),
          ap (λ c. encode (normalize c)) (sym (clone-some nw)) ∙ p.encoded,
          ap (λ (d : Disk). d.target) p.on_disk,
          refl,
        )
