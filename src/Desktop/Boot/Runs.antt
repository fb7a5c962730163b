-- ===== src/Desktop/Boot/Runs.antt =====
-- When the desktop version ends.
use newapi_box.Prelude.{
  ℕ, ◌≡◌, refl, ap, ◌∙◌, Bool, true, false, List, [], ◌∷◌, Option, some, arith,
}
use newapi_box.Startup.{Startup, running, exits}
use newapi_box.Desktop.Tray.{Tray, new_tray, remove, Input, dispatch_all}
use newapi_box.Desktop.Tray.Messages.{Any, IsExit, exits-end}
use newapi_box.Desktop.Wait.{Port}
use newapi_box.Desktop.Wait.Answers.{Sleeps, wait_for_port-answers}
use newapi_box.Desktop.Boot.{
  not_ready, Mutex, no_handle, existing, fresh, acquire_single_instance, remove_icon,
  shut_down_server, destroy_window, Ended, failed, finished, after_loop, after_wait, after_boot,
  run, desktop_main,
}

module _ (port : Port) (previous : Input → Tray → Tray) (now : ℕ) (inputs : List Input) where
  after_loop-ends : (t : Tray) → t.looping ≡ false → (e : Ended) × (after_loop t ≡ some e)
  unfolding after_loop
  after_loop-ends t off =
      (finished (remove t) (remove_icon ∷ shut_down_server ∷ destroy_window ∷ []), rw off refl)

  after_wait-ends :
      (up : Option Bool) (b : Bool)
      → up ≡ some b
      → Any IsExit inputs
      → (e : Ended) × (after_wait previous inputs up ≡ some e)
  unfolding after_wait
  after_wait-ends up false h chosen =
      (failed not_ready (shut_down_server ∷ destroy_window ∷ []), ap (after_wait previous inputs) h)
  after_wait-ends up true h chosen =
      let (e, ends) =
        after_loop-ends (dispatch_all previous inputs new_tray)
          (exits-end previous inputs new_tray chosen) in
      (e, ap (after_wait previous inputs) h ∙ ends)

  after_boot-ends :
      (server : Startup)
      → Sleeps port
      → Any IsExit inputs
      → (e : Ended) × (after_boot port previous now inputs server ≡ some e)
  unfolding after_boot
  after_boot-ends (exits x) slow chosen = (_, refl)
  after_boot-ends (running r) slow chosen =
      let (b, answers) = (wait_for_port-answers port 5000 now 50 slow (omega arith)).0 in
      after_wait-ends _ b answers chosen

  -- Where a sleep takes its 100 ms, the desktop version does end once the operator has chosen to exit
  -- from the menu, whatever else has come in, whatever the window's previous procedure does, and
  -- whatever the start has led to.
  pub desktop_main-ends :
      (mutex : Mutex) (window : Bool) (server : Startup)
      → Sleeps port
      → Any IsExit inputs
      → (e : Ended) × (desktop_main port previous now inputs mutex window server ≡ some e)
  unfolding desktop_main acquire_single_instance run
  desktop_main-ends existing window server slow chosen = (_, refl)
  desktop_main-ends no_handle false server slow chosen = (_, refl)
  desktop_main-ends fresh false server slow chosen = (_, refl)
  desktop_main-ends no_handle true server slow chosen = after_boot-ends server slow chosen
  desktop_main-ends fresh true server slow chosen = after_boot-ends server slow chosen
