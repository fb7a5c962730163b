-- ===== src/Examples/Shell.antt =====
-- The desktop version's window, the tip of its icon, and its end.
use newapi_box.Prelude.{
  ◌==◌, if◌then◌else◌, false, ◌≡◌, refl, true, leb, [], ◌∷◌, none, some, arith,
}
use newapi_box.Text.{codes}
use newapi_box.Startup.{Startup, running}
use newapi_box.Examples.Data.{store, runtime}
use newapi_box.Desktop.Boot.{fresh, Ended, desktop_main}
use newapi_box.Desktop.Boot.Runs.{desktop_main-ends}
use newapi_box.Desktop.Wait.{Port}
use newapi_box.Desktop.Tray.{wm_close, wm_r_button_up, tray_callback_msg, cmd_exit, Tray, Input}
use newapi_box.Desktop.Tray.Messages.{IsExit, Any, here, there}

abbrev closing : Input
closing = record { msg = wm_close; lparam = 0; choice = none }

abbrev exiting : Input
exiting = record { msg = tray_callback_msg; lparam = wm_r_button_up; choice = some cmd_exit }

-- A procedure that ends the loop at WM_DESTROY.
abbrev window_proc : Input → Tray → Tray
window_proc i t = if i.msg == 2 then record t { looping = false } else t

-- It accepts from 150 ms on.
abbrev slow_port : Port
slow_port = record { connects = λ t. leb 150 t; dial = λ t. 1; sleep = λ t. 100 }

abbrev served : Startup
served =
    running
      (record { address = codes "127.0.0.1:18888"; store = store; runtime = runtime; notices = [] })

chosen : Any IsExit (closing ∷ exiting ∷ [])
chosen = there (here (record { of_tray = refl; right = refl; chosen = refl }))

desktop_main-ends_example :
    (e : Ended) × (desktop_main slow_port window_proc 0 (closing ∷ exiting ∷ []) fresh true served
      ≡ some e)
desktop_main-ends_example =
    desktop_main-ends slow_port window_proc 0 (closing ∷ exiting ∷ []) fresh true served
      (λ t. omega arith) chosen
