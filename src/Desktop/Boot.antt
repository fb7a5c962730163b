-- ===== src/Desktop/Boot.antt =====
-- desktop/shell/main.go: main, run, acquireSingleInstance and disableProxyForWebView. What Windows,
-- WebView2 and the clock answer are arguments, and so are the messages that the window gets.
pub mod Runs
use newapi_box.Prelude.{
  ℕ, Bool, true, false, if◌then◌else◌, List, [], ◌∷◌, ◌++◌, Option, none, some, is_empty,
}
use newapi_box.Text.{Text, codes, trim_space, join}
use newapi_box.Startup.{Exit, Startup, running, exits}
use newapi_box.Desktop.Tray.{Tray, new_tray, remove, Input, dispatch_all}
use newapi_box.Desktop.Wait.{Port, wait_for_port}

-- What CreateMutexW comes to: no handle, a handle of a mutex that was there, or of a new one.
pub data Mutex : Type 0 where
  no_handle existing fresh : Mutex

unfoldable pub acquire_single_instance : Mutex → Bool
acquire_single_instance no_handle = true
acquire_single_instance existing = false
acquire_single_instance fresh = true

abbrev webview_args : List Text
webview_args =
    codes "--no-proxy-server"
    ∷ codes "--disable-background-networking"
    ∷ codes "--disable-component-update"
    ∷ codes "--disable-sync"
    ∷ codes "--disable-extensions"
    ∷ codes "--disable-default-apps"
    ∷ codes "--no-first-run"
    ∷ codes "--renderer-process-limit=1"
    ∷ codes "--disk-cache-size=8388608"
    ∷ codes "--media-cache-size=8388608"
    ∷ codes "--mute-audio"
    ∷ codes "--disable-gpu"
    ∷ codes
        "--disable-features=Translate,MediaRouter,DialMediaRouteProvider,BackgroundFetch,BackgroundSync"
    ∷ []

-- The value that disableProxyForWebView gives the variable, by the one that it has.
unfoldable disable_proxy_for_web_view : Text → Text
unfolding join
disable_proxy_for_web_view own =
    if is_empty (trim_space own)
    then join webview_args (codes " ")
    else trim_space own ++ codes " " ++ join webview_args (codes " ")

pub data RunError : Type 0 where
  no_web_view : RunError
  server_failed : Exit → RunError
  not_ready : RunError

-- The deferred calls of run, each by what it asks for; Destroy posts WM_CLOSE to the window.
pub data Cleanup : Type 0 where
  remove_icon shut_down_server destroy_window : Cleanup

-- The end of the program, with the deferred calls in the order in which they are made.
pub data Ended : Type 0 where
  already_running : Ended
  failed : RunError → List Cleanup → Ended
  finished : Tray → List Cleanup → Ended

-- The argument of os.Exit, or 0 where main returns
unfoldable pub exit_status : Ended → ℕ
exit_status already_running = 0
exit_status (failed e cs) = 1
exit_status (finished t cs) = 0

-- The message loop and what comes behind it; `none` while the loop goes on.
unfoldable pub after_loop : Tray → Option Ended
unfolding remove
after_loop t =
    if t.looping
    then none
    else some (finished (remove t) (remove_icon ∷ shut_down_server ∷ destroy_window ∷ []))

-- run behind the wait for the server
unfoldable pub after_wait : (Input → Tray → Tray) → List Input → Option Bool → Option Ended
unfolding after_loop dispatch_all
after_wait previous inputs none = none
after_wait previous inputs (some false) =
    some (failed not_ready (shut_down_server ∷ destroy_window ∷ []))
after_wait previous inputs (some true) = after_loop (dispatch_all previous inputs new_tray)

-- The rounds of the wait: its 5 s are less than 51 sleeps.
abbrev pub wait_rounds : ℕ
wait_rounds = 51

module _ (port : Port) (previous : Input → Tray → Tray) (now : ℕ) (inputs : List Input) where
  -- run behind what startServer returns
  unfoldable pub after_boot : Startup → Option Ended
  unfolding after_wait wait_for_port
  after_boot (exits e) = some (failed (server_failed e) (destroy_window ∷ []))
  after_boot (running r) = after_wait previous inputs (wait_for_port port wait_rounds 5000 now)

  -- run, by whether there is a window
  unfoldable pub run : Bool → Startup → Option Ended
  unfolding after_boot
  run window server = if window then after_boot server else some (failed no_web_view [])

  -- main
  unfoldable pub desktop_main : Mutex → Bool → Startup → Option Ended
  unfolding acquire_single_instance run
  desktop_main mutex window server =
      if acquire_single_instance mutex then run window server else some already_running
