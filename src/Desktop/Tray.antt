-- ===== src/Desktop/Tray.antt =====
-- desktop/shell/tray.go: the window's messages and the icon in the tray. The calls of Windows and of
-- WebView2 are changes of what they act on: whether the window is shown, which page it has loaded,
-- whether the icon is there, and whether the message loop goes on. What the window's previous
-- procedure does with a message is an argument.
pub mod Messages
use newapi_box.Prelude.{
  ℕ, ◌==◌, Bool, true, false, ◌||◌, if◌then◌else◌, List, [], ◌∷◌, Option, none, some,
}

pub data Page : Type 0 where
  console_page blank_page : Page

-- The field `suspended` of tray, and what its calls act on.
pub record Tray : Type 0 where
  pub suspended : Bool
  pub shown : Bool
  pub page : Page
  pub icon : Bool
  pub looping : Bool

-- The constants of the messages, of the menu's commands, and of the lparam of the tray's message.
abbrev pub wm_close : ℕ
wm_close = 0x0010

abbrev pub wm_l_button_up : ℕ
wm_l_button_up = 0x0202

abbrev pub wm_l_button_dbl_clk : ℕ
wm_l_button_dbl_clk = 0x0203

abbrev pub wm_r_button_up : ℕ
wm_r_button_up = 0x0205

abbrev pub tray_callback_msg : ℕ
tray_callback_msg = 0x8001

abbrev pub cmd_show_window : ℕ
cmd_show_window = 1

abbrev pub cmd_exit : ℕ
cmd_exit = 2

-- newTray on a window that is shown, and run's Navigate behind it
abbrev pub new_tray : Tray
new_tray = record {
  suspended = false;
  shown = true;
  page = console_page;
  icon = true;
  looping = true;
}

-- tray.remove
unfoldable pub remove : Tray → Tray
remove t = record t { icon = false }

-- tray.restore
unfoldable pub restore : Tray → Tray
restore t =
    record (if t.suspended then record t { page = console_page; suspended = false } else t) {
      shown = true;
    }

-- tray.hide; the view is there
unfoldable pub hide : Tray → Tray
hide t = record (if t.suspended then t else record t { page = blank_page; suspended = true }) {
  shown = false;
}

-- The switch over the menu's choice.
unfoldable pub choose : ℕ → Tray → Tray
unfolding restore remove
choose choice t =
    if choice == cmd_show_window
    then restore t
    else if choice == cmd_exit
    then record (remove t) { looping = false }
    else t

-- tray.showMenu; the choice is `none` if there is no menu, and 0 where nothing is chosen
unfoldable pub show_menu : Option ℕ → Tray → Tray
unfolding choose
show_menu none t = t
show_menu (some choice) t = choose choice t

-- The switch over lparam.
unfoldable pub tray_event : Option ℕ → ℕ → Tray → Tray
unfolding restore show_menu
tray_event choice lparam t =
    if lparam == wm_l_button_up || lparam == wm_l_button_dbl_clk
    then restore t
    else if lparam == wm_r_button_up
    then show_menu choice t
    else t

-- A message, and what the operator chooses if it brings up the menu.
pub record Input : Type 0 where
  pub msg : ℕ
  pub lparam : ℕ
  pub choice : Option ℕ

-- tray.wndProc; the second result says whether the message is handed to the previous procedure
unfoldable pub wnd_proc : Input → Tray → Tray × Bool
unfolding hide tray_event
wnd_proc i t =
    if i.msg == wm_close
    then (hide t, false)
    else if i.msg == tray_callback_msg
    then (tray_event i.choice i.lparam t, false)
    else (t, true)

module _ (previous : Input → Tray → Tray) where
  -- A message that wndProc does not handle goes to the procedure that the window had before, the
  -- library's; that one ends the loop when the window is destroyed.
  unfoldable pub dispatch : Input → Tray → Tray
  unfolding wnd_proc
  dispatch i t = let (u, passed) = wnd_proc i t in if passed then previous i u else u

  -- The message loop. A message that comes behind the end of the loop is not dispatched.
  unfoldable pub dispatch_all : List Input → Tray → Tray
  unfolding dispatch
  dispatch_all [] t = t
  dispatch_all (i ∷ is) t = dispatch_all is (if t.looping then dispatch i t else t)
