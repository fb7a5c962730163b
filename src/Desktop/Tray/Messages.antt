-- ===== src/Desktop/Tray/Messages.antt =====
-- What ends the message loop.
use newapi_box.Prelude.{
  ◌≡◌, refl, ap, ◌∙◌, false, if◌then◌else◌, List, [], ◌∷◌, some, Bool-cases, inl, inr,
}
use newapi_box.Desktop.Tray.{
  Tray, wm_r_button_up, tray_callback_msg, cmd_exit, remove, choose, show_menu, tray_event, Input,
  wnd_proc, dispatch, dispatch_all,
}

-- The operator chooses the menu's entry to exit.
pub record IsExit (i : Input) : Type 0 where
  pub of_tray : i.msg ≡ tray_callback_msg
  pub right : i.lparam ≡ wm_r_button_up
  pub chosen : i.choice ≡ some cmd_exit

-- Some member has the property.
pub data Any (P : Input → Type 0) : List Input → Type 0 where
  here : {i : Input} {is : List Input} → P i → Any P (i ∷ is)
  there : {i : Input} {is : List Input} → Any P is → Any P (i ∷ is)

module _ (previous : Input → Tray → Tray) where
  exit-stops :
      (i : Input) (t : Tray)
      → IsExit i
      → dispatch previous i t ≡ record (remove t) { looping = false }
  unfolding dispatch wnd_proc tray_event show_menu choose
  exit-stops i t e = rw e.of_tray (rw e.right (rw e.chosen refl))

  dispatch_all-over :
      (is : List Input) (t : Tray)
      → t.looping ≡ false
      → (dispatch_all previous is t).looping ≡ false
  unfolding dispatch_all
  dispatch_all-over [] t off = off
  dispatch_all-over (i ∷ is) t off =
      ap (λ b. (dispatch_all previous is (if b then dispatch previous i t else t)).looping) off
      ∙ dispatch_all-over is t off

  exit-ends :
      (i : Input) (t : Tray)
      → IsExit i
      → (if t.looping then dispatch previous i t else t).looping ≡ false
  exit-ends i t e = elim (Bool-cases t.looping) [
    | inl on ↦
        ap (λ b. (if b then dispatch previous i t else t).looping) on
        ∙ ap (λ (u : Tray). u.looping) (exit-stops i t e)
    | inr off ↦ ap (λ b. (if b then dispatch previous i t else t).looping) off ∙ off
  ]

  -- The menu's entry to exit ends the message loop, whatever other messages come and whatever the
  -- previous procedure does with those that are handed to it.
  pub exits-end :
      (is : List Input) (t : Tray) → Any IsExit is → (dispatch_all previous is t).looping ≡ false
  unfolding dispatch_all
  exits-end [] t a = elim a [ ]
  exits-end (i ∷ is) t (here e) = dispatch_all-over is _ (exit-ends i t e)
  exits-end (i ∷ is) t (there a) = exits-end is _ a
