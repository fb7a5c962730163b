-- ===== src/Desktop/Tip.antt =====
-- desktop/shell/tray.go: copyTip, which puts the text of the icon's tip into an array of 128 UTF-16
-- units.
pub mod Bounds
use newapi_box.Prelude.{
  ℕ, ◌+◌, ◌-◌, ◌/◌, ◌%◌, ◌==◌, leb, ltb, Bool, true, false, ◌&&◌, ◌||◌, if◌then◌else◌, List, [],
  ◌∷◌, ◌++◌, Option, none, some, length, take,
}
use newapi_box.Text.{Text}

-- utf16.AppendRune; a half of a surrogate pair becomes U+FFFD
unfoldable pub utf16_char : ℕ → List ℕ
utf16_char c =
    if ltb c 0xD800 || (leb 0xE000 c && ltb c 0x10000)
    then c ∷ []
    else if leb 0x10000 c && ltb c 0x110000
    then (0xD800 + (c - 0x10000) / 0x400) ∷ (0xDC00 + (c - 0x10000) % 0x400) ∷ []
    else 0xFFFD ∷ []

unfoldable pub utf16 : Text → List ℕ
unfolding utf16_char
utf16 [] = []
utf16 (c ∷ s) = utf16_char c ++ utf16 s

unfoldable pub has_nul : Text → Bool
has_nul [] = false
has_nul (c ∷ s) = c == 0 || has_nul s

-- syscall.UTF16FromString: the units and a NUL; a text with a NUL in it is an error
unfoldable pub utf16_from_string : Text → Option (List ℕ)
unfolding utf16 has_nul
utf16_from_string s = if has_nul s then none else some (utf16 s ++ 0 ∷ [])

-- copy(dst, src)
unfoldable pub overwrite {ℓ} : {A : Type ℓ} → List A → List A → List A
overwrite [] src = []
overwrite (d ∷ dst) [] = d ∷ dst
overwrite (d ∷ dst) (s ∷ src) = s ∷ overwrite dst src

unfoldable pub copy_wide : List ℕ → Option (List ℕ) → List ℕ
unfolding overwrite
copy_wide tip none = tip
copy_wide tip (some wide) =
    let limit = length tip - 1 in
    overwrite tip (if ltb limit (length wide) then take limit wide else wide)

-- copyTip, on the array szTip
unfoldable pub copy_tip : List ℕ → Text → List ℕ
unfolding copy_wide utf16_from_string
copy_tip tip s = copy_wide tip (utf16_from_string s)
