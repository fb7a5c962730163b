-- ===== src/Protocol/Sse/Lines.antt =====
-- Splitting into lines, and the lines that the writer makes.
use newapi_box.Prelude.{◌<◌, ◌≡◌, ◌≢◌, refl, ap, Bool, List, [], ◌∷◌, ◌++◌, arith, All, length}
use newapi_box.Text.{Text, trim_right}
use newapi_box.Protocol.Sse.{split_lines, drop_cr, scan_lines, max_event_bytes}

-- No line feed in the text.
abbrev pub IsLine : Text → Type 0
IsLine s = All (λ c. c ≢ b'\n') s

-- The last character is no carriage return.
abbrev pub EndsClear : Text → Type 0
EndsClear [] = Unit
EndsClear (c ∷ []) = c ≢ b'\r'
EndsClear (c ∷ d ∷ s) = EndsClear (d ∷ s)

pub split_lines-line :
    (l rest : Text) → IsLine l → split_lines (l ++ b'\n' ∷ rest) ≡ l ∷ split_lines rest
unfolding split_lines
split_lines-line [] rest h = refl
split_lines-line (c ∷ l) rest h = ground (arith, split_lines-line l rest h.1)

drop_cr_clear : (l : Text) → EndsClear l → drop_cr l ≡ l
unfolding drop_cr
drop_cr_clear [] h = refl
drop_cr_clear (c ∷ []) h = ground arith
drop_cr_clear (c ∷ d ∷ l) h = ap (◌∷◌ c) (drop_cr_clear (d ∷ l) h)

pub trim_cr_clear : (l : Text) → EndsClear l → trim_right l b'\r' ≡ l
unfolding trim_right
trim_cr_clear [] h = refl
trim_cr_clear (c ∷ []) h = ground arith
trim_cr_clear (c ∷ d ∷ l) h = ground (arith, trim_cr_clear (d ∷ l) h)

-- A line that fits the scanner's buffer and ends in no carriage return is delivered as it is.
pub scan_lines-cons :
    (fails : Bool) (l : Text) (ls : List Text)
    → length l < max_event_bytes
    → EndsClear l
    → scan_lines fails (l ∷ ls)
      ≡ record { lines = l ∷ (scan_lines fails ls).lines; fails = (scan_lines fails ls).fails }
unfolding scan_lines
scan_lines-cons fails l ls short clear = ground (arith, drop_cr_clear l clear)

pub EndsClear-append : (l m : Text) → m ≢ [] → EndsClear m → EndsClear (l ++ m)
EndsClear-append [] m ne h = h
EndsClear-append (c ∷ []) [] ne h = absurd (ne refl)
EndsClear-append (c ∷ []) (d ∷ m) ne h = h
EndsClear-append (c ∷ d ∷ l) m ne h = EndsClear-append (d ∷ l) m ne h
