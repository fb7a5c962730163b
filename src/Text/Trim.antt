-- ===== src/Text/Trim.antt =====
-- Trimming is idempotent, and leaves no blank at either end.
use newapi_box.Prelude.{ℕ, ◌≡◌, refl, ap, ◌∷◌, [], Bool, false, ◌∙◌, arith}
use newapi_box.Text.{Text, is_space, trim_left_by, trim_right_by, trim_space, trim_right}

trim_right_by_idem :
    (p : ℕ → Bool) (s : Text) → trim_right_by p (trim_right_by p s) ≡ trim_right_by p s
unfolding trim_right_by
trim_right_by_idem p [] = refl
trim_right_by_idem p (c ∷ s) = ground (arith, trim_right_by_idem p s)

abbrev StartsClear : (ℕ → Bool) → Text → Type 0
StartsClear p [] = Unit
StartsClear p (c ∷ s) = p c ≡ false

trim_left_by-StartsClear : (p : ℕ → Bool) (s : Text) → StartsClear p (trim_left_by p s)
unfolding trim_left_by
trim_left_by-StartsClear p [] = tt
trim_left_by-StartsClear p (c ∷ s) = ground (arith, trim_left_by-StartsClear p s)

trim_left_by_clear : (p : ℕ → Bool) (s : Text) → StartsClear p s → trim_left_by p s ≡ s
unfolding trim_left_by
trim_left_by_clear p [] h = refl
trim_left_by_clear p (c ∷ s) h = rw h

trim_right_by-StartsClear :
    (p : ℕ → Bool) (s : Text) → StartsClear p s → StartsClear p (trim_right_by p s)
unfolding trim_right_by
trim_right_by-StartsClear p [] h = tt
trim_right_by-StartsClear p (c ∷ s) h = ground arith

-- Trimming white space twice is trimming it once.
pub trim_space_idem : (s : Text) → trim_space (trim_space s) ≡ trim_space s
unfolding trim_space
trim_space_idem s =
    ap (trim_right_by is_space) (
      trim_left_by_clear is_space _
        (trim_right_by-StartsClear is_space _ (trim_left_by-StartsClear is_space s)))
    ∙ trim_right_by_idem is_space (trim_left_by is_space s)

pub trim_right_idem : (s : Text) (c : ℕ) → trim_right (trim_right s c) c ≡ trim_right s c
unfolding trim_right
trim_right_idem s c = trim_right_by_idem _ s

pub trim_space-nil : trim_space [] ≡ []
unfolding trim_space
trim_space-nil = refl
