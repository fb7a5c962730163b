-- ===== src/Text/Equal.antt =====
-- The comparison of texts decides their equality; prefixes and cuts are what they should be.
use newapi_box.Prelude.{
  ℕ, is_empty, false, ◌≡◌, ◌≢◌, refl, ◌∷◌, [], ◌++◌, ◌↔◌, true, arith, some, All, Option-cases, inl,
  inr,
}
use newapi_box.Text.{Text, equal, cut_prefix, cut}

pub equal_iff : (s t : Text) → (equal s t ≡ true) ↔ (s ≡ t)
unfolding equal
equal_iff [] [] = ground arith
equal_iff [] (y ∷ ys) = ground arith
equal_iff (x ∷ xs) [] = ground arith
equal_iff (x ∷ xs) (y ∷ ys) = ground (arith, equal_iff xs ys)

pub equal_refl : (s : Text) → equal s s ≡ true
equal_refl s = (equal_iff s s).1 refl

pub cut_prefix-append : (p s : Text) → cut_prefix (p ++ s) p ≡ some s
unfolding cut_prefix
cut_prefix-append [] s = refl
cut_prefix-append (c ∷ p) s = ground (arith, cut_prefix-append p s)

pub cut_prefix_sound : (s p r : Text) → cut_prefix s p ≡ some r → s ≡ p ++ r
unfolding cut_prefix
cut_prefix_sound s [] r h = ground arith
cut_prefix_sound [] (p ∷ ps) r h = ground arith
cut_prefix_sound (c ∷ s) (p ∷ ps) r h = ground (arith, cut_prefix_sound s ps r)

-- strings.Cut splits at the first separator.
pub cut_sound :
    (s : Text) (sep : ℕ) (before after : Text)
    → cut s sep ≡ some (before, after)
    → (s ≡ before ++ (sep ∷ after)) × All (λ c. c ≢ sep) before
unfolding cut
cut_sound [] sep before after h = cc
cut_sound (c ∷ s) sep before after h = elim (Option-cases (cut s sep)) [
  | inl nowhere ↦ ground arith
  | inr ((x, y), found) ↦ ground (arith, cut_sound s sep x y found)
]

pub cut_complete :
    (sep : ℕ) (before after : Text)
    → All (λ c. c ≢ sep) before
    → cut (before ++ (sep ∷ after)) sep ≡ some (before, after)
unfolding cut
cut_complete sep [] after h = ground arith
cut_complete sep (c ∷ before) after h = ground (arith, cut_complete sep before after h.1)

pub is_empty_iff : (t : Text) → (is_empty t ≡ true) ↔ (t ≡ [])
is_empty_iff [] = (λ _. refl, λ _. refl)
is_empty_iff (c ∷ t) = (λ h. cc, λ h. cc)

pub not_empty_iff : (t : Text) → (is_empty t ≡ false) ↔ (t ≢ [])
not_empty_iff [] = (λ h. cc, λ h. absurd (h refl))
not_empty_iff (c ∷ t) = (λ _ e. cc, λ _. refl)
