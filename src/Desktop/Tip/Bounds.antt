-- ===== src/Desktop/Tip/Bounds.antt =====
-- What the array of the tip holds behind copyTip.
use newapi_box.Prelude.{
  ℕ, zero, suc, ◌+◌, ◌-◌, ◌≤◌, ◌≡◌, refl, sym, ap, ◌∙◌, true, false, if◌then◌else◌, ltb, List, [],
  ◌∷◌, ◌++◌, some, arith, length, take, replicate, length-append, length-replicate, length-take,
  Bool-cases, inl, inr,
}
use newapi_box.Text.{Text}
use newapi_box.Desktop.Tip.{utf16, has_nul, utf16_from_string, overwrite, copy_wide, copy_tip}

replicate-eq : {n m : ℕ} → n ≡ m → replicate {A = ℕ} n 0 ≡ replicate {A = ℕ} m 0
replicate-eq e = ap (λ k. replicate {A = ℕ} k 0) e

overwrite-zeros :
    (n : ℕ) (src : List ℕ)
    → length src ≤ n
    → overwrite (replicate n 0) src ≡ src ++ replicate (n - length src) 0
unfolding overwrite
overwrite-zeros zero [] h = refl
overwrite-zeros zero (s ∷ src) h = absurd (omega arith)
overwrite-zeros (suc n) [] h = replicate-eq {n = suc n} {m = suc n - 0} (omega arith)
overwrite-zeros (suc n) (s ∷ src) h =
    let e : suc n - length (s ∷ src) ≡ n - length src = omega arith in
    ap (◌∷◌ s) (overwrite-zeros n src (omega arith) ∙ ap (λ k. src ++ replicate k 0) (sym e))

take-nil : (n : ℕ) → take {A = ℕ} n [] ≡ []
take-nil zero = refl
take-nil (suc n) = refl

take-all : (n : ℕ) (xs : List ℕ) → length xs ≤ n → take n xs ≡ xs
take-all n [] h = take-nil n
take-all zero (x ∷ xs) h = absurd (omega arith)
take-all (suc n) (x ∷ xs) h = ap (◌∷◌ x) (take-all n xs (omega arith))

clip : (n : ℕ) (xs : List ℕ) → (if ltb n (length xs) then take n xs else xs) ≡ take n xs
clip n xs = elim (Bool-cases (ltb n (length xs))) [
  | inl long ↦ rw long refl
  | inr short ↦ rw short (sym (take-all n xs (ground arith)))
]

-- The units of a text in an array of `n`, with zeros behind them.
abbrev padded : ℕ → List ℕ → List ℕ
padded n xs = xs ++ replicate (n - length xs) 0

-- A NUL behind the units is one of the zeros.
take-nul :
    (n : ℕ) (xs : List ℕ) → padded (suc n) (take n (xs ++ 0 ∷ [])) ≡ padded (suc n) (take n xs)
take-nul zero xs = refl
take-nul (suc n) [] =
    ap (◌∷◌ 0) (
      ap (λ t. t ++ replicate (suc (suc n) - suc (length t)) 0) (take-nil n)
      ∙ replicate-eq {n = suc (suc n) - 1} {m = suc n} (omega arith))
    ∙ replicate-eq {n = suc (suc n)} {m = suc (suc n) - 0} (omega arith)
take-nul (suc n) (x ∷ xs) = ap (◌∷◌ x) (
    ap (λ k. take n (xs ++ 0 ∷ []) ++ replicate k 0) (omega arith)
    ∙ take-nul n xs
    ∙ ap (λ k. take n xs ++ replicate k 0) (omega arith))

length-take_le : (n : ℕ) (xs : List ℕ) → length (take n xs) ≤ n
length-take_le n xs = omega (arith, length-take n xs)

copy_wide-padded :
    (n : ℕ) (xs : List ℕ)
    → copy_wide (replicate (suc n) 0) (some (xs ++ 0 ∷ [])) ≡ padded (suc n) (take n xs)
unfolding copy_wide
copy_wide-padded n xs =
    let size : length (replicate {A = ℕ} (suc n) 0) - 1 ≡ n =
      omega (arith, length-replicate {A = ℕ} n 0) in
    ap
      (λ k.
        overwrite (replicate (suc n) 0)
          (if ltb k (length (xs ++ 0 ∷ [])) then take k (xs ++ 0 ∷ []) else xs ++ 0 ∷ []))
      size
    ∙ ap (overwrite (replicate (suc n) 0)) (clip n (xs ++ 0 ∷ []))
    ∙ overwrite-zeros (suc n) (take n (xs ++ 0 ∷ []))
        (omega (arith, length-take_le n (xs ++ 0 ∷ [])))
    ∙ take-nul n xs

-- In an array of n + 1 zeros copyTip leaves the first n units of the text, or all where there are
-- fewer, and zeros behind them: the tip stays inside the array and ends in a NUL, however long the
-- text is. A text with a NUL in it is not copied.
pub copy_tip-padded :
    (n : ℕ) (s : Text)
    → (has_nul s ≡ false
        → copy_tip (replicate (suc n) 0) s
          ≡ take n (utf16 s) ++ replicate (suc n - length (take n (utf16 s))) 0)
      × (has_nul s ≡ true → copy_tip (replicate (suc n) 0) s ≡ replicate (suc n) 0)
      × (length (copy_tip (replicate (suc n) 0) s) ≡ suc n)
unfolding copy_tip utf16_from_string
copy_tip-padded n s = (
  λ clean. rw clean (copy_wide-padded n (utf16 s)),
  λ nul. rw nul (unfold copy_wide in refl),
  elim (Bool-cases (has_nul s)) [
    | inl nul ↦ rw nul (unfold copy_wide in length-replicate {A = ℕ} (suc n) 0)
    | inr clean ↦ rw clean (
        ap length (copy_wide-padded n (utf16 s))
        ∙ length-append (take n (utf16 s)) _
        ∙ ap (λ k. length (take n (utf16 s)) + k)
            (length-replicate {A = ℕ} (suc n - length (take n (utf16 s))) 0)
        ∙ omega (arith, length-take_le n (utf16 s)))
  ],
)
