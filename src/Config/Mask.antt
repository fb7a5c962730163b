-- ===== src/Config/Mask.antt =====
-- internal/config/config.go: MaskedAPIKey, on the bytes of the key.
use newapi_box.Prelude.{
  ℕ, ◌+◌, ◌-◌, ◌/◌, ◌%◌, ◌≤◌, ◌<◌, ◌≡◌, refl, sym, ap, ap₂, ◌∙◌, List, [], ◌∷◌, ◌++◌, arith, ltb,
  leb, if◌then◌else◌, is_empty, length, take, drop, replicate, length-append, length-take,
  length-drop, length-replicate, leb-true, leb-false,
}
use newapi_box.Text.{Text, trim_space}

-- The bytes of one code point in UTF-8.
utf8_char : ℕ → List ℕ
utf8_char c =
    if ltb c 0x80
    then c ∷ []
    else if ltb c 0x800
    then (0xC0 + c / 64) ∷ (0x80 + c % 64) ∷ []
    else if ltb c 0x10000
    then (0xE0 + c / 4096) ∷ (0x80 + c / 64 % 64) ∷ (0x80 + c % 64) ∷ []
    else (0xF0 + c / 262144) ∷ (0x80 + c / 4096 % 64) ∷ (0x80 + c / 64 % 64) ∷ (0x80 + c % 64) ∷ []

-- A Go string as bytes.
unfoldable pub utf8 : Text → List ℕ
unfolding utf8_char
utf8 [] = []
utf8 (c ∷ s) = utf8_char c ++ utf8 s

-- strings.Repeat("*", n)
abbrev stars : ℕ → List ℕ
stars n = replicate n b'*'

-- The body of MaskedAPIKey behind the trimming, on bytes.
mask_bytes : List ℕ → List ℕ
mask_bytes key =
    if is_empty key
    then []
    else if leb (length key) 8
    then stars (length key)
    else take 4 key ++ (stars 6 ++ drop (length key - 4) key)

-- MaskedAPIKey
unfoldable pub masked_api_key : Text → List ℕ
unfolding mask_bytes utf8
masked_api_key key = mask_bytes (utf8 (trim_space key))

-- The mask of a key of up to eight bytes is its length in stars; that of a longer one shows four
-- bytes at either end of six stars, and so hides the length too.
mask_bytes-length :
    (key : List ℕ) → length (mask_bytes key) ≡ (if leb (length key) 8 then length key else 14)
unfolding mask_bytes
mask_bytes-length [] = refl
mask_bytes-length (c ∷ key) = ground (
  arith,
  length-append (take 4 (c ∷ key)) (stars 6 ++ drop (length (c ∷ key) - 4) (c ∷ key)),
  length-append (stars 6) (drop (length (c ∷ key) - 4) (c ∷ key)),
  length-take 4 (c ∷ key),
  length-drop (length (c ∷ key) - 4) (c ∷ key),
  length-replicate {A = ℕ} (length (c ∷ key)) b'*',
)

-- What the console may learn of a key.
pub data SameMask (j k : List ℕ) : Type 0 where
  short : length j ≡ length k → length k ≤ 8 → SameMask j k
  long :
      8 < length j
      → 8 < length k
      → take 4 j ≡ take 4 k
      → drop (length j - 4) j ≡ drop (length k - 4) k
      → SameMask j k

mask_bytes_short : (k : List ℕ) → length k ≤ 8 → mask_bytes k ≡ stars (length k)
unfolding mask_bytes
mask_bytes_short [] h = refl
mask_bytes_short (c ∷ k) h = rw (leb-true (length (c ∷ k)) 8 h)

mask_bytes_long :
    (k : List ℕ) → 8 < length k → mask_bytes k ≡ take 4 k ++ (stars 6 ++ drop (length k - 4) k)
unfolding mask_bytes
mask_bytes_long [] h = absurd (omega arith)
mask_bytes_long (c ∷ k) h = rw (leb-false (length (c ∷ k)) 8 h)

mask_bytes-SameMask : (j k : List ℕ) → SameMask j k → mask_bytes j ≡ mask_bytes k
mask_bytes-SameMask j k (short e h) =
    mask_bytes_short j (omega arith) ∙ ap (λ n. stars n) e ∙ sym (mask_bytes_short k h)
mask_bytes-SameMask j k (long p q t u) =
    mask_bytes_long j p
    ∙ ap₂ (λ (x y : List ℕ). x ++ (stars 6 ++ y)) t u
    ∙ sym (mask_bytes_long k q)

-- The console learns no more of a key than SameMask shares: of two keys that agree in that, it is
-- sent the same text. So a key of up to eight bytes is known by its length alone, and a longer one
-- by its first and last four bytes alone.
pub masked_api_key-SameMask :
    (j k : Text)
    → SameMask (utf8 (trim_space j)) (utf8 (trim_space k))
    → masked_api_key j ≡ masked_api_key k
unfolding masked_api_key
masked_api_key-SameMask j k = mask_bytes-SameMask (utf8 (trim_space j)) (utf8 (trim_space k))

-- The mask has the length of the key up to eight bytes, and fourteen bytes beyond.
length-masked_api_key :
    (key : Text)
    → length (masked_api_key key)
      ≡ (if leb (length (utf8 (trim_space key))) 8 then length (utf8 (trim_space key)) else 14)
unfolding masked_api_key
length-masked_api_key key = mask_bytes-length (utf8 (trim_space key))

-- Two keys that the mask does not tell apart.
abbrev pub SameKey : Text → Text → Type 0
SameKey j k = SameMask (utf8 (trim_space j)) (utf8 (trim_space k))

utf8-is_empty : (t : Text) → is_empty (utf8 t) ≡ is_empty t
unfolding utf8 utf8_char
utf8-is_empty [] = refl
utf8-is_empty (c ∷ s) = ground arith

SameMask-is_empty : (j k : List ℕ) → SameMask j k → is_empty j ≡ is_empty k
SameMask-is_empty [] [] m = refl
SameMask-is_empty (x ∷ j) (y ∷ k) m = refl
SameMask-is_empty [] (y ∷ k) (short e h) = absurd (omega (arith, e))
SameMask-is_empty [] (y ∷ k) (long p q t u) = absurd (omega arith)
SameMask-is_empty (x ∷ j) [] (short e h) = absurd (omega (arith, e))
SameMask-is_empty (x ∷ j) [] (long p q t u) = absurd (omega arith)

pub SameKey-is_empty :
    (j k : Text) → SameKey j k → is_empty (trim_space j) ≡ is_empty (trim_space k)
SameKey-is_empty j k m =
    sym (utf8-is_empty (trim_space j)) ∙ SameMask-is_empty _ _ m ∙ utf8-is_empty (trim_space k)
