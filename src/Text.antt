-- ===== src/Text.antt =====
-- Go strings, as lists of code points (of bytes where the code walks wire data), and the functions
-- of Go's package strings that internal/ and main.go call. The proofs are in the children.
pub mod Equal
pub mod Trim
use newapi_box.Prelude.{
  ℕ, zero, suc, ◌==◌, leb, Bool, true, false, ◌&&◌, ◌||◌, if◌then◌else◌, List, [], ◌∷◌, ◌++◌,
  Option, none, some, String, code, is_empty, length, ◌-◌,
}

abbrev pub Text : Type 0
Text = List ℕ

-- The code points of a literal.
abbrev pub codes : String → Text
codes String.[] = []
codes (String.◌∷◌ c s) = code c ∷ codes s

-- a == b
unfoldable pub equal : Text → Text → Bool
equal [] [] = true
equal (x ∷ xs) (y ∷ ys) = x == y && equal xs ys
equal _ _ = false

-- unicode.IsSpace
unfoldable pub is_space : ℕ → Bool
is_space c =
    (leb 9 c && leb c 13)
    || c == 32
    || c == 0x85
    || c == 0xA0
    || c == 0x1680
    || (leb 0x2000 c && leb c 0x200A)
    || c == 0x2028
    || c == 0x2029
    || c == 0x202F
    || c == 0x205F
    || c == 0x3000

trim_left_by : (ℕ → Bool) → Text → Text
trim_left_by p [] = []
trim_left_by p (c ∷ s) = if p c then trim_left_by p s else c ∷ s

trim_right_by : (ℕ → Bool) → Text → Text
trim_right_by p [] = []
trim_right_by p (c ∷ s) =
    let rest = trim_right_by p s in if is_empty rest && p c then [] else c ∷ rest

-- strings.TrimSpace
unfoldable pub trim_space : Text → Text
unfolding is_space trim_left_by trim_right_by
trim_space s = trim_right_by is_space (trim_left_by is_space s)

-- One byte of a text in UTF-8 that is to consist of blanks alone, behind the bytes of a blank that
-- is not complete: those that are then pending, or `none` where a character is no blank.
blank_byte : Text → ℕ → Option Text
blank_byte [] c =
    if (leb 9 c && leb c 13) || c == 32
    then some []
    else if c == 0xC2 || c == 0xE1 || c == 0xE2 || c == 0xE3
    then some (c ∷ [])
    else none
blank_byte (a ∷ []) c =
    if a == 0xC2 && (c == 0x85 || c == 0xA0)
    then some []
    else if (a == 0xE1 && c == 0x9A)
        || (a == 0xE2 && (c == 0x80 || c == 0x81))
        || (a == 0xE3 && c == 0x80)
    then some (a ∷ c ∷ [])
    else none
blank_byte (a ∷ b ∷ _) c =
    if (a == 0xE1 && c == 0x80)
      || (a == 0xE2
          && b == 0x80
          && ((leb 0x80 c && leb c 0x8A) || c == 0xA8 || c == 0xA9 || c == 0xAF))
      || (a == 0xE2 && b == 0x81 && c == 0x9F)
      || (a == 0xE3 && c == 0x80)
    then some []
    else none

blank_from : Text → Text → Bool
unfolding blank_byte
blank_from pending [] = is_empty pending
blank_from pending (c ∷ s) = elim (blank_byte pending c) [
  | none ↦ false
  | some left ↦ blank_from left s
]

-- len(bytes.TrimSpace(b)) == 0, for the bytes of a text in UTF-8
unfoldable pub is_blank : Text → Bool
unfolding blank_from
is_blank b = blank_from [] b

-- strings.TrimRight(s, c) for a cutset of one character
unfoldable pub trim_right : Text → ℕ → Text
unfolding trim_right_by
trim_right s c = trim_right_by (λ d. d == c) s

-- strings.CutPrefix
unfoldable pub cut_prefix : Text → Text → Option Text
cut_prefix s [] = some s
cut_prefix [] (p ∷ ps) = none
cut_prefix (c ∷ s) (p ∷ ps) = let rest = cut_prefix s ps in if c == p then rest else none

-- strings.HasPrefix
unfoldable pub has_prefix : Text → Text → Bool
unfolding cut_prefix
has_prefix s p = elim (cut_prefix s p) [ none ↦ false | some _ ↦ true ]

-- strings.TrimPrefix
unfoldable pub trim_prefix : Text → Text → Text
unfolding cut_prefix
trim_prefix s p = elim (cut_prefix s p) [ none ↦ s | some rest ↦ rest ]

-- strings.HasSuffix
unfoldable pub has_suffix : Text → Text → Bool
unfolding equal
has_suffix [] suffix = equal [] suffix
has_suffix (c ∷ s) suffix = equal (c ∷ s) suffix || has_suffix s suffix

-- The parts before and after the first separator; `none` where there is no separator.
push_before : ℕ → Option (Text × Text) → Option (Text × Text)
push_before c none = none
push_before c (some (before, after)) = some (c ∷ before, after)

-- strings.Cut with a separator of one character
unfoldable pub cut : Text → ℕ → Option (Text × Text)
unfolding push_before
cut [] sep = none
cut (c ∷ s) sep = let rest = cut s sep in if c == sep then some ([], s) else push_before c rest

-- strings.Join
unfoldable pub join : List Text → Text → Text
join [] sep = []
join (x ∷ []) sep = x
join (x ∷ y ∷ rest) sep = x ++ (sep ++ join (y ∷ rest) sep)

-- strings.ReplaceAll, for a nonempty old text; the number is how much of a match is yet to skip
replace_from : Text → Text → ℕ → Text → Text
replace_from old new skip [] = []
replace_from old new (suc skip) (c ∷ s) = replace_from old new skip s
replace_from old new zero (c ∷ s) =
    (if has_prefix (c ∷ s) old then new else c ∷ [])
    ++ replace_from old new (if has_prefix (c ∷ s) old then length old - 1 else 0) s

unfoldable pub replace_all : Text → Text → Text → Text
unfolding replace_from has_prefix
replace_all s old new = replace_from old new 0 s
