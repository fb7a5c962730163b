-- ===== src/Admin/Probe/Order.antt =====
-- The model of a Gemini probe: probeModel takes the first value that is not blank, in the order in
-- which the loop happens to meet the entries.
use newapi_box.Prelude.{
  ◌≡◌, ◌≢◌, ◌⊎◌, inl, inr, ◌↔◌, refl, sym, ◌∙◌, subst, [], ◌∷◌, ◌++◌, is_empty, Bool-cases, All,
  append_assoc,
}
use mathlib.Core.List.Permᴰ
use newapi_box.Text.{Text, codes, trim_space}
use newapi_box.Text.Equal.{is_empty_iff, not_empty_iff}
use newapi_box.Config.{StringMap}
use newapi_box.Config.Entries.{All-Permᴰ, SameMap, SameMap-elim, texts-set, first-SameMap}
use newapi_box.Admin.Probe.{probe_model}

abbrev IsBlank : Text × Text → Type 0
IsBlank e = trim_space e.1 ≡ []

-- Each value of the map is blank or, trimmed, `w`.
abbrev pub IsOnly : Text → StringMap → Type 0
IsOnly w m = All (λ e. trim_space e.1 ≢ [] → trim_space e.1 ≡ w) m

probe_model-blank : (m : StringMap) → All IsBlank m → probe_model m ≡ codes "probe"
unfolding probe_model
probe_model-blank [] h = refl
probe_model-blank ((k, v) ∷ m) h = rw (h.0) (probe_model-blank m h.1)

probe_model-IsOnly : (w : Text) (m : StringMap) → IsOnly w m → (probe_model m ≡ w) ⊎ All IsBlank m
unfolding probe_model
probe_model-IsOnly w [] h = inr tt
probe_model-IsOnly w ((k, v) ∷ m) h = elim (Bool-cases (is_empty (trim_space v))) [
  | inl blank ↦ elim (probe_model-IsOnly w m h.1) [
    | inl found ↦ inl (rw blank found)
    | inr rest ↦ inr ((is_empty_iff _).0 blank, rest)
  ]
  | inr set ↦ inl (rw set (h.0 ((not_empty_iff _).0 set)))
]

probe_model-set :
    (k v : Text) (m : StringMap) → trim_space v ≢ [] → probe_model ((k, v) ∷ m) ≡ trim_space v
unfolding probe_model
probe_model-set k v m h = rw ((not_empty_iff _).1 h) refl

-- Each value that is not blank is the model of the probe in some order of the map.
probe_model-picks :
    (before after : StringMap) (e : Text × Text)
    → trim_space e.1 ≢ []
    → (n : StringMap) × SameMap (before ++ e ∷ after) n × (probe_model n ≡ trim_space e.1)
probe_model-picks before after (k, v) h =
    (_, first-SameMap before after (k, v), probe_model-set k v (before ++ after) h)

-- All orders of the map give one model.
abbrev pub IsSteady : StringMap → Type 0
IsSteady m = (n : StringMap) → SameMap m n → probe_model n ≡ probe_model m

IsSteady-IsOnly :
    (w : Text) (before after : StringMap)
    → ((n : StringMap) → SameMap (before ++ after) n → probe_model n ≡ w)
    → IsOnly w after
IsSteady-IsOnly w before [] steady = tt
IsSteady-IsOnly w before (e ∷ after) steady = (
  λ set. let (n, same, picked) = probe_model-picks before after e set in sym picked ∙ steady n same,
  IsSteady-IsOnly w (before ++ e ∷ []) after (
      subst (λ t. (n : StringMap) → SameMap t n → probe_model n ≡ w)
        (sym (append_assoc before (e ∷ []) after)) steady),
)

-- The model of a Gemini probe is the same whatever order the loop takes exactly if the values of the
-- map that are not blank are all the same when they are trimmed.
pub probe_model_iff : (m : StringMap) → IsSteady m ↔ IsOnly (probe_model m) m
probe_model_iff m = (
  λ steady. IsSteady-IsOnly (probe_model m) [] m steady,
  λ only n same. SameMap-elim texts-set same (λ p.
      elim (probe_model-IsOnly (probe_model m) n (All-Permᴰ _ p only)) [
        | inl found ↦ found
        | inr blank ↦
            probe_model-blank n blank
            ∙ sym (probe_model-blank m (All-Permᴰ IsBlank (Permᴰ.symm p) blank))
      ]),
)
