-- ===== src/Admin/Save/Order.antt =====
-- What cleanMap makes of a map, whose entries come in any order.
use newapi_box.Prelude.{
  ◌≡◌, refl, sym, ap, ◌∙◌, [], ◌∷◌, ◌++◌, Option, none, some, arith, is_empty, if◌then◌else◌,
  Bool-cases, inl, inr,
}
use mathlib.Core.List.{filter_map, filter_map-append, filter_map-cons-some}
use mathlib.Core.List.Permᴰ
use newapi_box.Text.{Text, trim_space}
use newapi_box.Config.{StringMap, lookup}
use newapi_box.Config.Entries.{
  Distinct, latest, latest-last, latest-Distinct, latest-Permᴰ, SameMap, values-set, SameMap-elim,
  last-SameMap,
}
use newapi_box.Admin.Save.{assign, clean_onto, clean_map}
use newapi_box.Admin.Save.Keys.{lookup-assign}

-- The entry that one of the console becomes, unless its key is blank.
abbrev clean_entry : Text × Text → Option (Text × Text)
clean_entry e = if is_empty (trim_space e.0) then none else some (trim_space e.0, trim_space e.1)

abbrev pub cleaned : StringMap → StringMap
cleaned m = filter_map clean_entry m

abbrev or_stored : Option Text → Option Text → Option Text
or_stored (some v) o = some v
or_stored none o = o

or_stored-none : (o : Option Text) → or_stored o none ≡ o
or_stored-none none = refl
or_stored-none (some v) = refl

lookup-clean_onto :
    (out m : StringMap) (j : Text)
    → lookup (clean_onto out m) j ≡ or_stored (latest (cleaned m) j) (lookup out j)
unfolding clean_onto latest filter_map lookup
lookup-clean_onto out [] j = refl
lookup-clean_onto out ((k, v) ∷ m) j = elim (Bool-cases (is_empty (trim_space k))) [
  | inl blank ↦ rw blank (lookup-clean_onto out m j)
  | inr set ↦ rw set (
      ground (
        arith,
        lookup-clean_onto (assign out (trim_space k) (trim_space v)) m j,
        lookup-assign out (trim_space k) (trim_space v) j,
      ))
]

lookup-clean_map : (m : StringMap) (j : Text) → lookup (clean_map m) j ≡ latest (cleaned m) j
unfolding clean_map lookup
lookup-clean_map m j = lookup-clean_onto [] m j ∙ or_stored-none (latest (cleaned m) j)

-- A map whose keys stay distinct when they are trimmed is saved with its entries trimmed, but for
-- those with a blank key, whatever the order in which the loop meets them.
pub clean_map-SameMap :
    (m n : StringMap)
    → SameMap m n
    → Distinct (cleaned m)
    → (j : Text) → lookup (clean_map n) j ≡ lookup (cleaned m) j
clean_map-SameMap m n same distinct j =
    lookup-clean_map n j
    ∙ sym (
        SameMap-elim values-set same
          (λ p. latest-Permᴰ (Permᴰ.filter_map clean_entry p) distinct j))
    ∙ latest-Distinct (cleaned m) distinct j

-- Where two keys are the same when they are trimmed, the value depends on the order: each entry with
-- that key is the one that is saved, in some order of the same map.
pub clean_map-picks :
    (before after : StringMap) (e f : Text × Text)
    → clean_entry e ≡ some f
    → (n : StringMap) × SameMap (before ++ e ∷ after) n × (lookup (clean_map n) f.0 ≡ some f.1)
unfolding filter_map
clean_map-picks before after e f cleans = (
  (before ++ after) ++ e ∷ [],
  last-SameMap before after e,
  lookup-clean_map ((before ++ after) ++ e ∷ []) f.0
      ∙ ap (λ t. latest t f.0)
          (filter_map-append clean_entry (before ++ after) (e ∷ [])
            ∙ ap (λ t. cleaned (before ++ after) ++ t)
                (filter_map-cons-some clean_entry e [] cleans))
      ∙ latest-last (cleaned (before ++ after)) f.0 f.1,
)
