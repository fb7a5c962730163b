-- ===== src/Config/Entries.antt =====
-- The maps of a configuration as lists of entries: a Go map has no order, so that the entries of one
-- map may stand in the list in any order, and come in any order where the code ranges over them.
use newapi_box.Prelude.{
  ◌≡◌, ◌≢◌, refl, sym, ap, ◌∙◌, subst, [], ◌∷◌, ◌++◌, Option, none, some, arith, All, if◌then◌else◌,
}
use mathlib.Core.List.{Permᴰ}
use mathlib.Core.List.Permᴰ
use mathlib.Core.Logic.{∥∥₁_elim}
use mathlib.Mathlib.Data.Multiset.Defs.{Multiset, of_list, coe-eq-coe}
use newapi_box.Text.{Text, equal}
use newapi_box.Text.Equal.{equal_iff}
use newapi_box.Config.{StringMap, lookup}

-- One entry for a key, as in every Go map.
abbrev pub Distinct : StringMap → Type 0
Distinct [] = Unit
Distinct (e ∷ m) = All (λ f. e.0 ≢ f.0) m × Distinct m

pub All-Permᴰ : (P : Text × Text → Type 0) {m n : StringMap} → Permᴰ m n → All P m → All P n
All-Permᴰ P Permᴰ.nil h = tt
All-Permᴰ P (Permᴰ.cons {l₂ = n} e p) h = (subst P e h.0, All-Permᴰ P p h.1)
All-Permᴰ P (Permᴰ.swap e f) h = (subst P f h.1.0, (subst P e h.0, h.1.1))
All-Permᴰ P (Permᴰ.trans p q) h = All-Permᴰ P q (All-Permᴰ P p h)

ne_symm : (e f : Text × Text) → e.0 ≢ f.0 → f.0 ≢ e.0
ne_symm e f ne h = ne (sym h)

pub Distinct-Permᴰ : {m n : StringMap} → Permᴰ m n → Distinct m → Distinct n
Distinct-Permᴰ Permᴰ.nil h = tt
Distinct-Permᴰ (Permᴰ.cons {b = b} {l₂ = n} e p) h = (
  subst (λ (f : Text × Text). All (λ g. f.0 ≢ g.0) n) e (All-Permᴰ _ p h.0),
  Distinct-Permᴰ p h.1,
)
Distinct-Permᴰ (Permᴰ.swap {a = a} {b = b} {b' = y} {l = l} e f) h =
    subst (λ (x : Text × Text). Distinct (x ∷ y ∷ l)) f
      (subst (λ (y : Text × Text). Distinct (b ∷ y ∷ l)) e
        ((ne_symm a b h.0.0, h.1.0), (h.0.1, h.1.1)))
Distinct-Permᴰ (Permᴰ.trans p q) h = Distinct-Permᴰ q (Distinct-Permᴰ p h)

lookup-swap :
    (a b : Text × Text) (l : StringMap) (j : Text)
    → a.0 ≢ b.0
    → lookup (a ∷ b ∷ l) j ≡ lookup (b ∷ a ∷ l) j
unfolding lookup
lookup-swap (k, v) (i, w) l j ne = ground (arith, equal_iff k j, equal_iff i j)

lookup-tail :
    (e : Text × Text) (m n : StringMap) (j : Text)
    → lookup m j ≡ lookup n j
    → lookup (e ∷ m) j ≡ lookup (e ∷ n) j
unfolding lookup
lookup-tail (k, v) m n j h = ap (λ o. if equal k j then some v else o) h

-- A lookup does not see the order of the entries.
pub lookup-Permᴰ : {m n : StringMap} → Permᴰ m n → Distinct m → (j : Text) → lookup m j ≡ lookup n j
lookup-Permᴰ Permᴰ.nil h j = refl
lookup-Permᴰ (Permᴰ.cons {a = a} {l₁ = m} {l₂ = n} e p) h j =
    lookup-tail a m n j (lookup-Permᴰ p h.1 j) ∙ ap (λ x. lookup (x ∷ n) j) e
lookup-Permᴰ (Permᴰ.swap {a = a} {b = b} {a' = y} {l = l} e f) h j =
    lookup-swap a b l j h.0.0 ∙ ap (λ x. lookup (x ∷ a ∷ l) j) f ∙ ap (λ x. lookup (y ∷ x ∷ l) j) e
lookup-Permᴰ (Permᴰ.trans p q) h j = lookup-Permᴰ p h j ∙ lookup-Permᴰ q (Distinct-Permᴰ p h) j

-- The value of the last entry for a key, which is what is left behind a loop of assignments.
unfoldable pub latest : StringMap → Text → Option Text
latest [] j = none
latest ((k, v) ∷ m) j = elim (latest m j) [
  | some w ↦ some w
  | none ↦ (if equal k j then some v else none)
]

latest-absent : (m : StringMap) (k : Text) → All (λ f. k ≢ f.0) m → latest m k ≡ none
unfolding latest
latest-absent [] k h = refl
latest-absent ((i, w) ∷ m) k h = ground (arith, latest-absent m k h.1, equal_iff i k, h.0)

pub latest-Distinct : (m : StringMap) → Distinct m → (j : Text) → latest m j ≡ lookup m j
unfolding latest lookup
latest-Distinct [] h j = refl
latest-Distinct ((k, v) ∷ m) h j =
    ground (arith, latest-Distinct m h.1 j, latest-absent m k h.0, equal_iff k j)

pub latest-Permᴰ : {m n : StringMap} → Permᴰ m n → Distinct m → (j : Text) → latest m j ≡ latest n j
latest-Permᴰ {m} {n} p h j =
    latest-Distinct m h j ∙ lookup-Permᴰ p h j ∙ sym (latest-Distinct n (Distinct-Permᴰ p h) j)

pub latest-last : (m : StringMap) (k v : Text) → latest (m ++ (k, v) ∷ []) k ≡ some v
unfolding latest
latest-last [] k v = ground (arith, equal_iff k k)
latest-last ((i, w) ∷ m) k v = ground (arith, latest-last m k v)

-- The map of a list of entries: the entries in no order. Two lists are orders of one map.
abbrev pub SameMap : StringMap → StringMap → Type 0
SameMap m n = ◌≡◌ {A = Multiset (Text × Text)} (of_list m) (of_list n)

pub Permᴰ-SameMap : {m n : StringMap} → Permᴰ m n → SameMap m n
Permᴰ-SameMap p = coe-eq-coe.1 ∣ p ∣₁

pub values-set : IsSet (Option Text)
values-set = hlevel

pub texts-set : IsSet Text
texts-set = hlevel

-- What holds of all orders of a map, as an equation of values.
pub SameMap-elim :
    {A : Type 0} {m n : StringMap} {a b : A} → IsSet A → SameMap m n → (Permᴰ m n → a ≡ b) → a ≡ b
SameMap-elim {A} {m} {n} {a} {b} set same f = ∥∥₁_elim (coe-eq-coe.0 same) (set a b) f

pub lookup-SameMap :
    {m n : StringMap} → SameMap m n → Distinct m → (j : Text) → lookup m j ≡ lookup n j
lookup-SameMap same distinct j = SameMap-elim values-set same (λ p. lookup-Permᴰ p distinct j)

-- Any entry may be the last of its map.
pub last-SameMap :
    (before after : StringMap) (e : Text × Text)
    → SameMap (before ++ e ∷ after) ((before ++ after) ++ e ∷ [])
last-SameMap before after e =
    Permᴰ-SameMap
      (Permᴰ.trans (Permᴰ.middle e before after) (Permᴰ.append_comm (e ∷ []) (before ++ after)))

-- Or the first.
pub first-SameMap :
    (before after : StringMap) (e : Text × Text)
    → SameMap (before ++ e ∷ after) (e ∷ (before ++ after))
first-SameMap before after e = Permᴰ-SameMap (Permᴰ.middle e before after)
