-- ===== src/Admin/View/Shown.antt =====
-- Configurations that the console does not tell apart.
use newapi_box.Prelude.{
  ℕ, suc, ◌≡◌, refl, sym, ap, ap₂, ◌∙◌, subst, Bool, true, false, not, if◌then◌else◌, List, [], ◌∷◌,
  map, Option, none, some, arith, is_empty, length,
}
use newapi_box.Text.{Text, equal, trim_space}
use newapi_box.Config.{Upstream, Config, find_in, find_upstream, first_or_zero, active_upstream}
use newapi_box.Config.Mask.{utf8, short, SameKey, SameKey-is_empty, masked_api_key-SameMask}
use newapi_box.Admin.View.{upstream_view_of, view_of}

-- Two upstreams that differ in their keys alone, and not in the masks of these.
abbrev SameUpstream : Upstream → Upstream → Type 0
SameUpstream u v = (v ≡ record u { api_key = v.api_key }) × SameKey u.api_key v.api_key

abbrev SameUpstreams : List Upstream → List Upstream → Type 0
SameUpstreams [] [] = Unit
SameUpstreams (u ∷ us) (v ∷ vs) = SameUpstream u v × SameUpstreams us vs
SameUpstreams _ _ = ⊥

-- Two configurations that differ in their keys alone: in whether an admin key or an access key is
-- set they agree, and of the upstreams' keys in the masks.
pub record SameShown (c d : Config) : Type 0 where
  pub keys_alone :
      d ≡ record c { admin_key = d.admin_key; access_key = d.access_key; upstreams = d.upstreams }
  pub same_admin : is_empty (trim_space c.admin_key) ≡ is_empty (trim_space d.admin_key)
  pub same_access : is_empty (trim_space c.access_key) ≡ is_empty (trim_space d.access_key)
  pub same_upstreams : SameUpstreams c.upstreams d.upstreams

upstream_view_of-SameUpstream :
    (u v : Upstream) → SameUpstream u v → upstream_view_of u ≡ upstream_view_of v
unfolding upstream_view_of
upstream_view_of-SameUpstream u v (e, m) =
    ap₂
      (λ (b : Bool) (t : List ℕ). record (upstream_view_of u) {
        api_key_set = not b;
        api_key_masked = t;
      })
      (SameKey-is_empty u.api_key v.api_key m) (masked_api_key-SameMask u.api_key v.api_key m)
    ∙ sym (ap upstream_view_of e)

map-SameUpstreams :
    (us vs : List Upstream)
    → SameUpstreams us vs
    → map upstream_view_of us ≡ map upstream_view_of vs
map-SameUpstreams [] [] s = refl
map-SameUpstreams [] (v ∷ vs) s = absurd s
map-SameUpstreams (u ∷ us) [] s = absurd s
map-SameUpstreams (u ∷ us) (v ∷ vs) s =
    ap₂ (λ x xs. x ∷ xs) (upstream_view_of-SameUpstream u v s.0) (map-SameUpstreams us vs s.1)

pub view_of-SameShown : (c d : Config) → SameShown c d → view_of c ≡ view_of d
unfolding view_of
view_of-SameShown c d s =
    ap (λ b. record (view_of c) { admin_key_set = not b }) s.same_admin
    ∙ ap₂
        (λ b us. record (view_of c) {
          admin_key_set = not (is_empty (trim_space d.admin_key));
          access_key_set = not b;
          upstreams = us;
        })
        s.same_access (map-SameUpstreams c.upstreams d.upstreams s.same_upstreams)
    ∙ sym (ap view_of s.keys_alone)

SameFound : Option Upstream → Option Upstream → Type 0
SameFound none none = Unit
SameFound (some u) (some v) = SameUpstream u v
SameFound _ _ = ⊥

found-if :
    (b : Bool) (u v : Upstream) (o p : Option Upstream)
    → SameUpstream u v
    → SameFound o p
    → SameFound (if b then some u else o) (if b then some v else p)
unfolding SameFound
found-if true u v o p s t = s
found-if false u v o p s t = t

find_in-SameUpstreams :
    (us vs : List Upstream) (name : Text)
    → SameUpstreams us vs
    → SameFound (find_in us name) (find_in vs name)
unfolding find_in SameFound
find_in-SameUpstreams [] [] name s = tt
find_in-SameUpstreams [] (v ∷ vs) name s = absurd s
find_in-SameUpstreams (u ∷ us) [] name s = absurd s
find_in-SameUpstreams (u ∷ us) (v ∷ vs) name s =
    subst
      (λ n.
        SameFound (if equal u.name name then some u else find_in us name)
          (if equal n name then some v else find_in vs name))
      (ap (λ (x : Upstream). x.name) (sym s.0.0))
      (found-if (equal u.name name) u v _ _ s.0 (find_in-SameUpstreams us vs name s.1))

first_or_zero-SameUpstreams :
    (us vs : List Upstream)
    → SameUpstreams us vs
    → SameUpstream (first_or_zero us) (first_or_zero vs)
unfolding first_or_zero utf8 trim_space
first_or_zero-SameUpstreams [] [] s = (refl, short refl (omega arith))
first_or_zero-SameUpstreams [] (v ∷ vs) s = absurd s
first_or_zero-SameUpstreams (u ∷ us) [] s = absurd s
first_or_zero-SameUpstreams (u ∷ us) (v ∷ vs) s = s.0

-- What find_upstream falls back to.
abbrev or_first : Option Upstream → Upstream → Upstream
or_first o u = elim o [ some v ↦ v | none ↦ u ]

or_first-SameFound :
    (o p : Option Upstream) (u v : Upstream)
    → SameFound o p
    → SameUpstream u v
    → SameUpstream (or_first o u) (or_first p v)
unfolding SameFound
or_first-SameFound none none u v f s = s
or_first-SameFound (some x) (some y) u v f s = f
or_first-SameFound none (some y) u v f s = absurd f
or_first-SameFound (some x) none u v f s = absurd f

pub active_upstream-SameShown :
    (c d : Config)
    → SameShown c d
    → SameUpstream (active_upstream (some c)) (active_upstream (some d))
unfolding active_upstream find_upstream
active_upstream-SameShown c d s =
    or_first-SameFound (find_in c.upstreams c.active) (find_in d.upstreams d.active) _ _
      (subst (λ n. SameFound (find_in c.upstreams c.active) (find_in d.upstreams n))
        (sym (ap (λ (x : Config). x.active) s.keys_alone))
        (find_in-SameUpstreams c.upstreams d.upstreams c.active s.same_upstreams))
      (first_or_zero-SameUpstreams c.upstreams d.upstreams s.same_upstreams)

length-SameUpstreams : (us vs : List Upstream) → SameUpstreams us vs → length us ≡ length vs
length-SameUpstreams [] [] s = refl
length-SameUpstreams [] (v ∷ vs) s = absurd s
length-SameUpstreams (u ∷ us) [] s = absurd s
length-SameUpstreams (u ∷ us) (v ∷ vs) s = ap suc (length-SameUpstreams us vs s.1)

pub length-SameShown : (c d : Config) → SameShown c d → length c.upstreams ≡ length d.upstreams
length-SameShown c d s = length-SameUpstreams c.upstreams d.upstreams s.same_upstreams
