-- ===== src/Config/Resolve.antt =====
-- Finding the live upstream, model names and paths.
use newapi_box.Prelude.{
  ◌≡◌, ◌≢◌, refl, ap, ◌∙◌, List, [], ◌∷◌, none, some, arith, ◌↔◌, sym, subst, Bool-cases,
  Option-cases, inl, inr,
}
use newapi_box.Text.{Text, equal}
use newapi_box.Text.Equal.{equal_iff}
use newapi_box.Config.{
  Upstream, Config, find_in, find_upstream, active_upstream, first_or_zero, zero_upstream,
}

-- `u` is a member of the list and no earlier member has its name.
pub data FirstNamed (u : Upstream) : List Upstream → Type 0 where
  here : {v : Upstream} {us : List Upstream} → u ≡ v → FirstNamed u (v ∷ us)
  there :
      {v : Upstream} {us : List Upstream}
      → v.name ≢ u.name
      → FirstNamed u us
      → FirstNamed u (v ∷ us)

find_in-FirstNamed :
    (us : List Upstream) (name : Text) (u : Upstream)
    → find_in us name ≡ some u
    → (u.name ≡ name) × FirstNamed u us
unfolding find_in
find_in-FirstNamed [] name u h = cc
find_in-FirstNamed (v ∷ us) name u h = elim (Bool-cases (equal v.name name)) [
  | inl same ↦
      let e : v ≡ u = ground arith in
      (ap (λ w. w.name) (sym e) ∙ (equal_iff v.name name).0 same, here (sym e))
  | inr other ↦
      let (named, first) = find_in-FirstNamed us name u (ground arith) in
      (named, there (λ e. ground (arith, equal_iff v.name name, e, named)) first)
]

FirstNamed-find_in :
    {u : Upstream} {us : List Upstream} → FirstNamed u us → find_in us u.name ≡ some u
unfolding find_in
FirstNamed-find_in {u} (here {v} {us} e) = ground (arith, equal_iff v.name u.name)
FirstNamed-find_in {u} (there {v} {us} ne f) =
    ground (arith, equal_iff v.name u.name, FirstNamed-find_in f)

-- FindUpstream returns an upstream exactly when that is the first entry of the asked name.
find_upstream_iff :
    (c : Config) (name : Text) (u : Upstream)
    → (find_upstream (some c) name ≡ some u) ↔ ((u.name ≡ name) × FirstNamed u c.upstreams)
unfolding find_upstream
find_upstream_iff c name u = (
  find_in-FirstNamed c.upstreams name u,
  λ h. subst (λ n. find_in c.upstreams n ≡ some u) h.0 (FirstNamed-find_in h.1),
)

-- The three ways in which ActiveUpstream comes by its result.
pub data IsActive (c : Config) : Upstream → Type 0 where
  named : {u : Upstream} → u.name ≡ c.active → FirstNamed u c.upstreams → IsActive c u
  first :
      {u v : Upstream} {us : List Upstream}
      → find_upstream (some c) c.active ≡ none
      → c.upstreams ≡ v ∷ us
      → u ≡ v
      → IsActive c u
  blank : {u : Upstream} → c.upstreams ≡ [] → u ≡ zero_upstream → IsActive c u

first_or_zero-IsActive :
    (c : Config) (us : List Upstream)
    → c.upstreams ≡ us
    → find_upstream (some c) c.active ≡ none
    → IsActive c (first_or_zero us)
unfolding first_or_zero
first_or_zero-IsActive c [] e h = blank e refl
first_or_zero-IsActive c (u ∷ us) e h = first h e refl

pub active_upstream-found :
    (c : Config) {u : Upstream}
    → find_upstream (some c) c.active ≡ some u
    → active_upstream (some c) ≡ u
unfolding active_upstream
active_upstream-found c h = ground arith

active_upstream-missing :
    (c : Config)
    → find_upstream (some c) c.active ≡ none
    → active_upstream (some c) ≡ first_or_zero c.upstreams
unfolding active_upstream
active_upstream-missing c h = ground arith

-- ActiveUpstream returns the first entry of the active name; where no entry has that name the
-- first entry of all, and the empty upstream only if there is no entry.
pub active_upstream-IsActive : (c : Config) → IsActive c (active_upstream (some c))
active_upstream-IsActive c = elim (Option-cases (find_upstream (some c) c.active)) [
  | inl missing ↦
      subst (IsActive c) (sym (active_upstream-missing c missing))
        (first_or_zero-IsActive c c.upstreams refl missing)
  | inr (u, found) ↦
      let (n, f) = (find_upstream_iff c c.active u).0 found in
      subst (IsActive c) (sym (active_upstream-found c found)) (named n f)
]
