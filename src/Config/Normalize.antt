-- ===== src/Config/Normalize.antt =====
-- What Config.Normalize leaves behind, and when a second pass changes nothing.
use newapi_box.Prelude.{
  ℕ, ◌==◌, ◌≡◌, ◌≢◌, ◌⊎◌, inl, inr, refl, ap, ◌∙◌, List, [], ◌∷◌, map, Option, none, some, arith,
  if◌then◌else◌, All,
}
use newapi_box.Text.{Text, codes, trim_space, trim_right}
use newapi_box.Text.Trim.{trim_space-nil, trim_space_idem, trim_right_idem}
use newapi_box.Config.{
  Upstream, Config, zero_upstream, zero_config, normalize, normalize_upstream, migrate, or_starter,
  first_name, default_listen, clone, clone_upstream, clone_string_map, copy, clone_legacy,
  StringMap, or_default,
}

-- The base URL has no blank where its trailing slashes were.
abbrev pub IsTidyUrl : Text → Type 0
IsTidyUrl url = trim_space (trim_right (trim_space url) b'/') ≡ trim_right (trim_space url) b'/'

normalize_upstream_idem :
    (u : Upstream)
    → IsTidyUrl u.base_url
    → normalize_upstream (normalize_upstream u) ≡ normalize_upstream u
unfolding normalize_upstream
normalize_upstream_idem u h = simp (trim_space_idem, h, trim_right_idem)

map-normalize_upstream_idem :
    (us : List Upstream)
    → All (λ u. IsTidyUrl u.base_url) us
    → map normalize_upstream (map normalize_upstream us) ≡ map normalize_upstream us
map-normalize_upstream_idem [] h = refl
map-normalize_upstream_idem (u ∷ us) h =
    cc (normalize_upstream_idem u h.0, map-normalize_upstream_idem us h.1)

or_default_self : (d : Text) → or_default d d ≡ d
or_default_self [] = refl
or_default_self (c ∷ d) = refl

or_default-trim :
    (x d : Text)
    → trim_space x ≡ x
    → trim_space d ≡ d
    → or_default (trim_space (or_default x d)) d ≡ or_default x d
or_default-trim [] d p e = rw e (or_default_self d)
or_default-trim (c ∷ x) d p e = rw p

or_default-trim_idem :
    (t d : Text)
    → trim_space d ≡ d
    → or_default (trim_space (or_default (trim_space t) d)) d ≡ or_default (trim_space t) d
or_default-trim_idem t d = or_default-trim (trim_space t) d (trim_space_idem t)

trim_space-first_name :
    (us : List Upstream)
    → trim_space (first_name (map normalize_upstream us)) ≡ first_name (map normalize_upstream us)
unfolding first_name normalize_upstream
trim_space-first_name [] = trim_space-nil
trim_space-first_name (u ∷ us) = trim_space_idem u.name

trim_space-default_listen : trim_space default_listen ≡ default_listen
unfolding trim_space
trim_space-default_listen = refl

-- The entries that Normalize goes through: those of the list, or the legacy one, or the starter.
abbrev pub entries : Config → List Upstream
entries c = or_starter (migrate c.upstream c.upstreams)

or_starter-map :
    (us : List Upstream)
    → or_starter (map normalize_upstream (or_starter us)) ≡ map normalize_upstream (or_starter us)
unfolding or_starter
or_starter-map [] = refl
or_starter-map (u ∷ us) = refl

-- A second pass goes through what the first pass left.
entries-normalize : (c : Config) → entries (normalize c) ≡ map normalize_upstream (entries c)
unfolding normalize
entries-normalize c = or_starter-map (migrate c.upstream c.upstreams)

tokens_idem :
    (n : ℕ)
    → (if (if n == 0 then 8192 else n) == 0 then 8192 else (if n == 0 then 8192 else n))
      ≡ (if n == 0 then 8192 else n)
tokens_idem n = ground arith

module _ (c : Config) (tidy : All (λ u. IsTidyUrl u.base_url) (entries c)) where
  upstreams-normalize_idem : (normalize (normalize c)).upstreams ≡ (normalize c).upstreams
  unfolding normalize
  upstreams-normalize_idem = rw or_starter-map (map-normalize_upstream_idem (entries c) tidy)

  active-normalize_idem : (normalize (normalize c)).active ≡ (normalize c).active
  unfolding normalize
  active-normalize_idem =
      ap (λ us. or_default (trim_space (normalize c).active) (first_name us))
        upstreams-normalize_idem
      ∙ or_default-trim_idem c.active _ (trim_space-first_name (entries c))

  normalize-of_tidy : normalize (normalize c) ≡ normalize c
  unfolding normalize
  normalize-of_tidy = λ i. record {
    listen = or_default-trim_idem c.listen default_listen trim_space-default_listen i;
    admin_key = trim_space_idem c.admin_key i;
    access_key = trim_space_idem c.access_key i;
    upstreams = upstreams-normalize_idem i;
    active = active-normalize_idem i;
    upstream = none;
    claude_default_max_tokens = tokens_idem c.claude_default_max_tokens i;
    verbose = c.verbose;
  }

-- What every reader may rely on after Normalize: a bind address, at least one upstream, a name for
-- the active one unless the first entry has none, a token budget, no legacy field, and no blanks
-- round the two keys and the names and timeouts.
pub record IsNormal (c : Config) : Type 0 where
  pub bound : c.listen ≢ []
  pub some_upstream : c.upstreams ≢ []
  pub named : (c.active ≢ []) ⊎ (first_name c.upstreams ≡ [])
  pub budget : c.claude_default_max_tokens ≢ 0
  pub no_legacy : c.upstream ≡ none
  pub admin_trimmed : trim_space c.admin_key ≡ c.admin_key
  pub access_trimmed : trim_space c.access_key ≡ c.access_key
  pub entries_trimmed :
      All
        (λ u.
          (trim_space u.name ≡ u.name)
          × (trim_space u.timeout ≡ u.timeout)
          × (trim_right u.base_url b'/' ≡ u.base_url))
        c.upstreams

entries-trimmed :
    (us : List Upstream)
    → All
        (λ u.
          (trim_space u.name ≡ u.name)
          × (trim_space u.timeout ≡ u.timeout)
          × (trim_right u.base_url b'/' ≡ u.base_url))
        (map normalize_upstream us)
unfolding normalize_upstream
entries-trimmed [] = tt
entries-trimmed (u ∷ us) = (
  (trim_space_idem u.name, trim_space_idem u.timeout, trim_right_idem _ b'/'),
  entries-trimmed us,
)

or_default-ne-nil : (t d : Text) → d ≢ [] → or_default t d ≢ []
or_default-ne-nil [] d h = h
or_default-ne-nil (c ∷ t) d h = λ e. cc

or_default-named : (t d : Text) → (or_default t d ≢ []) ⊎ (d ≡ [])
or_default-named [] [] = inr refl
or_default-named [] (c ∷ d) = inl (λ e. cc)
or_default-named (c ∷ t) d = inl (λ e. cc)

map-or_starter-ne-nil : (us : List Upstream) → map normalize_upstream (or_starter us) ≢ []
unfolding or_starter
map-or_starter-ne-nil [] = λ e. cc
map-or_starter-ne-nil (u ∷ us) = λ e. cc

-- Whatever the configuration, Normalize leaves one that has a listen address, an upstream and a
-- budget of tokens, names the live upstream if its first entry has a name, keeps no legacy entry,
-- and has its two keys and its entries' names and timeouts trimmed of blanks and their base URLs
-- of trailing slashes.
pub normalize-IsNormal : (c : Config) → IsNormal (normalize c)
unfolding normalize
normalize-IsNormal c = record {
  bound = or_default-ne-nil (trim_space c.listen) default_listen (λ e. cc);
  some_upstream = map-or_starter-ne-nil (migrate c.upstream c.upstreams);
  named = or_default-named (trim_space c.active) _;
  budget = ground arith;
  no_legacy = refl;
  admin_trimmed = trim_space_idem c.admin_key;
  access_trimmed = trim_space_idem c.access_key;
  entries_trimmed = entries-trimmed (entries c);
}

-- A second Normalize changes nothing, provided that no base URL hides a blank before its trailing
-- slashes.
pub normalize_idem :
    (c : Config)
    → All (λ u. IsTidyUrl u.base_url) (entries c)
    → normalize (normalize c) ≡ normalize c
normalize_idem = normalize-of_tidy

abbrev spaced_url : Config
spaced_url = record zero_config {
  upstreams = record zero_upstream { base_url = codes "http://a /" } ∷ [];
}

-- Normalize is not idempotent on every configuration: the base URL `http://a /` loses its slash in
-- the first pass and its blank only in the second.
normalize_not_idem : ¬ ((c : Config) → normalize (normalize c) ≡ normalize c)
unfolding normalize normalize_upstream trim_space trim_right
normalize_not_idem all =
    cc (ap (λ c. map (λ (u : Upstream). u.base_url) c.upstreams) (all spaced_url))

-- Clone's copy of a map has the entries of the map.
copy_lem : (m : StringMap) → copy m ≡ m
unfolding copy
copy_lem [] = refl
copy_lem ((k, v) ∷ m) = ap (◌∷◌ (k, v)) (copy_lem m)

clone_string_map_lem : (m : StringMap) → clone_string_map m ≡ m
unfolding clone_string_map
clone_string_map_lem [] = refl
clone_string_map_lem ((k, v) ∷ m) = ap (◌∷◌ (k, v)) (copy_lem m)

clone_upstream_lem : (u : Upstream) → clone_upstream u ≡ u
unfolding clone_upstream
clone_upstream_lem u = simp clone_string_map_lem

map-clone_upstream : (us : List Upstream) → map clone_upstream us ≡ us
map-clone_upstream [] = refl
map-clone_upstream (u ∷ us) = cc (clone_upstream_lem u, map-clone_upstream us)

clone_legacy_lem : (o : Option Upstream) → clone_legacy o ≡ o
unfolding clone_legacy
clone_legacy_lem none = refl
clone_legacy_lem (some u) = ap some (clone_upstream_lem u)

-- A clone has the value of what was cloned.
pub clone-some : (c : Config) → clone (some c) ≡ c
unfolding clone
clone-some c = simp (map-clone_upstream, clone_legacy_lem)
