-- ===== src/Admin/Save/Keys.antt =====
-- What a save does with the stored keys, and with the runtime.
use newapi_box.Prelude.{
  ◌≡◌, ◌≢◌, ◌⊎◌, inl, inr, refl, ap₂, ◌∙◌, true, List, [], ◌∷◌, map, some, arith, All,
  if◌then◌else◌,
}
use newapi_box.Text.{Text, equal, trim_space}
use newapi_box.Text.Equal.{equal_iff, equal_refl, not_empty_iff}
use newapi_box.Text.Trim.{trim_space-nil}
use newapi_box.Config.{StringMap, lookup, lookup_or_empty, Upstream, Config, clone}
use newapi_box.Config.Valid.{DistinctNames}
use newapi_box.Admin.View.{View, view_of, upstream_view_of}
use newapi_box.Admin.Save.{
  assign, keys_onto, previous_key, resolve_api_key, upstream_from, take_keys, next_config,
}

pub lookup-assign :
    (m : StringMap) (k v j : Text)
    → lookup (assign m k v) j ≡ (if equal k j then some v else lookup m j)
unfolding lookup assign
lookup-assign [] k v j = refl
lookup-assign ((i, w) ∷ m) k v j =
    ground (arith, equal_iff k j, equal_iff i k, equal_iff i j, lookup-assign m k v j)

keys_onto-absent :
    (us : List Upstream) (out : StringMap) (n : Text)
    → All (λ u. n ≢ u.name) us
    → lookup (keys_onto out us) n ≡ lookup out n
unfolding keys_onto
keys_onto-absent [] out n h = refl
keys_onto-absent (u ∷ us) out n h =
    keys_onto-absent us (assign out u.name u.api_key) n h.1
    ∙ lookup-assign out u.name u.api_key n
    ∙ ground (arith, equal_iff u.name n, h.0)

-- Each upstream's key is found under its name.
keys_onto-found :
    (us : List Upstream) (out : StringMap)
    → DistinctNames us
    → All (λ u. lookup (keys_onto out us) u.name ≡ some u.api_key) us
unfolding keys_onto
keys_onto-found [] out h = tt
keys_onto-found (u ∷ us) out h = (
  keys_onto-absent us (assign out u.name u.api_key) u.name h.0
      ∙ lookup-assign out u.name u.api_key u.name
      ∙ rw (equal_refl u.name) refl,
  keys_onto-found us (assign out u.name u.api_key) h.1,
)

module _ (keys : StringMap) (u : Upstream) where
  previous_key-found :
      lookup keys u.name ≡ some u.api_key → previous_key keys (upstream_view_of u) ≡ u.api_key
  unfolding previous_key upstream_view_of lookup_or_empty
  previous_key-found h = ground (arith, h)

  -- An upstream that comes back as it was shown keeps the key that is stored under its name.
  key-kept :
      lookup keys u.name ≡ some u.api_key
      → (upstream_from keys (upstream_view_of u)).api_key ≡ u.api_key
  unfolding upstream_from resolve_api_key upstream_view_of
  key-kept h = rw trim_space-nil (previous_key-found h)

keys-kept :
    (keys : StringMap) (us : List Upstream)
    → All (λ u. lookup keys u.name ≡ some u.api_key) us
    → map (λ (u : Upstream). u.api_key) (map (upstream_from keys) (map upstream_view_of us))
      ≡ map (λ (u : Upstream). u.api_key) us
keys-kept keys [] h = refl
keys-kept keys (u ∷ us) h = ap₂ (λ k ks. k ∷ ks) (key-kept keys u h.0) (keys-kept keys us h.1)

-- Sending back the masked view of a configuration whose upstreams have distinct names keeps the
-- API key of every upstream, in order.
pub next_config-view_of :
    (c : Config)
    → DistinctNames c.upstreams
    → map (λ (u : Upstream). u.api_key) (next_config (view_of c) c).upstreams
      ≡ map (λ (u : Upstream). u.api_key) c.upstreams
unfolding next_config view_of
next_config-view_of c h =
    keys-kept (keys_onto [] c.upstreams) c.upstreams (keys_onto-found c.upstreams [] h)

-- A save that clears or sets the admin key leaves the access key as it was, whatever it asks for
-- the access key.
access_key-ignored :
    (v : View) (c : Config)
    → (v.clear_admin_key ≡ true) ⊎ (trim_space v.admin_key ≢ [])
    → (next_config v c).access_key ≡ c.access_key
unfolding next_config take_keys clone
access_key-ignored v c (inl h) = rw h refl
access_key-ignored v c (inr h) = ground (arith, (not_empty_iff (trim_space v.admin_key)).1 h)
