-- ===== src/Proxy/Session/Order.antt =====
-- The request that goes upstream, for maps of the upstream whose entries stand in another order.
use newapi_box.Prelude.{
  ◌≡◌, refl, sym, ap, ◌∙◌, Bool, true, false, [], ◌∷◌, ◌++◌, map, Option, none, some, if◌then◌else◌,
}
use mathlib.Core.List.Permᴰ
use newapi_box.Text.{Text}
use newapi_box.Config.{
  RelayFormat, gemini, StringMap, lookup, lookup_or_empty, Upstream, path_for,
  gemini_stream_path_for, map_model,
}
use newapi_box.Config.Entries.{
  Distinct, latest, latest-Permᴰ, lookup-SameMap, SameMap, SameMap-elim, values-set,
}
use newapi_box.Protocol.Surface.{Request}
use newapi_box.Proxy.Types.{HeaderMap}
use newapi_box.Proxy.Admit.{Runtime}
use newapi_box.Proxy.Session.Headers.{custom, or_else, lookup-set_headers}
use newapi_box.Proxy.Session.{
  Session, new_session, upstream_path, set_headers, request_headers, RequestHost, UpstreamRequest,
  flagged, with_body, build_upstream_request,
}

-- The headers by their names in canonical form.
abbrev pub canonical_map : (Text → Text) → StringMap → StringMap
canonical_map canonical hs = map (λ e. (canonical e.0, e.1)) hs

custom-latest :
    (canonical : Text → Text) (hs : StringMap) (j : Text)
    → custom canonical hs j ≡ latest (canonical_map canonical hs) j
unfolding custom latest
custom-latest canonical [] j = refl
custom-latest canonical ((name, v) ∷ hs) j = rw (custom-latest canonical hs j) refl

custom-SameMap :
    (canonical : Text → Text) {hs gs : StringMap} (j : Text)
    → SameMap hs gs
    → Distinct (canonical_map canonical hs)
    → custom canonical hs j ≡ custom canonical gs j
custom-SameMap canonical {hs} {gs} j same distinct =
    custom-latest canonical hs j
    ∙ SameMap-elim values-set same (λ p. latest-Permᴰ (Permᴰ.map _ p) distinct j)
    ∙ sym (custom-latest canonical gs j)

set_headers-SameMap :
    (canonical : Text → Text) {hs gs : StringMap} (m : HeaderMap) (j : Text)
    → SameMap hs gs
    → Distinct (canonical_map canonical hs)
    → lookup (set_headers canonical m hs) j ≡ lookup (set_headers canonical m gs) j
set_headers-SameMap canonical {hs} {gs} m j same distinct =
    lookup-set_headers canonical m hs j
    ∙ ap (λ x. or_else x (lookup m j)) (custom-SameMap canonical j same distinct)
    ∙ sym (lookup-set_headers canonical m gs j)

-- The maps of an upstream, in other orders.
pub record Orders : Type 0 where
  pub headers : StringMap
  pub paths : StringMap
  pub model_map : StringMap

abbrev pub reorder : Upstream → Orders → Upstream
reorder u o = record u { headers = o.headers; paths = o.paths; model_map = o.model_map }

-- Go maps have one entry for a key; that no two names of headers have one canonical form is asked
-- for beyond that.
pub record AreOrders (canonical : Text → Text) (u : Upstream) (o : Orders) : Type 0 where
  pub same_headers : SameMap u.headers o.headers
  pub same_paths : SameMap u.paths o.paths
  pub same_models : SameMap u.model_map o.model_map
  pub distinct_headers : Distinct (canonical_map canonical u.headers)
  pub distinct_paths : Distinct u.paths
  pub distinct_models : Distinct u.model_map

lookup_or_empty-SameMap :
    {m n : StringMap} (k : Text)
    → SameMap m n
    → Distinct m
    → lookup_or_empty m k ≡ lookup_or_empty n k
unfolding lookup_or_empty
lookup_or_empty-SameMap k same distinct = rw (lookup-SameMap same distinct k, lookup_or_empty) refl

-- The same request, with its headers in any order.
abbrev pub SameRequest : Option UpstreamRequest → Option UpstreamRequest → Type 0
SameRequest none none = Unit
SameRequest (some q) (some r) =
    (q.target ≡ r.target)
    × (q.body ≡ r.body)
    × ((j : Text) → lookup q.headers j ≡ lookup r.headers j)
SameRequest _ _ = ⊥

SameRequest-if :
    (b c : Bool) (q r : UpstreamRequest)
    → b ≡ c
    → SameRequest (some q) (some r)
    → SameRequest (if b then some q else none) (if c then some r else none)
SameRequest-if true true q r e h = h
SameRequest-if false false q r e h = tt
SameRequest-if true false q r e h = cc e
SameRequest-if false true q r e h = cc e

module _ (canonical : Text → Text) (u : Upstream) (o : Orders) (re : AreOrders canonical u o) where
  path_for-reorder : (f : RelayFormat) → path_for u f ≡ path_for (reorder u o) f
  unfolding path_for
  path_for-reorder f = rw (lookup_or_empty-SameMap _ re.same_paths re.distinct_paths) refl

  stream_path-reorder : gemini_stream_path_for u ≡ gemini_stream_path_for (reorder u o)
  unfolding gemini_stream_path_for
  stream_path-reorder = rw (lookup_or_empty-SameMap _ re.same_paths re.distinct_paths) refl

  map_model-reorder : (model : Text) → map_model u model ≡ map_model (reorder u o) model
  unfolding map_model
  map_model-reorder model =
      rw (lookup-SameMap re.same_models re.distinct_models model, map_model) refl

-- Two sessions on an upstream and on its reordering.
module _ (canonical : Text → Text) (rt : Runtime) (o : Orders) (re : AreOrders canonical rt.up o)
    (inbound : RelayFormat) (streaming : Bool) (model : Text) where
  abbrev plain : Session
  plain = new_session rt inbound streaming model

  abbrev mixed : Session
  mixed = new_session (record rt { up = reorder rt.up o }) inbound streaming model

  upstream_path-reorder : upstream_path plain ≡ upstream_path mixed
  unfolding upstream_path new_session
  upstream_path-reorder =
      rw
        (
          path_for-reorder canonical rt.up o re gemini,
          path_for-reorder canonical rt.up o re rt.up.format,
          stream_path-reorder canonical rt.up o re,
          map_model-reorder canonical rt.up o re model,
        )
        refl

  request_headers-reorder :
      (j : Text)
      → lookup (request_headers canonical plain) j ≡ lookup (request_headers canonical mixed) j
  unfolding request_headers new_session
  request_headers-reorder j = set_headers-SameMap canonical _ j re.same_headers re.distinct_headers

-- The request of a session, with its encoded body.
abbrev request_of {ℓ} : {P : Type ℓ} → RequestHost P → Session → Text → UpstreamRequest
request_of host s body = record {
  target = s.rt.up.base_url ++ upstream_path s;
  headers = request_headers host.canonical s;
  body = body;
}

module _ {ℓ} {P : Type ℓ} (host : RequestHost P) (rt : Runtime) (o : Orders)
    (re : AreOrders host.canonical rt.up o) (inbound : RelayFormat) (streaming : Bool)
    (model : Text) where
  with_body-reorder :
      (body : Option Text)
      → SameRequest
          (with_body host (plain host.canonical rt o re inbound streaming model) body)
          (with_body host (mixed host.canonical rt o re inbound streaming model) body)
  unfolding with_body new_session
  with_body-reorder none = tt
  with_body-reorder (some body) =
      let path = upstream_path-reorder host.canonical rt o re inbound streaming model in
      let target = ap (λ p. rt.up.base_url ++ p) path in
      let p = plain host.canonical rt o re inbound streaming model in
      let m = mixed host.canonical rt o re inbound streaming model in
      SameRequest-if (host.is_url (rt.up.base_url ++ upstream_path p))
        (host.is_url (rt.up.base_url ++ upstream_path m)) (request_of host p body)
        (request_of host m body) (ap host.is_url target)
        (target, refl, request_headers-reorder host.canonical rt o re inbound streaming model)

  -- What goes upstream for a request does not depend on the orders in which the maps of the upstream
  -- (its headers, its paths, its models) are ranged over, if no two names of headers have one
  -- canonical form: there is a request for the one order exactly if there is one for the other, and
  -- then the target, the body and the value of every header are the same.
  pub build_upstream_request-reorder :
      (payload : Request P)
      → SameRequest (build_upstream_request host (new_session rt inbound streaming model) payload) (
          build_upstream_request host
            (new_session (record rt { up = reorder rt.up o }) inbound streaming model)
            payload)
  unfolding build_upstream_request flagged new_session
  build_upstream_request-reorder payload =
      with_body-reorder
        (host.encode (flagged host (plain host.canonical rt o re inbound streaming model) payload))
