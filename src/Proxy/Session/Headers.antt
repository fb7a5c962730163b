-- ===== src/Proxy/Session/Headers.antt =====
-- The headers that go upstream: those of the code, overridden by those of the configuration.
use newapi_box.Prelude.{
  ◌≡◌, ◌≢◌, refl, ◌∙◌, [], ◌∷◌, ◌++◌, Option, none, some, arith, if◌then◌else◌,
}
use newapi_box.Text.{Text, codes, equal}
use newapi_box.Text.Equal.{equal_iff, equal_refl}
use newapi_box.Config.{
  StringMap, lookup, RelayFormat, claude, gemini, openai, openai_responses, other,
}
use newapi_box.Proxy.Types.{HeaderMap, set_key, set_header}
use newapi_box.Proxy.Session.{Session, set_headers, request_headers, upstream_auth_headers}

lookup-set_key :
    (m : HeaderMap) (k v j : Text)
    → lookup (set_key m k v) j ≡ (if equal k j then some v else lookup m j)
unfolding lookup set_key
lookup-set_key [] k v j = refl
lookup-set_key ((i, w) ∷ m) k v j =
    ground (arith, equal_iff k j, equal_iff i k, equal_iff i j, lookup-set_key m k v j)

lookup-set_header :
    (canonical : Text → Text) (m : HeaderMap) (name v j : Text)
    → lookup (set_header canonical m name v) j
      ≡ (if equal (canonical name) j then some v else lookup m j)
unfolding set_header
lookup-set_header canonical m name v j = lookup-set_key m (canonical name) v j

-- The last value that a map of headers gives for a key in canonical form.
unfoldable pub custom : (Text → Text) → StringMap → Text → Option Text
custom canonical [] j = none
custom canonical ((name, v) ∷ rest) j = elim (custom canonical rest j) [
  | some w ↦ some w
  | none ↦ (if equal (canonical name) j then some v else none)
]

abbrev pub or_else : Option Text → Option Text → Option Text
or_else (some v) o = some v
or_else none o = o

pub lookup-set_headers :
    (canonical : Text → Text) (m : HeaderMap) (hs : StringMap) (j : Text)
    → lookup (set_headers canonical m hs) j ≡ or_else (custom canonical hs j) (lookup m j)
unfolding set_headers custom
lookup-set_headers canonical m [] j = refl
lookup-set_headers canonical m ((name, v) ∷ rest) j = ground (
  arith,
  lookup-set_headers canonical (set_header canonical m name v) rest j,
  lookup-set_header canonical m name v j,
)

-- The header that carries the key for each protocol, and its value.
abbrev credential : RelayFormat → Text → Text × Text
credential claude key = (codes "x-api-key", key)
credential gemini key = (codes "x-goog-api-key", key)
credential _ key = (codes "Authorization", codes "Bearer " ++ key)

-- Canonical forms keep the two headers of a Claude request apart.
pub record IsCanonical (canonical : Text → Text) : Type 0 where
  pub apart : canonical (codes "anthropic-version") ≢ canonical (codes "x-api-key")

lookup-one :
    (canonical : Text → Text) (m : HeaderMap) (a v : Text)
    → lookup (set_headers canonical m ((a, v) ∷ [])) (canonical a) ≡ some v
unfolding custom
lookup-one canonical m a v =
    lookup-set_headers canonical m ((a, v) ∷ []) (canonical a) ∙ rw (equal_refl (canonical a)) refl

lookup-two :
    (canonical : Text → Text) (m : HeaderMap) (a v b w : Text)
    → canonical b ≢ canonical a
    → lookup (set_headers canonical m ((a, v) ∷ (b, w) ∷ [])) (canonical a) ≡ some v
unfolding custom
lookup-two canonical m a v b w ne =
    lookup-set_headers canonical m ((a, v) ∷ (b, w) ∷ []) (canonical a)
    ∙ ground (arith, equal_refl (canonical a), equal_iff (canonical b) (canonical a))

lookup-auth :
    (canonical : Text → Text) (m : HeaderMap) (f : RelayFormat) (key : Text)
    → IsCanonical canonical
    → lookup
        (set_headers canonical m (upstream_auth_headers f key))
        (canonical (credential f key).0)
      ≡ some (credential f key).1
unfolding upstream_auth_headers
lookup-auth canonical m claude key c = lookup-two canonical m _ key _ _ c.apart
lookup-auth canonical m gemini key c = lookup-one canonical m _ key
lookup-auth canonical m openai key c = lookup-one canonical m _ (codes "Bearer " ++ key)
lookup-auth canonical m openai_responses key c = lookup-one canonical m _ (codes "Bearer " ++ key)
lookup-auth canonical m (other s) key c = lookup-one canonical m _ (codes "Bearer " ++ key)

module _ (canonical : Text → Text) (s : Session) where
  -- The upstream's own headers win: a header that they name is sent with their last value for it.
  custom-sent :
      (name : Text) {v : Text}
      → custom canonical s.rt.up.headers (canonical name) ≡ some v
      → lookup (request_headers canonical s) (canonical name) ≡ some v
  unfolding request_headers
  custom-sent name h = lookup-set_headers canonical _ s.rt.up.headers (canonical name) ∙ rw h refl

  -- Unless they name it, the header that carries the key for the upstream's protocol is sent with
  -- the upstream's key.
  credential-sent :
      IsCanonical canonical
      → custom canonical s.rt.up.headers (canonical (credential s.upstream s.rt.up.api_key).0)
        ≡ none
      → lookup (request_headers canonical s) (canonical (credential s.upstream s.rt.up.api_key).0)
        ≡ some (credential s.upstream s.rt.up.api_key).1
  unfolding request_headers
  credential-sent c h =
      lookup-set_headers canonical _ s.rt.up.headers _
      ∙ rw h (lookup-auth canonical _ s.upstream s.rt.up.api_key c)
