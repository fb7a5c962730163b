-- ===== src/Proxy/Media/Resolve.antt =====
-- What a data URL holds, and that a remote file is fetched once.
use newapi_box.Prelude.{◌≡◌, ◌≢◌, refl, sym, ap, ◌∙◌, true, [], ◌∷◌, ◌++◌, Option, none, some, All}
use newapi_box.Text.{Text, codes, has_prefix, trim_prefix}
use newapi_box.Text.Equal.{cut_complete}
use newapi_box.Config.{or_default}
use newapi_box.Proxy.Types.{Result}
use newapi_box.Proxy.Media.{
  octet_stream, MediaResult, media, no_media, mime_of, before_cut, decode_cut, decode_data_url,
  Fetched, Cache, FileSource, keep, get_remote, fetch_as_base64, from_cache, get_base64_data,
}

or_default_there : (t d : Text) → t ≢ [] → or_default t d ≡ t
or_default_there [] d h = absurd (h refl)
or_default_there (c ∷ t) d h = refl

mime_of-cut :
    (mime params : Text)
    → mime ≢ []
    → All (λ c. c ≢ b';') mime
    → mime_of (mime ++ b';' ∷ params) ≡ mime
unfolding mime_of before_cut
mime_of-cut mime params named clear =
    ap (λ o. or_default (before_cut (mime ++ b';' ∷ params) o) octet_stream)
      (cut_complete b';' mime params clear)
    ∙ or_default_there mime octet_stream named

-- A data URL with a MIME type that is not empty, and has neither a semicolon nor a comma, and any
-- parameters without a comma gives back its payload, whatever is in it, and its MIME type.
decode_data_url_lem :
    (mime params payload : Text)
    → mime ≢ []
    → All (λ c. c ≢ b';') mime
    → All (λ c. c ≢ b',') (mime ++ b';' ∷ params)
    → decode_data_url (codes "data:" ++ ((mime ++ b';' ∷ params) ++ b',' ∷ payload))
      ≡ media payload mime
unfolding decode_data_url has_prefix trim_prefix decode_cut mime_of
decode_data_url_lem mime params payload named clear whole =
    rw (cut_complete b',' (mime ++ b';' ∷ params) payload whole)
      (ap (media payload) (mime_of-cut mime params named clear))

get_base64_data-remote :
    (encode : Text → Text) (get : Text → Option (Result Fetched)) (s : FileSource)
    → s.is_url ≡ true
    → get_base64_data encode get (some s)
      ≡ ((get_remote encode get s s.cache).0, some (get_remote encode get s s.cache).1)
unfolding get_base64_data
get_base64_data-remote encode get s remote = rw remote refl

module _ (encode : Text → Text) (get : Text → Option (Result Fetched)) where
  keep-again :
      (other : Text → Option (Result Fetched)) (s : FileSource) (r : MediaResult) (held mime : Text)
      → (keep encode get s r).0 ≡ media held mime
      → get_remote encode other (keep encode get s r).1 (keep encode get s r).1.cache
        ≡ (media held mime, (keep encode get s r).1)
  unfolding keep get_remote from_cache
  keep-again other s (no_media e) held mime h = cc h
  keep-again other s (media held' mime') held mime h =
      ap (λ r. (r, (keep encode get s (media held' mime')).1)) h

  remote-again :
      (other : Text → Option (Result Fetched)) (s : FileSource) (held mime : Text)
      (c : Option Cache)
      → s.cache ≡ c
      → (get_remote encode get s c).0 ≡ media held mime
      → get_remote encode other (get_remote encode get s c).1 (get_remote encode get s c).1.cache
        ≡ (media held mime, (get_remote encode get s c).1)
  unfolding get_remote
  remote-again other s held mime none e h =
      keep-again other s (fetch_as_base64 encode get s.raw_data) held mime h
  remote-again other s held mime (some c) e h =
      ap (get_remote encode other s) e ∙ ap (λ r. (r, s)) h

  keep-is_url : (s : FileSource) (r : MediaResult) → (keep encode get s r).1.is_url ≡ s.is_url
  unfolding keep
  keep-is_url s (no_media e) = refl
  keep-is_url s (media held mime) = refl

  get_remote-is_url :
      (s : FileSource) (c : Option Cache) → (get_remote encode get s c).1.is_url ≡ s.is_url
  unfolding get_remote
  get_remote-is_url s none = keep-is_url s (fetch_as_base64 encode get s.raw_data)
  get_remote-is_url s (some c) = refl

  -- A remote file whose data were given once is given again from its cache, with the same data and
  -- MIME type, whatever the network answers by then, and the source does not change any more.
  pub get_base64_data-again :
      (other : Text → Option (Result Fetched)) (s : FileSource) (held mime : Text)
      → s.is_url ≡ true
      → (get_base64_data encode get (some s)).0 ≡ media held mime
      → get_base64_data encode other (get_base64_data encode get (some s)).1
        ≡ (media held mime, (get_base64_data encode get (some s)).1)
  get_base64_data-again other s held mime remote h =
      let first = get_base64_data-remote encode get s remote in
      let t = (get_remote encode get s s.cache).1 in
      ap (λ r. get_base64_data encode other r.1) first
      ∙ get_base64_data-remote encode other t (get_remote-is_url s s.cache ∙ remote)
      ∙ ap (λ r. (r.0, some r.1))
          (remote-again other s held mime s.cache refl (sym (ap (λ r. r.0) first) ∙ h))
      ∙ ap (λ r. (media held mime, r.1)) (sym first)
