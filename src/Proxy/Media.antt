-- ===== src/Proxy/Media.antt =====
-- internal/proxy/media.go: the media that a conversion inlines. The source of a file and its cache
-- are types.FileSource, by what is read of it; base64 is an argument, and so is the HTTP library.
pub mod Resolve
use newapi_box.Prelude.{
  ℕ, ◌==◌, Bool, true, false, not, if◌then◌else◌, List, [], ◌∷◌, ◌++◌, Option, none, some, is_empty,
  length,
}
use newapi_box.Text.{Text, codes, has_prefix, trim_prefix, cut}
use newapi_box.Config.{or_default}
use newapi_box.Proxy.Types.{Result, ok, err, Source, read_limited}

-- maxMediaBytes
abbrev max_media_bytes : ℕ
max_media_bytes = 20_971_520

pub data MediaError : Type 0 where
  source_is_nil no_separator not_requested not_read : MediaError
  not_cached : Text → MediaError
  not_fetched : Text → MediaError
  returned : ℕ → MediaError

-- The base64 data and its MIME type, or an error.
pub data MediaResult : Type 0 where
  media : Text → Text → MediaResult
  no_media : MediaError → MediaResult

abbrev pub octet_stream : Text
octet_stream = codes "application/octet-stream"

-- The part of a text before the first separator, or all of it.
unfoldable pub before_cut : Text → Option (Text × Text) → Text
before_cut s none = s
before_cut s (some (before, after)) = before

-- A MIME type without its parameters.
unfoldable pub mime_of : Text → Text
unfolding before_cut cut
mime_of header = or_default (before_cut header (cut header b';')) octet_stream

-- The part of decodeDataURL behind its first strings.Cut.
unfoldable pub decode_cut : Option (Text × Text) → MediaResult
unfolding mime_of
decode_cut none = no_media no_separator
decode_cut (some (header, payload)) = media payload (mime_of header)

-- decodeDataURL
unfoldable pub decode_data_url : Text → MediaResult
unfolding decode_cut has_prefix trim_prefix
decode_data_url url =
    if not (has_prefix url (codes "data:"))
    then media url octet_stream
    else decode_cut (cut (trim_prefix url (codes "data:")) b',')

-- A response to the GET of a remote file.
pub record Fetched : Type 0 where
  pub status : ℕ
  pub content_type : Text
  pub body : Source

-- What a cache holds, and its GetBase64Data.
pub record Cache : Type 0 where
  pub mime_type : Text
  pub base64 : Result Text

pub record FileSource : Type 0 where
  pub is_url : Bool
  pub raw_data : Text
  pub cache : Option Cache

-- `encode` is base64.StdEncoding.EncodeToString; `get` is the request, `none` if it cannot be built.
module _ (encode : Text → Text) (get : Text → Option (Result Fetched)) where
  encode_read : Text → Option Text → MediaResult
  unfolding mime_of
  encode_read content_type none = no_media not_read
  encode_read content_type (some raw) = media (encode raw) (mime_of content_type)

  after_fetch : Option (Result Fetched) → MediaResult
  unfolding encode_read read_limited
  after_fetch none = no_media not_requested
  after_fetch (some (err e)) = no_media (not_fetched e)
  after_fetch (some (ok r)) =
      if not (r.status == 200)
      then no_media (returned r.status)
      else encode_read r.content_type (read_limited max_media_bytes r.body)

  -- mediaResolver.fetchAsBase64
  unfoldable pub fetch_as_base64 : Text → MediaResult
  unfolding after_fetch
  fetch_as_base64 url = after_fetch (get url)

  -- The MIME type of a file that is no URL.
  inline_mime : Option Cache → Text
  inline_mime none = octet_stream
  inline_mime (some c) = or_default c.mime_type octet_stream

  -- The answer from a cache.
  unfoldable pub from_cache : Cache → Result Text → MediaResult
  from_cache c (err e) = no_media (not_cached e)
  from_cache c (ok held) = media held c.mime_type

  -- source.SetCache after a fetch; `cached` is types.NewMemoryCachedData
  unfoldable pub keep : FileSource → MediaResult → MediaResult × FileSource
  keep s (no_media e) = (no_media e, s)
  keep s (media base64 mime) = (
    media base64 mime,
    record s { cache = some (record { mime_type = mime; base64 = ok base64 }) },
  )

  unfoldable pub get_remote : FileSource → Option Cache → MediaResult × FileSource
  unfolding from_cache fetch_as_base64 keep
  get_remote s (some c) = (from_cache c c.base64, s)
  get_remote s none = keep s (fetch_as_base64 s.raw_data)

  -- mediaResolver.getBase64Data; the source comes back with the cache that it was given
  unfoldable pub get_base64_data : Option FileSource → MediaResult × Option FileSource
  unfolding get_remote inline_mime
  get_base64_data none = (no_media source_is_nil, none)
  get_base64_data (some s) =
      if not s.is_url
      then (media s.raw_data (inline_mime s.cache), some s)
      else let (result, t) = get_remote s s.cache in (result, some t)
