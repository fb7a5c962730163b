-- ===== src/Config.antt =====
-- internal/config/config.go: the configuration and the operations that read and complete it.
-- Validation is in Config/Validate, the store and the file in Config/Store and Config/File.
pub mod Normalize
pub mod Validate
pub mod Valid
pub mod Resolve
pub mod Mask
pub mod Entries
pub mod File
pub mod Store
pub mod Load
use newapi_box.Prelude.{
  ℕ, ◌==◌, Bool, true, false, if◌then◌else◌, List, [], ◌∷◌, map, Option, none, some, is_empty, ◌++◌,
}
use newapi_box.Text.{Text, codes, equal, trim_space, trim_right}

-- types.RelayFormat is a string type. The converter names four values of it; `other` is any other
-- string, the empty one included.
pub data RelayFormat : Type 0 where
  openai openai_responses claude gemini : RelayFormat
  other : Text → RelayFormat

-- string(format)
unfoldable pub format_name : RelayFormat → Text
format_name openai = codes "openai"
format_name openai_responses = codes "openai_responses"
format_name claude = codes "claude"
format_name gemini = codes "gemini"
format_name (other s) = s

-- The comparison of two formats, which are strings.
unfoldable pub format_equal : RelayFormat → RelayFormat → Bool
unfolding format_name equal
format_equal a b = equal (format_name a) (format_name b)

-- supportedFormats[format]
abbrev pub is_supported : RelayFormat → Bool
is_supported (other s) = false
is_supported _ = true

-- format == ""
abbrev pub is_unset : RelayFormat → Bool
is_unset (other []) = true
is_unset _ = false

-- A map[string]string with its entries in iteration order; a nil map is the empty one.
abbrev pub StringMap : Type 0
StringMap = List (Text × Text)

-- m[key], with the second result of the lookup
unfoldable pub lookup : StringMap → Text → Option Text
lookup [] key = none
lookup ((k, v) ∷ m) key = if equal k key then some v else lookup m key

-- m[key], "" where the key is missing
unfoldable pub lookup_or_empty : StringMap → Text → Text
unfolding lookup
lookup_or_empty m key = elim (lookup m key) [ none ↦ [] | some v ↦ v ]

pub record Upstream : Type 0 where
  pub name : Text
  pub format : RelayFormat
  pub base_url : Text
  pub api_key : Text
  pub headers : StringMap
  pub paths : StringMap
  pub model_map : StringMap
  pub timeout : Text

-- Upstream{}
abbrev pub zero_upstream : Upstream
zero_upstream = record {
  name = [];
  format = other [];
  base_url = [];
  api_key = [];
  headers = [];
  paths = [];
  model_map = [];
  timeout = [];
}

pub record Config : Type 0 where
  pub listen : Text
  pub admin_key : Text
  pub access_key : Text
  pub upstreams : List Upstream
  pub active : Text
  pub upstream : Option Upstream
  pub claude_default_max_tokens : ℕ
  pub verbose : Bool

-- Config{}
abbrev pub zero_config : Config
zero_config = record {
  listen = [];
  admin_key = [];
  access_key = [];
  upstreams = [];
  active = [];
  upstream = none;
  claude_default_max_tokens = 0;
  verbose = false;
}

-- DefaultListen
abbrev pub default_listen : Text
default_listen = codes ":18888"

abbrev default_name : Text
default_name = codes "default"

-- The entry that Normalize and Default make where there is none.
abbrev starter_upstream : Upstream
starter_upstream = record zero_upstream {
  name = default_name;
  format = openai;
  timeout = codes "5m";
}

-- The first branch of Normalize: the legacy field becomes the only entry of an empty list.
unfoldable pub migrate : Option Upstream → List Upstream → List Upstream
migrate (some legacy) [] = record legacy { name = default_name } ∷ []
migrate _ us = us

unfoldable pub or_starter : List Upstream → List Upstream
or_starter [] = starter_upstream ∷ []
or_starter (u ∷ us) = u ∷ us

-- The body of the loop in Normalize.
unfoldable pub normalize_upstream : Upstream → Upstream
normalize_upstream u = record u {
  name = trim_space u.name;
  base_url = trim_right (trim_space u.base_url) b'/';
  timeout = trim_space u.timeout;
}

unfoldable pub first_name : List Upstream → Text
first_name [] = []
first_name (u ∷ us) = u.name

abbrev pub or_default {ℓ} : {A : Type ℓ} → List A → List A → List A
or_default [] d = d
or_default (x ∷ xs) d = x ∷ xs

-- Config.Normalize
unfoldable pub normalize : Config → Config
unfolding migrate or_starter first_name
normalize c =
    let us = map normalize_upstream (or_starter (migrate c.upstream c.upstreams)) in
    record c {
      listen = or_default (trim_space c.listen) default_listen;
      admin_key = trim_space c.admin_key;
      access_key = trim_space c.access_key;
      upstreams = us;
      active = or_default (trim_space c.active) (first_name us);
      upstream = none;
      claude_default_max_tokens =
          (if c.claude_default_max_tokens == 0 then 8192 else c.claude_default_max_tokens);
    }

-- The loop of Config.FindUpstream.
unfoldable pub find_in : List Upstream → Text → Option Upstream
find_in [] name = none
find_in (u ∷ us) name = if equal u.name name then some u else find_in us name

-- Config.FindUpstream; the receiver may be nil
unfoldable pub find_upstream : Option Config → Text → Option Upstream
unfolding find_in
find_upstream none name = none
find_upstream (some c) name = find_in c.upstreams name

unfoldable pub first_or_zero : List Upstream → Upstream
first_or_zero [] = zero_upstream
first_or_zero (u ∷ us) = u

-- Config.ActiveUpstream; the receiver may be nil
unfoldable pub active_upstream : Option Config → Upstream
unfolding find_upstream first_or_zero
active_upstream none = zero_upstream
active_upstream (some c) = elim (find_upstream (some c) c.active) [
  | some u ↦ u
  | none ↦ first_or_zero c.upstreams
]

-- maps.Copy into a new map
copy : StringMap → StringMap
copy [] = []
copy ((k, v) ∷ m) = (k, v) ∷ copy m

-- cloneStringMap; nil and the empty map are one value here
unfoldable pub clone_string_map : StringMap → StringMap
unfolding copy
clone_string_map m = if is_empty m then [] else copy m

-- The loop body of Clone.
unfoldable pub clone_upstream : Upstream → Upstream
unfolding clone_string_map
clone_upstream u = record u {
  headers = clone_string_map u.headers;
  paths = clone_string_map u.paths;
  model_map = clone_string_map u.model_map;
}

clone_legacy : Option Upstream → Option Upstream
clone_legacy none = none
clone_legacy (some u) = some (clone_upstream u)

-- Config.Clone, on values; the receiver may be nil
unfoldable pub clone : Option Config → Config
unfolding clone_upstream clone_legacy
clone none = zero_config
clone (some c) = record c {
  upstreams = map clone_upstream c.upstreams;
  upstream = clone_legacy c.upstream;
}

-- Default
abbrev pub default_config : Config
default_config = record zero_config {
  listen = default_listen;
  active = default_name;
  upstreams = starter_upstream ∷ [];
  claude_default_max_tokens = 8192;
}

-- Upstream.MapModel
unfoldable pub map_model : Upstream → Text → Text
unfolding lookup
map_model u model = elim (lookup u.model_map model) [
  | none ↦ model
  | some mapped ↦ (if is_empty (trim_space mapped) then model else mapped)
]

unfoldable pub default_path : RelayFormat → Text
default_path openai = codes "/v1/chat/completions"
default_path openai_responses = codes "/v1/responses"
default_path claude = codes "/v1/messages"
default_path gemini = codes "/v1beta/models/{{model}}:generateContent"
default_path (other s) = []

-- Upstream.PathFor
unfoldable pub path_for : Upstream → RelayFormat → Text
unfolding lookup_or_empty format_name default_path
path_for u format =
    or_default (trim_space (lookup_or_empty u.paths (format_name format))) (default_path format)

-- Upstream.GeminiStreamPathFor
unfoldable pub gemini_stream_path_for : Upstream → Text
unfolding lookup_or_empty format_name
gemini_stream_path_for u =
    or_default (trim_space (lookup_or_empty u.paths (format_name gemini ++ codes "_stream")))
      (codes "/v1beta/models/{{model}}:streamGenerateContent?alt=sse")
