-- ===== src/Config/Load.antt =====
-- internal/config/config.go: Load and LoadOrInit. The file's content is an argument, and so is the
-- strict JSON decoder.
pub mod Restart
use newapi_box.Prelude.{ℕ, Bool, true, false, Option, none, some}
use newapi_box.Prelude.Int.{ℤ}
use newapi_box.Text.{Text}
use newapi_box.Config.{Config, default_config, normalize}
use newapi_box.Config.Validate.{Error, validate}

-- The results of os.ReadFile that the code tells apart.
pub data FileRead : Type 0 where
  file_missing file_unreadable : FileRead
  file_content : Text → FileRead

pub data LoadError : Type 0 where
  not_there not_readable not_parsed : LoadError
  not_valid : Error → LoadError

pub data Loaded : Type 0 where
  loaded : Config → Loaded
  not_loaded : LoadError → Loaded

unfoldable pub loaded_if_valid : Config → Option Error → Loaded
loaded_if_valid cfg none = loaded cfg
loaded_if_valid cfg (some e) = not_loaded (not_valid e)

-- The configuration to start with and whether it is the starter's, or an error.
pub data Start : Type 0 where
  ready : Config → Bool → Start
  broken : LoadError → Start

-- LoadOrInit behind its call of Load
unfoldable pub or_init : Loaded → Start
or_init (loaded cfg) = ready cfg false
or_init (not_loaded not_there) = ready default_config true
or_init (not_loaded e) = broken e

module _ (parse_duration : Text → Option ℤ) (decode : Text → Option Config) where
  unfoldable pub load_decoded : Option Config → Loaded
  unfolding loaded_if_valid
  load_decoded none = not_loaded not_parsed
  load_decoded (some cfg) =
      loaded_if_valid (normalize cfg) (validate parse_duration (some (normalize cfg)))

  -- Load
  unfoldable pub load : FileRead → Loaded
  unfolding load_decoded
  load file_missing = not_loaded not_there
  load file_unreadable = not_loaded not_readable
  load (file_content raw) = load_decoded (decode raw)

  -- LoadOrInit
  unfoldable pub load_or_init : FileRead → Start
  unfolding load or_init
  load_or_init f = or_init (load f)
