-- ===== src/Config/Store.antt =====
-- internal/config/store.go: the store, its snapshot and Save. The mutex makes one Save atomic for
-- the others; a reader sees the snapshot before or after the publication.
pub mod Publish
use newapi_box.Prelude.{ℕ, Bool, true, false, List, [], ◌∷◌, Option, none, some}
use newapi_box.Prelude.Int.{ℤ}
use newapi_box.Text.{Text}
use newapi_box.Config.{Config, zero_config, normalize, clone}
use newapi_box.Config.Validate.{Error, validate}
use newapi_box.Config.File.{Answers, FileError, Disk, Run, final, write_file}

-- `current` is the atomic pointer, `none` while it is nil.
pub record Store : Type 0 where
  pub path : Text
  pub current : Option Config
  pub disk : Disk

-- NewStore, over the files that are on the disk
unfoldable pub new_store : Text → Option Config → Disk → Store
unfolding clone
new_store path none disk = record {
  path = path;
  current = some (normalize (clone (some zero_config)));
  disk = disk;
}
new_store path (some cfg) disk = record {
  path = path;
  current = some (normalize (clone (some cfg)));
  disk = disk;
}

-- Store.Path
abbrev pub path_of : Option Store → Text
path_of none = []
path_of (some s) = s.path

or_zero : Option Config → Config
or_zero none = zero_config
or_zero (some c) = c

-- Store.Current
unfoldable pub current_of : Option Store → Config
unfolding or_zero
current_of none = zero_config
current_of (some s) = or_zero s.current

pub data SaveError : Type 0 where
  store_is_nil : SaveError
  invalid : Error → SaveError
  not_written : FileError → SaveError

abbrev Saved : Type 0
Saved = Store × Option SaveError

-- The publication, if the file was written.
unfoldable pub publish_if_written : Store → Config → Run → Option FileError → Saved
publish_if_written s candidate r (some e) = (record s { disk = final r }, some (not_written e))
publish_if_written s candidate r none =
    (record s { disk = final r; current = some candidate }, none)

-- `encode` is json.MarshalIndent with no prefix and an indent of two blanks.
unfoldable pub write_if_valid :
    (Config → Option Text) → Answers → Store → Config → Option Error → Saved
unfolding publish_if_written
write_if_valid encode a s candidate (some e) = (s, some (invalid e))
write_if_valid encode a s candidate none =
    let r = write_file a s.path (encode candidate) s.disk in
    publish_if_written s candidate r r.error

-- `parse_duration` is time.ParseDuration.
module _ (parse_duration : Text → Option ℤ) (encode : Config → Option Text) where
  -- Store.Save on a store that is not nil
  unfoldable pub save : Answers → Store → Option Config → Saved
  unfolding write_if_valid clone
  save a s cfg =
      let candidate = normalize (clone cfg) in
      write_if_valid encode a s candidate (validate parse_duration (some candidate))

  -- Store.Save, the receiver may be nil
  unfoldable save_at : Answers → Option Store → Option Config → Option Store × Option SaveError
  unfolding save
  save_at a none cfg = (none, some store_is_nil)
  save_at a (some s) cfg = let (t, e) = save a s cfg in (some t, e)

  -- A sequence of Saves, in the order in which they get the mutex.
  unfoldable pub save_all : Store → List (Answers × Option Config) → Store
  unfolding save
  save_all s [] = s
  save_all s ((a, cfg) ∷ rest) = save_all (save a s cfg).0 rest
