-- ===== src/Config/Load/Restart.antt =====
-- What a start serves, and that a saved configuration is there after a restart.
use newapi_box.Prelude.{
  ◌≡◌, ◌≢◌, refl, ap, ◌∙◌, true, false, [], ◌∷◌, ◌++◌, Option, none, some, All,
}
use newapi_box.Prelude.Int.{ℤ}
use newapi_box.Text.{Text}
use newapi_box.Config.{Config, default_config, normalize, clone}
use newapi_box.Config.Normalize.{IsNormal, normalize-IsNormal, IsTidyUrl, entries, normalize_idem}
use newapi_box.Config.Validate.{Error, validate}
use newapi_box.Config.Valid.{IsValid, validate_iff}
use newapi_box.Config.File.{Answers, Disk}
use newapi_box.Config.Store.{Store, save}
use newapi_box.Config.Store.Publish.{save-IsPublished}
use newapi_box.Config.Load.{
  FileRead, file_missing, file_unreadable, file_content, loaded_if_valid, Start, ready, broken,
  or_init, load_decoded, load, load_or_init,
}

-- What os.ReadFile finds in the file of a disk.
abbrev pub read_target : Option Text → FileRead
read_target none = file_missing
read_target (some raw) = file_content raw

module _ (parse_duration : Text → Option ℤ) (decode : Text → Option Config) where
  -- What LoadOrInit may start with: the starter's configuration where there is no file, a normal and
  -- valid one where there is; and an error only where there is a file.
  abbrev pub IsStart : FileRead → Start → Type 0
  IsStart f (ready cfg true) = (f ≡ file_missing) × (cfg ≡ default_config)
  IsStart f (ready cfg false) = (f ≢ file_missing) × IsNormal cfg × IsValid parse_duration cfg
  IsStart f (broken e) = f ≢ file_missing

  valid-IsStart :
      (raw : Text) (cfg : Config) (v : Option Error)
      → IsNormal cfg
      → validate parse_duration (some cfg) ≡ v
      → IsStart (file_content raw) (or_init (loaded_if_valid cfg v))
  unfolding or_init loaded_if_valid
  valid-IsStart raw cfg none n h = ((λ e. cc e), n, (validate_iff parse_duration cfg).0 h)
  valid-IsStart raw cfg (some e) n h = λ e. cc e

  decoded-IsStart :
      (raw : Text) (o : Option Config)
      → IsStart (file_content raw) (or_init (load_decoded parse_duration decode o))
  unfolding load_decoded or_init
  decoded-IsStart raw none = λ e. cc e
  decoded-IsStart raw (some cfg) = valid-IsStart raw (normalize cfg) _ (normalize-IsNormal cfg) refl

  -- LoadOrInit starts with the starter's configuration exactly where there is no file, with a normal
  -- and valid configuration where there is one that it accepts, and else with an error.
  pub load_or_init-IsStart : (f : FileRead) → IsStart f (load_or_init parse_duration decode f)
  unfolding load_or_init load or_init
  load_or_init-IsStart file_missing = (refl, refl)
  load_or_init-IsStart file_unreadable = λ e. cc e
  load_or_init-IsStart (file_content raw) = decoded-IsStart raw (decode raw)

  load-normal :
      {raw : Text} {cfg : Config}
      → decode raw ≡ some cfg
      → normalize cfg ≡ cfg
      → IsValid parse_duration cfg
      → load_or_init parse_duration decode (file_content raw) ≡ ready cfg false
  unfolding load_or_init load
  load-normal {cfg = cfg} d n v =
      ap (λ o. or_init (load_decoded parse_duration decode o)) d
      ∙ unfold load_decoded in
        ap (λ c. or_init (loaded_if_valid c (validate parse_duration (some c)))) n
        ∙ unfold loaded_if_valid in
          unfold or_init in rw ((validate_iff parse_duration cfg).1 v) refl

  -- If the decoder reads what the encoder wrote for the normalized configuration, and no base URL
  -- hides a blank before its trailing slashes, then after a Save that returns nil a restart loads the
  -- configuration that the Save published.
  pub load_or_init-save :
      (encode : Config → Option Text) (a : Answers) (s : Store) (cfg : Option Config)
      → ((content : Text)
          → encode (normalize (clone cfg)) ≡ some content
          → decode (content ++ b'\n' ∷ []) ≡ some (normalize (clone cfg)))
      → All (λ u. IsTidyUrl u.base_url) (entries (clone cfg))
      → (save parse_duration encode a s cfg).1 ≡ none
      → load_or_init parse_duration decode
          (read_target (save parse_duration encode a s cfg).0.disk.target)
        ≡ ready (normalize (clone cfg)) false
  load_or_init-save encode a s cfg inverse tidy ok =
      let p = save-IsPublished parse_duration encode a s cfg ok in
      ap (λ (d : Disk). load_or_init parse_duration decode (read_target d.target)) p.on_disk
      ∙ load-normal (inverse p.content p.encoded) (normalize_idem (clone cfg) tidy) p.valid
