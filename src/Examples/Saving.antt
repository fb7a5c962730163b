-- ===== src/Examples/Saving.antt =====
-- The configuration: what is normalized, validated, written, published and loaded again.
use newapi_box.Prelude.{◌≡◌, ◌↔◌, inl, refl, false, [], ◌∷◌, none, some, All}
use newapi_box.Text.{codes, trim_space, trim_right}
use newapi_box.Config.{
  or_starter, migrate, normalize_upstream, normalize, clone, find_upstream, active_upstream,
}
use newapi_box.Config.Validate.{validate, request_timeout}
use newapi_box.Config.Valid.{IsValid, validate_iff}
use newapi_box.Config.File.{replace_failed, write_file, final}
use newapi_box.Config.File.Crash.{IsWhole, write_file-IsWhole, LosesTarget, write_file_loss}
use newapi_box.Config.Store.{save, save_all}
use newapi_box.Config.Store.Publish.{IsPublished, save-IsPublished, IsServed, serves_valid}
use newapi_box.Config.Load.{ready, load_or_init}
use newapi_box.Config.Load.Restart.{read_target, load_or_init-save}
use newapi_box.Examples.Data.{
  decode_config, config, parse_duration, encode_config, smooth, stubborn, disk, store,
}

validate_iff_example :
    (validate parse_duration (some config) ≡ none) ↔ IsValid parse_duration config
validate_iff_example = validate_iff parse_duration config

write_file-IsWhole_example :
    let r = write_file smooth (codes "c") (some (codes "{}")) disk in
    IsWhole disk (codes "{}") r.first × All (IsWhole disk (codes "{}")) r.rest
write_file-IsWhole_example = write_file-IsWhole smooth (codes "c") (codes "{}") disk (inl refl)

stubborn-LosesTarget : LosesTarget stubborn
stubborn-LosesTarget = record {
  created = refl;
  written = refl;
  synced = refl;
  closed = refl;
  not_renamed = refl;
  removed_target = refl;
  not_renamed_again = refl;
  cleaned = refl;
}

write_file_loss_example :
    ((write_file stubborn (codes "c") (some (codes "{}")) disk).error ≡ some replace_failed)
    × (final (write_file stubborn (codes "c") (some (codes "{}")) disk)
        ≡ record { target = none; temp = none })
write_file_loss_example =
    write_file_loss stubborn (codes "c") (codes "{}") disk (λ h. cc h) stubborn-LosesTarget

save-IsPublished_example :
    IsPublished parse_duration encode_config store
      (save parse_duration encode_config smooth store (some config)).0
      (some config)
unfolding save validate write_file normalize normalize_upstream trim_space request_timeout
    find_upstream active_upstream trim_right clone
save-IsPublished_example =
    save-IsPublished parse_duration encode_config smooth store (some config) refl

serves_valid_example :
    IsServed parse_duration encode_config store
      (save_all parse_duration encode_config store ((smooth, some config) ∷ (stubborn, none) ∷ []))
serves_valid_example =
    serves_valid parse_duration encode_config store ((smooth, some config) ∷ (stubborn, none) ∷ [])

load_or_init-save_example :
    load_or_init parse_duration decode_config
      (read_target (save parse_duration encode_config smooth store (some config)).0.disk.target)
    ≡ ready (normalize (clone (some config))) false
unfolding save validate write_file normalize normalize_upstream trim_space request_timeout
    find_upstream active_upstream trim_right clone or_starter migrate
load_or_init-save_example =
    load_or_init-save parse_duration decode_config encode_config smooth store (some config)
      (λ content e. refl) (refl, (refl, tt)) refl
