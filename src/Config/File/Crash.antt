-- ===== src/Config/File/Crash.antt =====
-- Where a run of writeFile may be stopped, and what then stands in the file.
use newapi_box.Prelude.{
  ◌≡◌, ◌≢◌, refl, true, false, [], ◌∷◌, ◌++◌, ◌⊎◌, Option, none, some, arith, All,
}
use newapi_box.Text.{Text}
use newapi_box.Config.File.{Disk, removed, Answers, final, write_file, replace_failed}

-- A run that ends without an error has put the whole new content, with its line feed, in the file,
-- and no temporary file is left.
pub write_file_success :
    (a : Answers) (path : Text) (encoded : Option Text) (d : Disk)
    → (write_file a path encoded d).error ≡ none
    → (content : Text) × (encoded ≡ some content)
      × (final (write_file a path encoded d)
          ≡ record { target = some (content ++ b'\n' ∷ []); temp = none })
unfolding write_file
write_file_success a path none d h = cc
write_file_success a path (some content) d h = (content, refl, ground arith)

-- The file is whole: as it was, or the new content.
abbrev pub IsWhole : Disk → Text → Disk → Type 0
IsWhole d content e = (e.target ≡ d.target) ⊎ (e.target ≡ some (content ++ b'\n' ∷ []))

-- If the file is never removed, each state of the run has the file whole.
pub write_file-IsWhole :
    (a : Answers) (path content : Text) (d : Disk)
    → (a.renames ≡ true) ⊎ (a.removal ≢ removed)
    → let r = write_file a path (some content) d in
      IsWhole d content r.first × All (IsWhole d content) r.rest
unfolding write_file
write_file-IsWhole a path content d h = ground arith

-- A failed run leaves the file as it was, unless the file was removed and could not be replaced.
pub write_file_failure :
    (a : Answers) (path : Text) (encoded : Option Text) (d : Disk)
    → (write_file a path encoded d).error ≢ none
    → ((final (write_file a path encoded d)).target ≡ d.target)
      ⊎ ((a.renames ≡ false) × (a.removal ≡ removed) × (a.renames_again ≡ false))
unfolding write_file
write_file_failure a path none d h = ground arith
write_file_failure a path (some content) d h = ground arith

-- The operations before the removal succeed, and both renames fail.
pub record LosesTarget (a : Answers) : Type 0 where
  pub created : a.creates ≡ true
  pub written : a.writes ≡ true
  pub synced : a.syncs ≡ true
  pub closed : a.closes ≡ true
  pub not_renamed : a.renames ≡ false
  pub removed_target : a.removal ≡ removed
  pub not_renamed_again : a.renames_again ≡ false
  pub cleaned : a.cleans ≡ true

-- Where all goes well up to the first rename, which fails, the old file is removed, the second
-- rename fails and the temporary file is cleaned up, writeFile reports an error and neither the old
-- nor the new content is left.
pub write_file_loss :
    (a : Answers) (path content : Text) (d : Disk)
    → path ≢ []
    → LosesTarget a
    → ((write_file a path (some content) d).error ≡ some replace_failed)
      × (final (write_file a path (some content) d) ≡ record { target = none; temp = none })
unfolding write_file
write_file_loss a [] content d h l = absurd (h refl)
write_file_loss a (c ∷ path) content d h l = ground arith
