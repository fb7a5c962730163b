-- ===== src/Config/File.antt =====
-- internal/config/store.go: writeFile, as a run of file operations over the two files it touches.
-- What the operating system answers is an argument; the states that the run passes through are its
-- result, since a crash may stop it at each of them.
pub mod Crash
use newapi_box.Prelude.{
  ℕ, Bool, true, false, if◌then◌else◌, List, [], ◌∷◌, ◌++◌, Option, none, some, is_empty, take,
}
use newapi_box.Text.{Text}

-- The file at `path` and the temporary file beside it: their contents, `none` where there is none.
-- The temporary file is that of the last write: os.CreateTemp takes a new name each time, so one that
-- an earlier write could not remove stays on the disk, and is not kept here.
pub record Disk : Type 0 where
  pub target : Option Text
  pub temp : Option Text

-- The results of os.Remove that the code tells apart.
pub data Removal : Type 0 where
  removed missing not_removed : Removal

-- The answers of the operating system, in the order of the calls. A write that fails has written
-- a part of the data.
pub record Answers : Type 0 where
  pub creates : Bool
  pub writes : Bool
  pub written : ℕ
  pub syncs : Bool
  pub closes : Bool
  pub renames : Bool
  pub removal : Removal
  pub renames_again : Bool
  pub cleans : Bool

pub data FileError : Type 0 where
  path_empty encode_failed create_failed write_failed sync_failed close_failed : FileError
  replace_failed : FileError

-- The error, and the states of the disk from the first to the last.
pub record Run : Type 0 where
  pub error : Option FileError
  pub first : Disk
  pub rest : List Disk

-- The state after the last operation.
abbrev last_of : Disk → List Disk → Disk
last_of d [] = d
last_of d (e ∷ rest) = last_of e rest

abbrev pub final : Run → Disk
final r = last_of r.first r.rest

-- `d` comes before the run.
abbrev pub after : Disk → Run → Run
after d r = record { error = r.error; first = d; rest = r.first ∷ r.rest }

-- The return of an error, with the deferred removal of the temporary file.
unfoldable pub fail : Answers → FileError → Disk → Run
fail a e d = record {
  error = some e;
  first = d;
  rest = (if a.cleans then record d { temp = none } else d) ∷ [];
}

-- os.Rename(tempName, path) that succeeds, and the return of nil
replaced : Disk → Run
replaced d = record { error = none; first = d; rest = record { target = d.temp; temp = none } ∷ [] }

-- The second os.Rename.
rename_again : Answers → Disk → Run
unfolding fail replaced
rename_again a d = if a.renames_again then replaced d else fail a replace_failed d

-- os.Remove(path) after the first os.Rename failed.
drop_target : Answers → Removal → Disk → Run
unfolding fail rename_again
drop_target a removed d = after d (rename_again a (record d { target = none }))
drop_target a missing d = rename_again a d
drop_target a not_removed d = fail a replace_failed d

-- Sync, Close and the first os.Rename.
unfoldable pub publish : Answers → Disk → Run
unfolding fail replaced drop_target
publish a d =
    if a.syncs
    then (if a.closes
        then (if a.renames then replaced d else drop_target a a.removal d)
        else fail a close_failed d)
    else fail a sync_failed d

-- Write into the temporary file, and what follows.
unfoldable pub fill : Answers → Text → Disk → Run
unfolding fail publish
fill a content d = after d (
    if a.writes
    then publish a (record d { temp = some content })
    else fail a write_failed (record d { temp = some (take a.written content) }))

-- writeFile, where `encoded` is the result of json.MarshalIndent
unfoldable pub write_file : Answers → Text → Option Text → Disk → Run
unfolding fill
write_file a path none d = record {
  error = some (if is_empty path then path_empty else encode_failed);
  first = d;
  rest = [];
}
write_file a path (some encoded) d =
    if is_empty path
    then record { error = some path_empty; first = d; rest = [] }
    else if a.creates
    then after d (fill a (encoded ++ b'\n' ∷ []) (record d { temp = some [] }))
    else record { error = some create_failed; first = d; rest = [] }
