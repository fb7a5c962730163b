-- ===== src/Startup/Override.antt =====
-- Where the address of the flag -listen goes: into the store, and from there into the console and
-- into the file.
use newapi_box.Prelude.{◌≡◌, Option, some}
use newapi_box.Prelude.Int.{ℤ}
use newapi_box.Text.{Text, trim_space}
use newapi_box.Config.{Config, default_listen, or_default}
use newapi_box.Config.File.{Disk}
use newapi_box.Config.Store.{Store, current_of}
use newapi_box.Listen.{address}
use newapi_box.Admin.View.{View}
use newapi_box.Startup.{Startup, Running}

-- The address as Normalize keeps it.
abbrev kept : Text → Text
kept addr = or_default (trim_space addr) default_listen

module _ (parse_duration : Text → Option ℤ) (decode : Text → Option Config) (path : Text)
    (disk : Disk) where
  -- The address that the server was started with, and its store's.
  record IsAt (addr : Text) (r : Running) : Type 0 where
    bound : r.address ≡ addr
    stored : (current_of (some r.store)).listen ≡ kept addr
