-- ===== src/Startup.antt =====
-- main.go: main up to the point where it serves, and desktop/shell/main.go: startServer. A start is a
-- function of the flags, of what the configuration file holds and of the disk.
pub mod Built
pub mod Starts
pub mod Override
use newapi_box.Prelude.{
  ℕ, Bool, true, false, if◌then◌else◌, List, [], ◌∷◌, ◌++◌, Option, none, some,
}
use newapi_box.Prelude.Int.{ℤ}
use newapi_box.Text.{Text, codes}
use newapi_box.Config.{Upstream, Config, active_upstream}
use newapi_box.Config.Validate.{Error, validate}
use newapi_box.Config.File.{Disk}
use newapi_box.Config.Load.{FileRead, LoadError, Start, ready, broken, load_or_init}
use newapi_box.Config.Store.{Store, new_store, current_of}
use newapi_box.Proxy.Admit.{Runtime, RuntimeResult, built, not_built, new_runtime}
use newapi_box.Listen.{ListenError, Resolved, address, refused, resolve_listen}

-- What main logs of the configuration that it starts with.
pub data Notice : Type 0 where
  starting_blank : Notice
  incomplete : Error → Notice
  active_is : Upstream → Notice

-- The server's address, and what its handlers share.
pub record Running : Type 0 where
  pub address : Text
  pub store : Store
  pub runtime : Runtime
  pub notices : List Notice

pub data Exit : Type 0 where
  load_failed : LoadError → Exit
  flags_refused : ListenError → Exit
  relay_refused : Error → Exit
  not_bound : Exit

-- The argument of os.Exit in main
unfoldable pub exit_code : Exit → ℕ
exit_code (load_failed e) = 1
exit_code (flags_refused e) = 2
exit_code (relay_refused e) = 1
exit_code not_bound = 1

pub data Startup : Type 0 where
  running : Running → Startup
  exits : Exit → Startup

-- The warning about a configuration that Validate refuses.
unfoldable pub problem_notice : Option Error → List Notice
problem_notice none = []
problem_notice (some e) = incomplete e ∷ []

-- Whether the address can be served, behind the start of a relay.
unfoldable pub bind : Bool → Startup → Startup
bind true s = s
bind false (running r) = exits not_bound
bind false (exits e) = exits e

-- proxy.New, for a store that is not nil
unfoldable pub new_relay : (Text → Option ℤ) → Store → RuntimeResult
unfolding current_of
new_relay parse_duration s = new_runtime parse_duration (current_of (some s))

module _ (parse_duration : Text → Option ℤ) where
  unfoldable pub notices : Config → Bool → List Notice
  unfolding problem_notice
  notices cfg true = starting_blank ∷ []
  notices cfg false =
      problem_notice (validate parse_duration (some cfg))
      ++ active_is (active_upstream (some cfg)) ∷ []

  unfoldable pub with_relay : Text → Config → Bool → Store → RuntimeResult → Startup
  unfolding notices
  with_relay addr cfg created s (not_built e) = exits (relay_refused e)
  with_relay addr cfg created s (built rt) =
      running (record { address = addr; store = s; runtime = rt; notices = notices cfg created })

  -- The part of main from the assignment of the address on.
  unfoldable pub start_at : Text → Disk → Text → Config → Bool → Startup
  unfolding with_relay new_relay
  start_at path disk addr cfg created =
      let s = new_store path (some (record cfg { listen = addr })) disk in
      with_relay addr (record cfg { listen = addr }) created s (new_relay parse_duration s)

  unfoldable pub with_address : Text → Disk → Config → Bool → Resolved → Startup
  unfolding start_at
  with_address path disk cfg created (refused e) = exits (flags_refused e)
  with_address path disk cfg created (address addr) = start_at path disk addr cfg created

  module _ (decode : Text → Option Config) (path : Text) (disk : Disk) where
    unfoldable pub after_load : Text → Text → Start → Startup
    unfolding with_address
    after_load port listen (broken e) = exits (load_failed e)
    after_load port listen (ready cfg created) =
        with_address path disk cfg created (resolve_listen port listen cfg.listen)

    -- main, with its two flags; `binds` is whether ListenAndServe can listen at the address
    unfoldable pub start : Bool → Text → Text → FileRead → Startup
    unfolding after_load bind
    start binds port listen file =
        bind binds (after_load port listen (load_or_init parse_duration decode file))

    abbrev pub desktop_listen : Text
    desktop_listen = codes "127.0.0.1:18888"

    unfoldable pub after_desktop_load : Bool → Start → Startup
    unfolding start_at bind
    after_desktop_load binds (broken e) = exits (load_failed e)
    after_desktop_load binds (ready cfg created) =
        bind binds (start_at path disk desktop_listen cfg created)

    -- startServer of the desktop version; `binds` is whether net.Listen succeeds
    unfoldable pub start_server : Bool → FileRead → Startup
    unfolding after_desktop_load
    start_server binds file = after_desktop_load binds (load_or_init parse_duration decode file)
