-- ===== src/Startup/Starts.antt =====
-- A configuration that loads is one that the server starts with.
use newapi_box.Prelude.{◌≡◌, Bool, true, false, Option, some, All}
use newapi_box.Prelude.Int.{ℤ}
use newapi_box.Text.{Text}
use newapi_box.Config.{Config}
use newapi_box.Config.Validate.{refused}
use newapi_box.Config.File.{Disk}
use newapi_box.Config.Load.{LoadError, Start, ready, broken}
use newapi_box.Config.Store.{Store, new_store}
use newapi_box.Proxy.Admit.{built}
use newapi_box.Listen.{ListenError, address, refused, resolve_listen}
use newapi_box.Startup.{
  exit_code, Startup, running, Running, exits, Notice, incomplete, notices, load_failed,
  flags_refused, not_bound, new_relay,
}

module _ (parse_duration : Text → Option ℤ) where
  -- The notice is the warning that the configuration is incomplete.
  abbrev pub IsWarning : Notice → Type 0
  IsWarning (incomplete e) = Unit
  IsWarning _ = ⊥

  module _ (decode : Text → Option Config) (path : Text) (disk : Disk) where
    -- What becomes of a start: an exit where the file does not load, where the flags are refused, or
    -- where the address that was resolved cannot be served; else the server is at that address, the
    -- store has the configuration with it, the relay has a runtime, and no warning is logged.
    pub data IsStarted (binds : Bool) (port listen : Text) (s : Start) (r : Startup) : Type 0 where
      not_loaded :
          {e : LoadError}
          → s ≡ broken e
          → r ≡ exits (load_failed e)
          → exit_code (load_failed e) ≡ 1
          → IsStarted binds port listen s r
      not_resolved :
          {c : Config} {created : Bool} {e : ListenError}
          → s ≡ ready c created
          → resolve_listen port listen c.listen ≡ refused e
          → r ≡ exits (flags_refused e)
          → exit_code (flags_refused e) ≡ 2
          → IsStarted binds port listen s r
      not_served :
          {c : Config} {created : Bool} {addr : Text}
          → s ≡ ready c created
          → resolve_listen port listen c.listen ≡ address addr
          → binds ≡ false
          → r ≡ exits not_bound
          → exit_code not_bound ≡ 1
          → IsStarted binds port listen s r
      started :
          {c : Config} {created : Bool} {run : Running}
          → s ≡ ready c created
          → resolve_listen port listen c.listen ≡ address run.address
          → binds ≡ true
          → r ≡ running run
          → run.store ≡ new_store path (some (record c { listen = run.address })) disk
          → new_relay parse_duration run.store ≡ built run.runtime
          → All (λ n. ¬ IsWarning n) run.notices
          → IsStarted binds port listen s r
