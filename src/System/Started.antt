-- ===== src/System/Started.antt =====
-- The server that main has started, while it runs.
use newapi_box.Prelude.{Bool, true, false, ◌≡◌, ◌≢◌, refl, subst, List, [], ◌∷◌, ◌++◌, Option, some}
use newapi_box.Prelude.Int.{ℤ}
use newapi_box.Text.{Text}
use newapi_box.Config.{Config}
use newapi_box.Config.File.{Disk}
use newapi_box.Config.Load.{FileRead, Start, ready, broken}
use newapi_box.Config.Store.{Store}
use newapi_box.Listen.{Resolved, address, refused}
use newapi_box.Proxy.Admit.{Runtime, RuntimeResult, built, not_built, new_runtime, authorized}
use newapi_box.Proxy.Admit.Bounds.{IsBounded, new_runtime-IsBounded}
use newapi_box.Proxy.Events.{new_event_log}
use newapi_box.Proxy.Serve.{Host, serve_http}
use newapi_box.Proxy.Serve.Caller.{via}
use newapi_box.Startup.{
  Startup, Running, running, exits, bind, new_relay, with_relay, start_at, with_address, after_load,
  start,
}
use newapi_box.System.{Flight, System, Reach}
use newapi_box.System.Bounded.{sent-IsBounded}

-- What the handlers share when the server is started.
abbrev pub seed_of : Running → System
seed_of run = record {
  live = record { store = run.store; runtime = some run.runtime; closed = [] };
  log = new_event_log;
  flights = [];
  savers = [];
}

running-runtime : (r s : Running) → running r ≡ running s → r.runtime ≡ s.runtime
running-runtime r s h = cc h

some_runtime : {r s : Runtime} → some r ≡ some s → r ≡ s
some_runtime h = cc h

module _ (parse_duration : Text → Option ℤ) where
  with_relay-IsBounded :
      (addr : Text) (cfg c : Config) (created : Bool) (s : Store) (r : RuntimeResult)
      {run : Running}
      → new_runtime parse_duration c ≡ r
      → with_relay parse_duration addr cfg created s r ≡ running run
      → IsBounded run.runtime
  unfolding with_relay
  with_relay-IsBounded addr cfg c created s (not_built e) made h = cc h
  with_relay-IsBounded addr cfg c created s (built rt) {run} made h =
      subst IsBounded (running-runtime _ run h) (new_runtime-IsBounded parse_duration c made)

  module _ (decode : Text → Option Config) (path : Text) (disk : Disk) where
    with_address-IsBounded :
        (cfg : Config) (created : Bool) (l : Resolved) {run : Running}
        → with_address parse_duration path disk cfg created l ≡ running run
        → IsBounded run.runtime
    unfolding with_address start_at new_relay
    with_address-IsBounded cfg created (refused e) h = cc h
    with_address-IsBounded cfg created (address addr) h =
        with_relay-IsBounded addr (record cfg { listen = addr }) _ created _ _ refl h

    after_load-IsBounded :
        (port listen : Text) (s : Start) {run : Running}
        → after_load parse_duration decode path disk port listen s ≡ running run
        → IsBounded run.runtime
    unfolding after_load
    after_load-IsBounded port listen (broken e) h = cc h
    after_load-IsBounded port listen (ready cfg created) h = with_address-IsBounded cfg created _ h

    bind-running :
        (binds : Bool) (s : Startup) {run : Running} → bind binds s ≡ running run → s ≡ running run
    unfolding bind
    bind-running true s h = h
    bind-running false (running r) h = cc h
    bind-running false (exits e) h = cc h

    start-IsBounded :
        (binds : Bool) (port listen : Text) (file : FileRead) {run : Running}
        → start parse_duration decode path disk binds port listen file ≡ running run
        → IsBounded run.runtime
    unfolding start
    start-IsBounded binds port listen file h =
        after_load-IsBounded port listen _ (bind-running binds _ h)

    module _ {ℓ} (P V W S : Type ℓ) (encode : Config → Option Text) where
      -- If main starts the server, then, whatever requests and saves come between one another: a
      -- request that sends anything upstream has passed the key check of the runtime that it loaded
      -- when it came in. That runtime's client waits for the headers of an answer for the runtime's
      -- timeout at most, which is positive; it does not bound the time for the body, and does not
      -- follow redirects. And it is the client that sends: what becomes of the request is the same
      -- if every call, whichever client it is made with, is answered as one with this client.
      pub started-IsBounded :
          (binds : Bool) (port listen : Text) (file : FileRead) {run : Running} {s : System}
          (host : Host P V W S) (before after : List Flight) (f : Flight)
          → start parse_duration decode path disk binds port listen file ≡ running run
          → Reach P V W S parse_duration encode (seed_of run) s
          → s.flights ≡ before ++ f ∷ after
          → (serve_http host f.runtime f.request).sent ≢ []
          → (rt : Runtime) × (f.runtime ≡ some rt)
            × (authorized rt f.request.credentials ≡ true)
            × IsBounded rt
            × (serve_http (via rt.client host) f.runtime f.request
                ≡ serve_http host f.runtime f.request)
      started-IsBounded binds port listen file {run} host before after f starts r e h =
          sent-IsBounded parse_duration encode P V W S (seed_of run) host before after f
            (λ rt is.
              subst IsBounded (some_runtime is) (start-IsBounded binds port listen file starts))
            refl refl r e h
