-- ===== src/Admin/Console/Secrets.antt =====
-- What the console shows of the keys that it guards.
use newapi_box.Prelude.{◌≡◌, refl, ap, ◌∙◌, ℕ, Option, some, length, []}
use newapi_box.Config.{Upstream, Config}
use newapi_box.Config.Store.{Store, current_of}
use newapi_box.Proxy.Events.{EventLog}
use newapi_box.Admin.Access.{authorized}
use newapi_box.Admin.View.Shown.{
  SameShown, view_of-SameShown, active_upstream-SameShown, length-SameShown,
}
use newapi_box.Admin.Routes.{
  Route, relay, page, unauthorized, unknown_endpoint, status_api, get_config_api, save_config_api,
  test_api, events_api, get_status, get_config, get_events, serve_api, route,
}
use newapi_box.Admin.Console.{
  status_content, config_content, write_json, Shared, ConsoleRequest, written, ConsoleHost, respond,
  serve,
}

-- The handlers that only show.
abbrev IsReading : Route → Type 0
IsReading relay = ⊥
IsReading save_config_api = ⊥
IsReading test_api = ⊥
IsReading _ = Unit

get_status-SameShown :
    (s t : Store) (l : Option EventLog) (uptime : ℕ)
    → s.path ≡ t.path
    → SameShown (current_of (some s)) (current_of (some t))
    → get_status s l uptime ≡ get_status t l uptime
unfolding get_status
get_status-SameShown s t l uptime path same =
    let c = current_of (some s) in
    let d = current_of (some t) in
    let listen : d.listen ≡ c.listen = ap (λ (x : Config). x.listen) same.keys_alone in
    let active = (active_upstream-SameShown c d same).0 in
    let name = ap (λ (x : Upstream). x.name) active in
    let format = ap (λ (x : Upstream). x.format) active in
    let url = ap (λ (x : Upstream). x.base_url) active in
    let size = ap (λ (x : Upstream). length x.model_map) active in
    let total = length-SameShown c d same in let admin = same.same_admin in cc

route-authorized :
    (c d : Config) (r : ConsoleRequest)
    → authorized c r.client.credentials ≡ authorized d r.client.credentials
    → route c r.client.credentials r.client.path r.client.method
      ≡ route d r.client.credentials r.client.path r.client.method
unfolding route serve_api
route-authorized c d r e = rw e refl

-- Two states of the server that differ in the keys of their configurations alone.
pub record SameState (s t : Shared) : Type 0 where
  pub same_log : s.log ≡ t.log
  pub same_path : s.live.store.path ≡ t.live.store.path
  pub same_shown : SameShown (current_of (some s.live.store)) (current_of (some t.live.store))

module _ {ℓ} {P V W S : Type ℓ} (host : ConsoleHost P V W S) where
  respond-SameState :
      (s t : Shared) (r : ConsoleRequest) (x : Route)
      → SameState s t
      → IsReading x
      → (respond host s r x).1 ≡ (respond host t r x).1
  unfolding respond get_config get_events
  respond-SameState s t r page same reading = refl
  respond-SameState s t r unauthorized same reading = refl
  respond-SameState s t r unknown_endpoint same reading = refl
  respond-SameState s t r status_api same reading =
      ap (λ v. written (write_json 200 (status_content v)) [])
        (get_status-SameShown s.live.store t.live.store (some s.log) host.uptime same.same_path
            same.same_shown
          ∙ ap (λ l. get_status t.live.store (some l) host.uptime) same.same_log)
  respond-SameState s t r get_config_api same reading =
      ap (λ v. written (write_json 200 (config_content v)) [])
        (view_of-SameShown _ _ same.same_shown)
  respond-SameState s t r events_api same reading =
      ap (λ l. (respond host (record s { log = l }) r events_api).1) same.same_log
  respond-SameState s t r relay same reading = absurd reading
  respond-SameState s t r save_config_api same reading = absurd reading
  respond-SameState s t r test_api same reading = absurd reading

  -- The keys do not show: of two states whose configurations differ in the keys alone, with the same
  -- ones set and with upstreams' keys of the same mask, a client whose credentials both accept or
  -- both refuse gets the same answer to every request that neither is relayed nor saves nor probes.
  -- A key of up to eight bytes has the mask of every key of its length, and a longer one that of
  -- every longer key with the same first and last four bytes.
  pub serve-hides :
      (s t : Shared) (r : ConsoleRequest)
      → SameState s t
      → authorized (current_of (some s.live.store)) r.client.credentials
        ≡ authorized (current_of (some t.live.store)) r.client.credentials
      → IsReading (
          route (current_of (some s.live.store)) r.client.credentials r.client.path r.client.method)
      → (serve host s r).1 ≡ (serve host t r).1
  unfolding serve
  serve-hides s t r same key reading =
      respond-SameState s t r _ same reading
      ∙ ap (λ x. (respond host t r x).1) (route-authorized _ _ r key)
