-- ===== src/Admin/Console/Reports.antt =====
-- What the response of a save tells of the store and the relay behind it.
use newapi_box.Prelude.{
  ◌^◌, ◌≡◌, refl, ap, ◌∙◌, true, not, ◌||◌, inl, inr, if◌then◌else◌, [], Option, none, some, arith,
}
use newapi_box.Text.{Text, codes, equal, has_prefix, trim_prefix, trim_space}
use newapi_box.Text.Equal.{equal_refl}
use newapi_box.Config.{Config}
use newapi_box.Config.Validate.{Error}
use newapi_box.Config.Store.{SaveError, current_of}
use newapi_box.Config.Store.Publish.{IsPublished}
use newapi_box.Proxy.Types.{Credentials, read_limited}
use newapi_box.Proxy.Admit.{Runtime, built, not_built, new_runtime}
use newapi_box.Admin.Access.{authorized, console_authorized_iff}
use newapi_box.Admin.View.{View, view_of}
use newapi_box.Admin.Save.{Live, SaveReply, saved, save_refused, apply_refused, next_config}
use newapi_box.Admin.Save.Outcome.{
  IsOutcome, on_saved, on_refused, on_not_applied, save_config-IsOutcome,
}
use newapi_box.Admin.Routes.{
  unauthorized, save_config_api, config_route, api_route, serve_api, route,
}
use newapi_box.Admin.Console.Keys.{IsOperator, IsWrite}
use newapi_box.Admin.Console.{
  body_not_read, body_not_parsed, save_error, apply_error, saved_content, write_json, Shared,
  ConsoleRequest, Handled, written, ConsoleHost, save_written, save_decoded, save_read, respond,
  serve,
}

IsWrite-tested :
    (r : ConsoleRequest)
    → IsWrite r
    → (equal r.client.method (codes "PUT") || equal r.client.method (codes "POST")) ≡ true
IsWrite-tested r (inl put) = rw put (rw (equal_refl (codes "PUT")) refl)
IsWrite-tested r (inr post) = rw post (ground (arith, equal_refl (codes "POST")))

config_route-writes :
    (r : ConsoleRequest) → IsWrite r → config_route r.client.method ≡ save_config_api
unfolding config_route
config_route-writes r writes = rw (IsWrite-tested r writes) refl

route-config :
    (c : Config) (h : Credentials) (method : Text)
    → route c h (codes "/admin/api/config") method
      ≡ (if not (authorized c h) then unauthorized else config_route method)
unfolding route serve_api api_route has_prefix trim_prefix equal
route-config c h method = refl

-- A write to the configuration by the operator comes to saveConfig.
route-saves :
    (c : Config) (r : ConsoleRequest)
    → r.client.path ≡ codes "/admin/api/config"
    → IsWrite r
    → IsOperator c r.client.credentials
    → route c r.client.credentials r.client.path r.client.method ≡ save_config_api
route-saves c r path writes operator =
    ap (λ p. route c r.client.credentials p r.client.method) path
    ∙ route-config c r.client.credentials r.client.method
    ∙ rw ((console_authorized_iff c r.client.credentials).1 operator) (config_route-writes r writes)

module _ {ℓ} {P V W S : Type ℓ} (host : ConsoleHost P V W S) where
  -- The view that the request has in its body.
  abbrev pub HasBody : ConsoleRequest → View → Type 0
  HasBody r v =
      (body : Text) × (read_limited (2 ^ 20) r.client.body ≡ some body)
      × (host.probe_host.decode body ≡ some v)

  -- The response to a save, and what it tells of the state `t` behind it.
  pub data IsReport (s : Shared) (r : ConsoleRequest) (t : Shared) : Handled → Type 0 where
    unread :
        read_limited (2 ^ 20) r.client.body ≡ none
        → t ≡ s
        → IsReport s r t (written (write_json 400 body_not_read) [])
    unparsed :
        {body : Text}
        → read_limited (2 ^ 20) r.client.body ≡ some body
        → host.probe_host.decode body ≡ none
        → t ≡ s
        → IsReport s r t (written (write_json 400 body_not_parsed) [])
    not_saved :
        (v : View) (e : SaveError)
        → HasBody r v
        → t.live.store.current ≡ s.live.store.current
        → t.live.runtime ≡ s.live.runtime
        → IsReport s r t (written (write_json 400 (save_error e)) [])
    not_applied :
        (v : View) (e : Error)
        → HasBody r v
        → IsPublished host.parse_duration host.encode s.live.store t.live.store
            (some (next_config v (current_of (some s.live.store))))
        → new_runtime host.parse_duration (next_config v (current_of (some s.live.store)))
          ≡ not_built e
        → t.live.runtime ≡ s.live.runtime
        → IsReport s r t (written (write_json 500 (apply_error e)) [])
    applied :
        (v : View) {rt : Runtime}
        → HasBody r v
        → IsPublished host.parse_duration host.encode s.live.store t.live.store
            (some (next_config v (current_of (some s.live.store))))
        → new_runtime host.parse_duration (next_config v (current_of (some s.live.store)))
          ≡ built rt
        → t.live.runtime ≡ some rt
        → IsReport s r t (
            written
              (write_json 200 (
                saved_content
                  (view_of (current_of (some t.live.store)))
                  (not (equal (trim_space v.listen) (current_of (some s.live.store)).listen))))
              [])

  save_written-IsReport :
      (s : Shared) (r : ConsoleRequest) (v : View) (m : Live) (reply : SaveReply)
      → HasBody r v
      → let current = current_of (some s.live.store) in
        IsOutcome host.parse_duration host.encode s.live m
          (next_config v current)
          (not (equal (trim_space v.listen) current.listen))
          reply
        → IsReport s r (record s { live = m }) (written (save_written host m reply) [])
  unfolding save_written
  save_written-IsReport s r v m (saved b) body (on_saved published made live) =
      applied v body published made live
  save_written-IsReport s r v m (save_refused e) body (on_refused kept same) =
      not_saved v e body kept same
  save_written-IsReport s r v m (apply_refused e) body (on_not_applied published refused same) =
      not_applied v e body published refused same

  save_decoded-IsReport :
      (s : Shared) (r : ConsoleRequest) {body : Text} (o : Option View)
      → read_limited (2 ^ 20) r.client.body ≡ some body
      → host.probe_host.decode body ≡ o
      → IsReport s r (save_decoded host s o).0 (save_decoded host s o).1
  unfolding save_decoded
  save_decoded-IsReport s r none read e = unparsed read e refl
  save_decoded-IsReport s r (some v) read e =
      save_written-IsReport s r v _ _ (_, read, e)
        (save_config-IsOutcome host.parse_duration host.encode host.answers s.live v)

  save_read-IsReport :
      (s : Shared) (r : ConsoleRequest) (o : Option Text)
      → read_limited (2 ^ 20) r.client.body ≡ o
      → IsReport s r (save_read host s o).0 (save_read host s o).1
  unfolding save_read
  save_read-IsReport s r none read = unread read refl
  save_read-IsReport s r (some body) read =
      save_decoded-IsReport s r (host.probe_host.decode body) read refl

  -- A PUT or POST of the configuration by the operator is answered with 400 and nothing changed,
  -- where its body cannot be read or parsed; with 400 where Save refuses it, the store's snapshot
  -- and the runtime unchanged; with 500 where Apply refuses what Save has published, the runtime
  -- unchanged; and with 200 where the store has the normalized configuration, the relay a runtime
  -- built from the one before Normalize, and the answer the view of the store's, with a notice to
  -- restart exactly if the trimmed address is another one.
  pub serve-IsReport :
      (s : Shared) (r : ConsoleRequest)
      → r.client.path ≡ codes "/admin/api/config"
      → IsWrite r
      → IsOperator (current_of (some s.live.store)) r.client.credentials
      → IsReport s r (serve host s r).0 (serve host s r).1
  unfolding serve respond
  serve-IsReport s r path writes operator =
      rw (route-saves (current_of (some s.live.store)) r path writes operator)
        (save_read-IsReport s r (read_limited (2 ^ 20) r.client.body) refl)
