-- ===== src/Admin/Console/Keys.antt =====
-- What the requests have in common that come to one handler of the server.
use newapi_box.Prelude.{if_split, ◌≡◌, ◌⊎◌, inl, inr, true, false, not, [], some, arith, Bool-cases}
use newapi_box.Text.{Text, codes, equal, has_prefix, trim_prefix, trim_space}
use newapi_box.Text.Equal.{equal_iff}
use newapi_box.Config.{Config}
use newapi_box.Config.Store.{current_of}
use newapi_box.Proxy.Types.{Credentials}
use newapi_box.Admin.Access.{bearer, authorized, console_authorized_iff}
use newapi_box.Admin.Routes.{
  Route, relay, page, unauthorized, unknown_endpoint, status_api, get_config_api, save_config_api,
  test_api, events_api, api_prefix, config_route, api_route, serve_api, route,
}
use newapi_box.Admin.Console.{Shared, ConsoleRequest}

-- The credentials open the console: it has no key, or they carry it.
abbrev pub IsOperator : Config → Credentials → Type 0
IsOperator c h =
    (trim_space c.admin_key ≡ [])
    ⊎ ((bearer h ≡ trim_space c.admin_key) ⊎ (trim_space h.x_admin_key ≡ trim_space c.admin_key))

-- The request is for the console's API, from someone whom the console is open to.
pub record HasKey (s : Shared) (r : ConsoleRequest) : Type 0 where
  pub inside : has_prefix r.client.path api_prefix ≡ true
  pub passes : IsOperator (current_of (some s.live.store)) r.client.credentials

pub record LacksKey (s : Shared) (r : ConsoleRequest) : Type 0 where
  pub inside : has_prefix r.client.path api_prefix ≡ true
  pub refused : ¬ IsOperator (current_of (some s.live.store)) r.client.credentials

-- The request is not for the console's API.
abbrev pub IsOutside : ConsoleRequest → Type 0
IsOutside r = has_prefix r.client.path api_prefix ≡ false

abbrev pub IsWrite : ConsoleRequest → Type 0
IsWrite r = (r.client.method ≡ codes "PUT") ⊎ (r.client.method ≡ codes "POST")

-- What a request has that comes to a handler.
unfoldable pub Comes : Shared → ConsoleRequest → Route → Type 0
Comes s r relay = IsOutside r
Comes s r page = IsOutside r
Comes s r unauthorized = LacksKey s r
Comes s r save_config_api = HasKey s r × IsWrite r
Comes s r _ = HasKey s r

module _ (s : Shared) (r : ConsoleRequest) where
  config_route-Comes : HasKey s r → Comes s r (config_route r.client.method)
  unfolding config_route Comes
  config_route-Comes k =
      if_split (Comes s r) _ save_config_api get_config_api
        (λ writes. (
          k,
          elim (Bool-cases (equal r.client.method (codes "PUT"))) [
            | inl put ↦ inl ((equal_iff r.client.method (codes "PUT")).0 put)
            | inr not_put ↦ inr ((equal_iff r.client.method (codes "POST")).0 (ground arith))
          ],
        ))
        (λ _. k)

  api_route-Comes : (endpoint : Text) → HasKey s r → Comes s r (api_route endpoint r.client.method)
  unfolding api_route Comes
  api_route-Comes endpoint k =
      if_split (Comes s r) (equal endpoint (codes "status")) status_api _ (λ _. k)
        (λ _.
          if_split (Comes s r) (equal endpoint (codes "config")) _ _ (λ _. config_route-Comes k)
            (λ _.
              if_split (Comes s r) (equal endpoint (codes "test")) test_api _ (λ _. k)
                (λ _.
                  if_split (Comes s r) (equal endpoint (codes "events")) events_api unknown_endpoint
                    (λ _. k) (λ _. k))))

  serve_api-Comes :
      has_prefix r.client.path api_prefix ≡ true
      → Comes s r (
          serve_api
            (current_of (some s.live.store))
            r.client.credentials
            r.client.path
            r.client.method)
  unfolding serve_api Comes
  serve_api-Comes inside =
      let c = current_of (some s.live.store) in
      let h = r.client.credentials in
      if_split (Comes s r) (not (authorized c h)) unauthorized _
        (λ denied. record {
          inside = inside;
          refused = λ k. ground (arith, (console_authorized_iff c h).1 k);
        })
        (λ passes.
          api_route-Comes (trim_prefix r.client.path api_prefix)
            (record { inside = inside; passes = (console_authorized_iff c h).0 (ground arith) }))

  pub route-Comes :
      Comes s r
        (route (current_of (some s.live.store)) r.client.credentials r.client.path r.client.method)
  unfolding route Comes
  route-Comes =
      if_split (Comes s r) (has_prefix r.client.path api_prefix) _ _ serve_api-Comes
        (λ outside. if_split (Comes s r) _ page relay (λ _. outside) (λ _. outside))
