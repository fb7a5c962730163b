-- ===== src/Admin/Routes/Guard.antt =====
-- What is behind the console's key.
use newapi_box.Prelude.{
  ◌≡◌, ◌≢◌, ◌⊎◌, inl, inr, refl, Bool, true, false, not, ◌||◌, if◌then◌else◌, arith, subst,
  Bool-cases,
}
use newapi_box.Text.{Text, codes, equal, has_prefix, trim_prefix}
use newapi_box.Text.Equal.{equal_iff}
use newapi_box.Config.{Config}
use newapi_box.Proxy.Types.{Credentials}
use newapi_box.Admin.Access.{authorized}
use newapi_box.Admin.Routes.{
  Route, relay, page, unauthorized, unknown_endpoint, save_config_api, api_prefix, config_route,
  api_route, serve_api, route,
}

-- The handlers that read or change the configuration or the history.
abbrev pub IsGuarded : Route → Type 0
IsGuarded relay = ⊥
IsGuarded page = ⊥
IsGuarded unauthorized = ⊥
IsGuarded unknown_endpoint = ⊥
IsGuarded _ = Unit

outside-page :
    (p q : Bool) (x : Route) → IsGuarded (if p then x else if q then page else relay) → p ≡ true
outside-page true q x g = refl
outside-page false true x g = absurd g
outside-page false false x g = absurd g

behind-key : (b : Bool) (x : Route) → IsGuarded (if not b then unauthorized else x) → b ≡ true
behind-key true x g = refl
behind-key false x g = absurd g

IsGuarded-subst : {x y : Route} → x ≡ y → IsGuarded x → IsGuarded y
IsGuarded-subst e g = subst IsGuarded e g

route-saves :
    (b k : Bool) (method endpoint : Text) (x : Route)
    → x ≢ save_config_api
    → (if b then if not k then unauthorized else api_route endpoint method else x) ≡ save_config_api
    → (method ≡ codes "PUT") ⊎ (method ≡ codes "POST")
unfolding api_route config_route
route-saves b k method endpoint x other h = elim (Bool-cases (equal method (codes "PUT"))) [
  | inl put ↦ inl ((equal_iff method (codes "PUT")).0 put)
  | inr not_put ↦ inr ((equal_iff method (codes "POST")).0 (ground arith))
]

page-or_relay : (q : Bool) → (if q then page else relay) ≢ save_config_api
page-or_relay true h = cc h
page-or_relay false h = cc h

-- A request that reaches a handler of the console's API is on a path under /admin/api/ and has
-- passed the check of the key; and it saves a configuration only with the method PUT or POST.
pub guarded-authorized :
    (cfg : Config) (h : Credentials) (path method : Text)
    → IsGuarded (route cfg h path method)
    → (has_prefix path api_prefix ≡ true)
      × (authorized cfg h ≡ true)
      × (route cfg h path method ≡ save_config_api
          → (method ≡ codes "PUT") ⊎ (method ≡ codes "POST"))
unfolding route serve_api
guarded-authorized cfg h path method g =
    let inside = outside-page (has_prefix path api_prefix) _ (serve_api cfg h path method) g in
    (
      inside,
      behind-key (authorized cfg h) _ (
          IsGuarded-subst {x = route cfg h path method} {y = serve_api cfg h path method}
            (rw inside refl) g),
      λ saves.
          route-saves (has_prefix path api_prefix) (authorized cfg h) method
            (trim_prefix path api_prefix) _
            (page-or_relay (
              equal path (codes "/")
              || equal path (codes "/admin")
              || equal path (codes "/admin/")))
            saves,
    )
