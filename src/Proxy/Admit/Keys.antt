-- ===== src/Proxy/Admit/Keys.antt =====
-- Which requests the key check lets pass.
use newapi_box.Prelude.{
  refl, sym, ap, ◌∙◌, subst, ◌∷◌, ◌++◌, Option, none, some, Option-cases, ◌≡◌, ◌≢◌, ◌⊎◌, inl, inr,
  ◌↔◌, true, [], arith, is_empty, Bool-cases,
}
use newapi_box.Text.{Text, codes, equal, trim_space, cut_prefix, trim_prefix}
use newapi_box.Text.Equal.{
  is_empty_iff, not_empty_iff, equal_iff, cut_prefix-append, cut_prefix_sound,
}
use newapi_box.Config.{Config, or_default}
use newapi_box.Proxy.Types.{Credentials}
use newapi_box.Proxy.Admit.{Runtime, presented, authorized}

-- There is no key in Authorization: it is blank, or nothing is behind its "Bearer ".
abbrev IsKeyless : Text → Type 0
IsKeyless authorization = (authorization ≡ []) ⊎ (authorization ≡ codes "Bearer ")

-- The key that the headers of a request present, each header taken without the blanks round it: in
-- Authorization what is behind "Bearer ", or else the whole of it; without a key there x-api-key; and
-- without one there either x-admin-key.
pub data IsPresented (h : Credentials) (key : Text) : Type 0 where
  bearer : key ≢ [] → trim_space h.authorization ≡ codes "Bearer " ++ key → IsPresented h key
  bare :
      key ≢ []
      → trim_space h.authorization ≡ key
      → ((t : Text) → key ≢ codes "Bearer " ++ t)
      → IsPresented h key
  of_api_key :
      key ≢ []
      → IsKeyless (trim_space h.authorization)
      → key ≡ trim_space h.x_api_key
      → IsPresented h key
  of_admin_key :
      IsKeyless (trim_space h.authorization)
      → trim_space h.x_api_key ≡ []
      → key ≡ trim_space h.x_admin_key
      → IsPresented h key

or_default-given : (t d : Text) → t ≢ [] → or_default t d ≡ t
or_default-given [] d h = absurd (h refl)
or_default-given (c ∷ t) d h = refl

trim_prefix-some : (p t : Text) → trim_prefix (p ++ t) p ≡ t
unfolding trim_prefix
trim_prefix-some p t = rw (cut_prefix-append p t, trim_prefix) refl

trim_prefix-none : (a p : Text) → ((t : Text) → a ≢ p ++ t) → trim_prefix a p ≡ a
unfolding trim_prefix
trim_prefix-none a p h = elim (Option-cases (cut_prefix a p)) [
  | inl none_found ↦ rw (none_found, trim_prefix) refl
  | inr (t, found) ↦ absurd (h t (cut_prefix_sound a p t found))
]

keyless-trim_prefix : (a : Text) → IsKeyless a → trim_prefix a (codes "Bearer ") ≡ []
keyless-trim_prefix a (inl e) =
    ap (λ b. trim_prefix b (codes "Bearer ")) e ∙ unfold trim_prefix in refl
keyless-trim_prefix a (inr e) =
    ap (λ b. trim_prefix b (codes "Bearer ")) e ∙ trim_prefix-some (codes "Bearer ") []

-- The code's key, from that in Authorization.
or_else : Credentials → Text → Text
or_else h key = or_default key (or_default (trim_space h.x_api_key) (trim_space h.x_admin_key))

presented-or_else :
    (h : Credentials) {key : Text}
    → trim_prefix (trim_space h.authorization) (codes "Bearer ") ≡ key
    → presented h ≡ or_else h key
unfolding presented or_else
presented-or_else h e = ap (or_else h) e

IsPresented-presented : (h : Credentials) (key : Text) → IsPresented h key → key ≡ presented h
unfolding or_else
IsPresented-presented h key (bearer given e) = sym (
    presented-or_else h
      (ap (λ a. trim_prefix a (codes "Bearer ")) e ∙ trim_prefix-some (codes "Bearer ") key)
    ∙ or_default-given key _ given)
IsPresented-presented h key (bare given e other) = sym (
    presented-or_else h
      (ap (λ a. trim_prefix a (codes "Bearer ")) e ∙ trim_prefix-none key (codes "Bearer ") other)
    ∙ or_default-given key _ given)
IsPresented-presented h key (of_api_key given keyless e) =
    e
    ∙ sym (
        presented-or_else h (keyless-trim_prefix _ keyless)
        ∙ or_default-given (trim_space h.x_api_key) _ (subst (λ t. t ≢ []) e given))
IsPresented-presented h key (of_admin_key keyless no_api_key e) =
    e
    ∙ sym (
        presented-or_else h (keyless-trim_prefix _ keyless)
        ∙ ap (λ t. or_default t (trim_space h.x_admin_key)) no_api_key)

or_else-IsPresented :
    (h : Credentials) (api : Text)
    → IsKeyless (trim_space h.authorization)
    → trim_space h.x_api_key ≡ api
    → IsPresented h (or_default api (trim_space h.x_admin_key))
or_else-IsPresented h [] keyless e = of_admin_key keyless e refl
or_else-IsPresented h (c ∷ t) keyless e = of_api_key (λ x. cc x) keyless (sym e)

authorization-IsPresented :
    (h : Credentials) (a : Text) (found : Option Text)
    → trim_space h.authorization ≡ a
    → cut_prefix a (codes "Bearer ") ≡ found
    → IsPresented h (or_else h (elim found [ none ↦ a | some key ↦ key ]))
unfolding or_else
authorization-IsPresented h a (some []) e is =
    or_else-IsPresented h _ (inr (e ∙ cut_prefix_sound a (codes "Bearer ") [] is)) refl
authorization-IsPresented h a (some (c ∷ t)) e is =
    bearer (λ x. cc x) (e ∙ cut_prefix_sound a (codes "Bearer ") (c ∷ t) is)
authorization-IsPresented h [] none e is = or_else-IsPresented h _ (inl e) refl
authorization-IsPresented h (c ∷ t) none e is =
    bare (λ x. cc x) e
      (λ u same. cc (
        sym is
        ∙ ap (λ b. cut_prefix b (codes "Bearer ")) same
        ∙ cut_prefix-append (codes "Bearer ") u))

presented-IsPresented : (h : Credentials) → IsPresented h (presented h)
unfolding presented trim_prefix or_else
presented-IsPresented h = authorization-IsPresented h _ _ refl refl

-- A key is one that the configuration sets.
pub data IsKeyOf (c : Config) (key : Text) : Type 0 where
  access : trim_space c.access_key ≢ [] → key ≡ trim_space c.access_key → IsKeyOf c key
  admin : trim_space c.admin_key ≢ [] → key ≡ trim_space c.admin_key → IsKeyOf c key

-- No key is set.
pub record IsOpen (c : Config) : Type 0 where
  pub no_access : trim_space c.access_key ≡ []
  pub no_admin : trim_space c.admin_key ≡ []

module _ (rt : Runtime) (h : Credentials) where
  abbrev access_key : Text
  access_key = trim_space rt.cfg.access_key

  abbrev admin_key : Text
  admin_key = trim_space rt.cfg.admin_key

  authorized_sound : authorized rt h ≡ true → IsOpen rt.cfg ⊎ IsKeyOf rt.cfg (presented h)
  unfolding authorized
  authorized_sound ok = elim (Bool-cases (is_empty access_key)) [
    | inl ea ↦ elim (Bool-cases (is_empty admin_key)) [
      | inl eb ↦
          inl (record { no_access = (is_empty_iff _).0 ea; no_admin = (is_empty_iff _).0 eb })
      | inr nb ↦ inr (admin ((not_empty_iff _).0 nb) ((equal_iff _ _).0 (ground arith)))
    ]
    | inr na ↦ elim (Bool-cases (equal (presented h) access_key)) [
      | inl same ↦ inr (access ((not_empty_iff _).0 na) ((equal_iff _ _).0 same))
      | inr other ↦ elim (Bool-cases (is_empty admin_key)) [
        | inl eb ↦ absurd (ground arith)
        | inr nb ↦ inr (admin ((not_empty_iff _).0 nb) ((equal_iff _ _).0 (ground arith)))
      ]
    ]
  ]

  authorized-open : IsOpen rt.cfg → authorized rt h ≡ true
  unfolding authorized
  authorized-open o =
      ground (arith, (is_empty_iff access_key).1 o.no_access, (is_empty_iff admin_key).1 o.no_admin)

  authorized-key : IsKeyOf rt.cfg (presented h) → authorized rt h ≡ true
  unfolding authorized
  authorized-key (access ne e) =
      ground (arith, (not_empty_iff access_key).1 ne, (equal_iff (presented h) access_key).1 e)
  authorized-key (admin ne e) =
      ground (arith, (not_empty_iff admin_key).1 ne, (equal_iff (presented h) admin_key).1 e)

-- A request passes exactly when the configuration sets no key, or the key that the request's
-- headers present is one of the keys that are set, blanks round a set key aside. Authorization goes
-- before x-api-key, and x-api-key before x-admin-key: a key in a later header does not count beside
-- one in an earlier one.
pub authorized_iff :
    (rt : Runtime) (h : Credentials)
    → (authorized rt h ≡ true)
      ↔ (IsOpen rt.cfg ⊎ ((key : Text) × IsPresented h key × IsKeyOf rt.cfg key))
authorized_iff rt h = (
  λ ok. elim (authorized_sound rt h ok) [
    | inl o ↦ inl o
    | inr key ↦ inr (presented h, presented-IsPresented h, key)
  ],
  λ k. elim k [
    | inl o ↦ authorized-open rt h o
    | inr (key, is, set) ↦
        authorized-key rt h (subst (IsKeyOf rt.cfg) (IsPresented-presented h key is) set)
  ],
)
