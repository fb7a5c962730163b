-- ===== src/Admin/Access.antt =====
-- internal/admin/admin.go: which requests may use the console's API. subtle.ConstantTimeCompare is
-- equality; its running time is not modelled.
use newapi_box.Prelude.{
  ◌≡◌, ◌⊎◌, inl, inr, ◌↔◌, Bool, true, ◌||◌, if◌then◌else◌, [], arith, is_empty, Bool-cases,
}
use newapi_box.Text.{Text, codes, equal, trim_space, trim_prefix}
use newapi_box.Text.Equal.{equal_iff, is_empty_iff}
use newapi_box.Config.{Config}
use newapi_box.Proxy.Types.{Credentials}

-- The bearer token of a request.
abbrev pub bearer : Credentials → Text
bearer h = trim_prefix (trim_space h.authorization) (codes "Bearer ")

-- Admin.authorized
unfoldable pub authorized : Config → Credentials → Bool
authorized c h =
    let expected = trim_space c.admin_key in
    if is_empty expected
    then true
    else equal (bearer h) expected || equal (trim_space h.x_admin_key) expected

-- The console's API is open exactly when no admin key is set, or one of the two headers carries it.
pub console_authorized_iff :
    (c : Config) (h : Credentials)
    → (authorized c h ≡ true) ↔ (
        (trim_space c.admin_key ≡ [])
        ⊎ ((bearer h ≡ trim_space c.admin_key)
            ⊎ (trim_space h.x_admin_key ≡ trim_space c.admin_key)))
unfolding authorized
console_authorized_iff c h = (
  λ ok. elim (Bool-cases (is_empty (trim_space c.admin_key))) [
    | inl blank ↦ inl ((is_empty_iff _).0 blank)
    | inr set ↦ elim (Bool-cases (equal (bearer h) (trim_space c.admin_key))) [
      | inl same ↦ inr (inl ((equal_iff _ _).0 same))
      | inr other ↦ inr (inr ((equal_iff _ _).0 (ground arith)))
    ]
  ],
  λ k. elim k [
    | inl blank ↦ ground (arith, (is_empty_iff (trim_space c.admin_key)).1 blank)
    | inr (inl b) ↦ ground (arith, (equal_iff (bearer h) (trim_space c.admin_key)).1 b)
    | inr (inr x) ↦
        ground (arith, (equal_iff (trim_space h.x_admin_key) (trim_space c.admin_key)).1 x)
  ],
)
