-- ===== src/Config/Valid.antt =====
-- Config.Validate against a description of the configurations that it lets pass.
use newapi_box.Prelude.{
  ◌≡◌, ◌≢◌, refl, List, [], ◌∷◌, Option, none, some, arith, true, false, All, ◌⊎◌, inl, inr,
  is_empty, ◌↔◌, sym, subst, Bool-cases, ◌||◌,
}
use newapi_box.Prelude.Int.{ℤ, is_positive}
use newapi_box.Text.{Text, trim_space}
use newapi_box.Text.Equal.{is_empty_iff, not_empty_iff, equal_iff}
use newapi_box.Config.{
  RelayFormat, openai, openai_responses, claude, gemini, other, Upstream, Config, find_upstream,
  active_upstream, is_supported, is_unset,
}
use newapi_box.Config.Resolve.{active_upstream-found}
use newapi_box.Config.Validate.{
  Error, has_name, check_duration, timeout_error, or_else, check_live, check_active,
  request_timeout, check_upstream, check_upstreams, validate, is_claude,
}

has_name_iff :
    (seen : List Text) (name : Text) → (has_name seen name ≡ false) ↔ All (λ n. n ≢ name) seen
unfolding has_name
has_name_iff [] name = (λ _. tt, λ _. refl)
has_name_iff (n ∷ seen) name = (
  λ h. (λ e. ground (arith, equal_iff n name), (has_name_iff seen name).0 (ground arith)),
  λ h. ground (arith, equal_iff n name, (has_name_iff seen name).1 h.1),
)

-- No two entries have one name.
abbrev pub DistinctNames : List Upstream → Type 0
DistinctNames [] = Unit
DistinctNames (u ∷ us) = All (λ v. u.name ≢ v.name) us × DistinctNames us

-- The format is one of the four, or left empty.
abbrev IsDraftFormat : RelayFormat → Type 0
IsDraftFormat f = (f ≡ other []) ⊎ (is_supported f ≡ true)

format_check_iff : (f : RelayFormat) → ((is_unset f || is_supported f) ≡ true) ↔ IsDraftFormat f
format_check_iff openai = (λ _. inr refl, λ _. refl)
format_check_iff openai_responses = (λ _. inr refl, λ _. refl)
format_check_iff claude = (λ _. inr refl, λ _. refl)
format_check_iff gemini = (λ _. inr refl, λ _. refl)
format_check_iff (other []) = (λ _. inl refl, λ _. refl)
format_check_iff (other (c ∷ s)) = (λ h. cc, ground arith)

check_duration_iff :
    (t : Text) (o : Option ℤ)
    → (timeout_error (check_duration t o) ≡ none)
      ↔ ((d : ℤ) × (o ≡ some d) × (is_positive d ≡ true))
unfolding check_duration
check_duration_iff t none = (λ h. cc, λ h. cc (h.1))
check_duration_iff t (some d) = (λ h. (d, refl, ground arith), λ h. ground (arith, h.1, h.2))

Fresh : List Text → List Upstream → Type 0
Fresh seen us = All (λ u. All (λ n. n ≢ u.name) seen) us

Fresh-cons :
    (n : Text) (seen : List Text) (us : List Upstream)
    → Fresh (n ∷ seen) us ↔ (All (λ v. n ≢ v.name) us × Fresh seen us)
unfolding Fresh
Fresh-cons n seen [] = (λ _. (tt, tt), λ _. tt)
Fresh-cons n seen (u ∷ us) = (
  λ h. let (apart, fresh) = (Fresh-cons n seen us).0 h.1 in ((h.0.0, apart), (h.0.1, fresh)),
  λ h. ((h.0.0, h.1.0), (Fresh-cons n seen us).1 (h.0.1, h.1.1)),
)

Fresh-nil : (us : List Upstream) → Fresh [] us
unfolding Fresh
Fresh-nil [] = tt
Fresh-nil (u ∷ us) = (tt, Fresh-nil us)

or_else_iff :
    (first second : Option Error)
    → (or_else first second ≡ none) ↔ ((first ≡ none) × (second ≡ none))
or_else_iff none second = (λ h. (refl, h), λ h. h.1)
or_else_iff (some e) second = (λ h. cc, λ h. cc (h.0))

-- What Validate asks of the live entry.
pub record IsLive (c : Config) (u : Upstream) : Type 0 where
  pub supported : is_supported u.format ≡ true
  pub has_base_url : u.base_url ≢ []
  pub has_budget : u.format ≡ claude → c.claude_default_max_tokens ≢ 0

is_claude_iff : (f : RelayFormat) → (is_claude f ≡ true) ↔ (f ≡ claude)
is_claude_iff claude = (λ _. refl, λ _. refl)
is_claude_iff openai = ground arith
is_claude_iff openai_responses = ground arith
is_claude_iff gemini = ground arith
is_claude_iff (other s) = ground arith

check_live_iff : (c : Config) (u : Upstream) → (check_live c u ≡ none) ↔ IsLive c u
unfolding check_live
check_live_iff c u = (
  λ h. record {
    supported = ground arith;
    has_base_url = λ e. ground (arith, is_empty_iff u.base_url);
    has_budget = λ e z. ground (arith, is_claude_iff u.format);
  },
  λ h. ground (
    arith,
    h.supported,
    not_empty_iff u.base_url,
    is_claude_iff u.format,
    h.has_budget,
    h.has_base_url,
  ),
)

check_active_iff :
    (c : Config) (o : Option Upstream)
    → (check_active c o ≡ none)
      ↔ ((u : Upstream) × (o ≡ some u) × IsLive c (active_upstream (some c)))
unfolding check_active
check_active_iff c none = (λ h. cc, λ h. cc (h.1))
check_active_iff c (some u) =
    (λ h. (u, refl, (check_live_iff c _).0 h), λ h. (check_live_iff c _).1 h.2)

find-not_empty :
    (c : Config) {u : Upstream}
    → find_upstream (some c) c.active ≡ some u
    → is_empty c.upstreams ≡ false
unfolding find_upstream
find-not_empty c h = ground arith

module _ (parse_duration : Text → Option ℤ) where
  -- The timeout is blank, or a positive duration.
  abbrev pub IsTimeout : Text → Type 0
  IsTimeout t =
      (trim_space t ≡ []) ⊎ ((d : ℤ) × (parse_duration t ≡ some d) × (is_positive d ≡ true))

  pub request_timeout_iff :
      (u : Upstream)
      → (timeout_error (request_timeout parse_duration u) ≡ none) ↔ IsTimeout u.timeout
  unfolding request_timeout
  request_timeout_iff u = elim (Bool-cases (is_empty (trim_space u.timeout))) [
    | inl blank ↦ (λ _. inl ((is_empty_iff _).0 blank), λ _. rw blank)
    | inr there ↦ (
      λ h. inr ((check_duration_iff u.timeout (parse_duration u.timeout)).0 (rw there at h)),
      λ h. elim h [
        | inl blank ↦ ground (arith, is_empty_iff (trim_space u.timeout))
        | inr given ↦ rw there ((check_duration_iff _ _).1 given)
      ],
    )
  ]

  -- What Validate asks of each entry by itself.
  abbrev pub IsEntry : Upstream → Type 0
  IsEntry u = (u.name ≢ []) × IsDraftFormat u.format × IsTimeout u.timeout

  check_upstream_tests :
      (seen : List Text) (u : Upstream)
      → (check_upstream parse_duration seen u ≡ none) ↔ (
          (is_empty u.name ≡ false)
          × (has_name seen u.name ≡ false)
          × ((is_unset u.format || is_supported u.format) ≡ true)
          × (timeout_error (request_timeout parse_duration u) ≡ none))
  unfolding check_upstream
  check_upstream_tests seen u = ground arith

  check_upstream_iff :
      (seen : List Text) (u : Upstream)
      → (check_upstream parse_duration seen u ≡ none) ↔ (IsEntry u × All (λ n. n ≢ u.name) seen)
  check_upstream_iff seen u = (
    λ h.
        let t = (check_upstream_tests seen u).0 h in
        (
          ((not_empty_iff _).0 t.0, (format_check_iff _).0 t.2, (request_timeout_iff u).0 t.3),
          (has_name_iff seen u.name).0 t.1,
        ),
    λ h. (check_upstream_tests seen u).1 (
      (not_empty_iff _).1 h.0.0,
      (has_name_iff seen u.name).1 h.1,
      (format_check_iff _).1 h.0.1,
      (request_timeout_iff u).1 h.0.2,
    ),
  )

  check_upstreams_iff :
      (us : List Upstream) (seen : List Text)
      → (check_upstreams parse_duration seen us ≡ none)
        ↔ (All IsEntry us × DistinctNames us × Fresh seen us)
  unfolding check_upstreams Fresh
  check_upstreams_iff [] seen = (λ _. (tt, tt, tt), λ _. refl)
  check_upstreams_iff (u ∷ us) seen = (
    λ h.
        let (first, rest) = (or_else_iff _ _).0 h in
        let (entry, new) = (check_upstream_iff seen u).0 first in
        let t = (check_upstreams_iff us (u.name ∷ seen)).0 rest in
        let (apart, fresh) = (Fresh-cons u.name seen us).0 t.2 in
        ((entry, t.0), (apart, t.1), (new, fresh)),
    λ h. (or_else_iff _ _).1 (
      (check_upstream_iff seen u).1 (h.0.0, h.2.0),
      (check_upstreams_iff us (u.name ∷ seen)).1
          (h.0.1, h.1.1, (Fresh-cons u.name seen us).1 (h.1.0, h.2.1)),
    ),
  )

  -- A configuration that can serve: entries with a name, a known format or none yet, and a timeout
  -- that is blank or positive; names that differ; and a live entry that is complete.
  pub record IsValid (c : Config) : Type 0 where
    pub entries : All IsEntry c.upstreams
    pub distinct : DistinctNames c.upstreams
    pub live : Upstream
    pub found : find_upstream (some c) c.active ≡ some live
    pub complete : IsLive c live

  validate_tests :
      (c : Config)
      → (validate parse_duration (some c) ≡ none) ↔ (
          (is_empty c.upstreams ≡ false)
          × (check_upstreams parse_duration [] c.upstreams ≡ none)
          × (check_active c (find_upstream (some c) c.active) ≡ none))
  unfolding validate
  validate_tests c = ground arith

  -- Validate accepts a configuration exactly when its entries have names that differ, formats that
  -- are known or empty, and timeouts that are blank or positive, and the live entry is there with a
  -- known format, a base URL and, for Claude, a budget of tokens.
  pub validate_iff : (c : Config) → (validate parse_duration (some c) ≡ none) ↔ IsValid c
  validate_iff c = (
    λ h.
        let t = (validate_tests c).0 h in
        let e = (check_upstreams_iff c.upstreams []).0 t.1 in
        let (u, found, live) = (check_active_iff c _).0 t.2 in
        record {
          entries = e.0;
          distinct = e.1;
          live = u;
          found = found;
          complete = subst (IsLive c) (active_upstream-found c found) live;
        },
    λ v. (validate_tests c).1 (
      find-not_empty c v.found,
      (check_upstreams_iff c.upstreams []).1 (v.entries, v.distinct, Fresh-nil c.upstreams),
      (check_active_iff c _).1
          (v.live, v.found, subst (IsLive c) (sym (active_upstream-found c v.found)) v.complete),
    ),
  )
