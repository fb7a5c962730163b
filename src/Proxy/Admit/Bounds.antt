-- ===== src/Proxy/Admit/Bounds.antt =====
-- The client that a runtime calls its upstream with.
use newapi_box.Prelude.{
  ◌≡◌, refl, subst, true, false, Option, none, some, Bool-cases, inl, inr, is_empty,
}
use newapi_box.Prelude.Int.{ℤ, pos, is_positive}
use newapi_box.Text.{Text, trim_space}
use newapi_box.Config.{Upstream, Config, active_upstream}
use newapi_box.Config.Validate.{
  TimeoutResult, duration, refused, check_duration, request_timeout, five_minutes,
}
use newapi_box.Proxy.Admit.{Runtime, built, new_client, with_timeout, new_runtime}

-- The wait for the headers of an answer is bounded by a positive time, and an answer's body is not;
-- redirects are not followed.
pub record IsBounded (rt : Runtime) : Type 0 where
  pub positive : is_positive rt.timeout ≡ true
  pub waits : rt.client.transport.response_header_timeout ≡ rt.timeout
  pub streams_on : rt.client.total_timeout ≡ pos 0
  pub stays : rt.client.follows_redirects ≡ false

duration-injective : (a b : ℤ) → duration a ≡ duration b → a ≡ b
duration-injective a b h = cc h

check_duration-positive :
    (t : Text) (o : Option ℤ) {d : ℤ} → check_duration t o ≡ duration d → is_positive d ≡ true
unfolding check_duration
check_duration-positive t none h = cc h
check_duration-positive t (some n) h = elim (Bool-cases (is_positive n)) [
  | inl p ↦ subst (λ m. is_positive m ≡ true) (duration-injective n _ (rw p at h)) p
  | inr not_positive ↦ cc (rw not_positive at h)
]

built-injective : (a b : Runtime) → built a ≡ built b → a ≡ b
built-injective a b h = cc h

module _ (parse_duration : Text → Option ℤ) where
  request_timeout-positive :
      (u : Upstream) {d : ℤ} → request_timeout parse_duration u ≡ duration d → is_positive d ≡ true
  unfolding request_timeout
  request_timeout-positive u h = elim (Bool-cases (is_empty (trim_space u.timeout))) [
    | inl blank ↦
        subst (λ m. is_positive m ≡ true) (duration-injective five_minutes _ (rw blank at h)) refl
    | inr set ↦ check_duration-positive u.timeout (parse_duration u.timeout) (rw set at h)
  ]

  with_timeout-IsBounded :
      (cfg : Config) (u : Upstream) (t : TimeoutResult) {rt : Runtime}
      → ((d : ℤ) → t ≡ duration d → is_positive d ≡ true)
      → with_timeout cfg u t ≡ built rt
      → IsBounded rt
  unfolding with_timeout new_client
  with_timeout-IsBounded cfg u (refused e) positive h = cc h
  with_timeout-IsBounded cfg u (duration d) {rt} positive h =
      subst IsBounded (built-injective _ rt h)
        (record { positive = positive d refl; waits = refl; streams_on = refl; stays = refl })

  -- A runtime that newRuntime builds waits for the headers of an answer for a positive time at most,
  -- does not bound the time for its body, and does not follow redirects.
  pub new_runtime-IsBounded :
      (cfg : Config) {rt : Runtime} → new_runtime parse_duration cfg ≡ built rt → IsBounded rt
  unfolding new_runtime
  new_runtime-IsBounded cfg h =
      with_timeout-IsBounded cfg (active_upstream (some cfg)) _
        (λ d. request_timeout-positive (active_upstream (some cfg))) h
