-- ===== src/Config/Validate.antt =====
-- internal/config/config.go: Upstream.RequestTimeout and Config.Validate. The text of an error is
-- fmt's rendering of its constructor.
use newapi_box.Prelude.{
  ◌==◌, Bool, true, false, not, ◌&&◌, ◌||◌, if◌then◌else◌, List, [], ◌∷◌, Option, none, some,
  is_empty,
}
use newapi_box.Prelude.Int.{ℤ, pos, is_positive}
use newapi_box.Text.{Text, equal, trim_space}
use newapi_box.Config.{
  RelayFormat, claude, is_supported, is_unset, Upstream, Config, find_upstream, active_upstream,
}

pub data Error : Type 0 where
  config_is_nil no_upstreams upstream_unnamed : Error
  name_duplicated : Text → Error
  format_unsupported : Text → RelayFormat → Error
  timeout_invalid : Text → Error
  timeout_not_positive : ℤ → Error
  active_unknown : Text → Error
  base_url_missing : Text → Error
  max_tokens_missing : Error

-- A time.Duration in nanoseconds, or an error.
pub data TimeoutResult : Type 0 where
  duration : ℤ → TimeoutResult
  refused : Error → TimeoutResult

-- 5 * time.Minute
abbrev pub five_minutes : ℤ
five_minutes = pos 300_000_000_000

-- `seen[name]`
unfoldable pub has_name : List Text → Text → Bool
unfolding equal
has_name [] name = false
has_name (n ∷ seen) name = equal n name || has_name seen name

unfoldable pub check_duration : Text → Option ℤ → TimeoutResult
check_duration t none = refused (timeout_invalid t)
check_duration t (some d) = if is_positive d then duration d else refused (timeout_not_positive d)

abbrev pub timeout_error : TimeoutResult → Option Error
timeout_error (duration d) = none
timeout_error (refused e) = some e

-- The first error of two checks in turn.
abbrev pub or_else : Option Error → Option Error → Option Error
or_else (some e) next = some e
or_else none next = next

-- format == types.RelayFormatClaude
abbrev pub is_claude : RelayFormat → Bool
is_claude claude = true
is_claude _ = false

-- What Validate asks of the live upstream.
unfoldable pub check_live : Config → Upstream → Option Error
check_live c u =
    if not (is_supported u.format)
    then some (format_unsupported u.name u.format)
    else if is_empty u.base_url
    then some (base_url_missing u.name)
    else if is_claude u.format && c.claude_default_max_tokens == 0
    then some max_tokens_missing
    else none

-- The part of Validate behind the loop, from the result of FindUpstream.
unfoldable pub check_active : Config → Option Upstream → Option Error
unfolding check_live
check_active c none = some (active_unknown c.active)
check_active c (some _) = check_live c (active_upstream (some c))

-- `parse_duration` is time.ParseDuration, with `none` for its error.
module _ (parse_duration : Text → Option ℤ) where
  -- Upstream.RequestTimeout
  unfoldable pub request_timeout : Upstream → TimeoutResult
  unfolding check_duration
  request_timeout u =
      if is_empty (trim_space u.timeout)
      then duration five_minutes
      else check_duration u.timeout (parse_duration u.timeout)

  -- The body of the loop in Validate, but for the addition to `seen`.
  unfoldable pub check_upstream : List Text → Upstream → Option Error
  unfolding has_name
  check_upstream seen u =
      if is_empty u.name
      then some upstream_unnamed
      else if has_name seen u.name
      then some (name_duplicated u.name)
      else if not (is_unset u.format) && not (is_supported u.format)
      then some (format_unsupported u.name u.format)
      else timeout_error (request_timeout u)

  -- The loop of Validate.
  unfoldable pub check_upstreams : List Text → List Upstream → Option Error
  unfolding check_upstream
  check_upstreams seen [] = none
  check_upstreams seen (u ∷ us) =
      or_else (check_upstream seen u) (check_upstreams (u.name ∷ seen) us)

  -- Config.Validate: `none` is the nil error
  unfoldable pub validate : Option Config → Option Error
  unfolding check_upstreams check_active
  validate none = some config_is_nil
  validate (some c) =
      if is_empty c.upstreams
      then some no_upstreams
      else or_else (check_upstreams [] c.upstreams)
          (check_active c (find_upstream (some c) c.active))
