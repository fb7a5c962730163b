-- ===== src/Proxy/Admit.antt =====
-- internal/proxy/runtime.go and proxy.go: the snapshot of a configuration that a request is served
-- from, the check of its key, and the decoding of its body. The HTTP client that a runtime holds is
-- its settings here, and what it does with them is an argument of Proxy/Serve.
pub mod Keys
pub mod Bounds
use newapi_box.Prelude.{
  ℕ, ◌*◌, ◌==◌, Bool, true, false, not, ◌&&◌, ◌||◌, if◌then◌else◌, List, [], ◌∷◌, Option, none,
  some, is_empty,
}
use newapi_box.Prelude.Int.{ℤ, pos}
use newapi_box.Text.{Text, codes, equal, trim_space, is_blank, trim_prefix}
use newapi_box.Config.{RelayFormat, Upstream, Config, active_upstream, or_default}
use newapi_box.Config.Validate.{Error, TimeoutResult, duration, refused, request_timeout}
use newapi_box.Protocol.Surface.{Request, decode_request}
use newapi_box.Proxy.Types.{
  Credentials, Source, read_limited, Message, read_request_body, bad_request_body,
}

-- n * time.Second
abbrev seconds : ℕ → ℤ
seconds n = pos (n * 1_000_000_000)

-- http.Transport and the net.Dialer in it, by the fields that are set; the proxy is that of the
-- environment.
pub record Transport : Type 0 where
  pub dial_timeout : ℤ
  pub keep_alive : ℤ
  pub max_idle_conns : ℕ
  pub max_idle_conns_per_host : ℕ
  pub idle_conn_timeout : ℤ
  pub tls_handshake_timeout : ℤ
  pub expect_continue_timeout : ℤ
  pub force_attempt_http2 : Bool
  pub response_header_timeout : ℤ

-- http.Client. Its Timeout bounds a whole exchange, and 0 does not bound it; CheckRedirect returns
-- http.ErrUseLastResponse where redirects are not followed.
pub record Client : Type 0 where
  pub transport : Transport
  pub total_timeout : ℤ
  pub follows_redirects : Bool

pub record Runtime : Type 0 where
  pub cfg : Config
  pub up : Upstream
  pub timeout : ℤ
  pub client : Client

pub data RuntimeResult : Type 0 where
  built : Runtime → RuntimeResult
  not_built : Error → RuntimeResult

-- The client of newRuntime.
unfoldable pub new_client : ℤ → Client
new_client timeout = record {
  transport = record {
    dial_timeout = seconds 15;
    keep_alive = seconds 30;
    max_idle_conns = 100;
    max_idle_conns_per_host = 32;
    idle_conn_timeout = seconds 90;
    tls_handshake_timeout = seconds 15;
    expect_continue_timeout = seconds 1;
    force_attempt_http2 = true;
    response_header_timeout = timeout;
  };
  total_timeout = pos 0;
  follows_redirects = false;
}

unfoldable pub with_timeout : Config → Upstream → TimeoutResult → RuntimeResult
unfolding new_client
with_timeout cfg up (duration d) =
    built (record { cfg = cfg; up = up; timeout = d; client = new_client d })
with_timeout cfg up (refused e) = not_built e

-- newRuntime
unfoldable pub new_runtime : (Text → Option ℤ) → Config → RuntimeResult
unfolding with_timeout
new_runtime parse_duration cfg =
    let up = active_upstream (some cfg) in with_timeout cfg up (request_timeout parse_duration up)

-- The key that a request presents: the bearer token, or else one of two headers.
unfoldable pub presented : Credentials → Text
unfolding trim_prefix
presented h =
    or_default (trim_prefix (trim_space h.authorization) (codes "Bearer "))
      (or_default (trim_space h.x_api_key) (trim_space h.x_admin_key))

-- runtime.authorized
unfoldable pub authorized : Runtime → Credentials → Bool
authorized rt h =
    let access_key = trim_space rt.cfg.access_key in
    let admin_key = trim_space rt.cfg.admin_key in
    if is_empty access_key && is_empty admin_key
    then true
    else if not (is_empty access_key) && equal (presented h) access_key
    then true
    else not (is_empty admin_key) && equal (presented h) admin_key

-- maxRequestBody
abbrev max_request_body : ℕ
max_request_body = 67_108_864

pub data Decoded {ℓ} (P : Type ℓ) : Type ℓ where
  decoded : Request P → Decoded P
  bad : Message → Decoded P

module _ {ℓ} {P : Type ℓ} (unmarshal : RelayFormat → Text → Option (Request P)) where
  unfoldable pub decode_body : RelayFormat → Text → Decoded P
  unfolding is_blank
  decode_body format body =
      elim (decode_request unmarshal format (if is_blank body then codes "{}" else body)) [
        | none ↦ bad bad_request_body
        | some r ↦ decoded r
      ]

  -- decodeInbound
  unfoldable pub decode_inbound : RelayFormat → Source → Decoded P
  unfolding decode_body
  decode_inbound format body = elim (read_limited max_request_body body) [
    | none ↦ bad read_request_body
    | some bytes ↦ decode_body format bytes
  ]
