-- ===== src/Examples/Data.antt =====
-- The data of the examples.
use newapi_box.Prelude.{ℕ, Bool, true, false, [], ◌∷◌, Option, none, some}
use newapi_box.Prelude.Int.{ℤ, pos}
use newapi_box.Text.{Text, codes}
use newapi_box.Config.{
  claude, gemini, Upstream, Config, zero_upstream, zero_config, normalize, clone,
}
use newapi_box.Config.File.{Disk, removed, Answers}
use newapi_box.Config.Store.{Store}
use newapi_box.Protocol.Stream.{claude_event}
use newapi_box.Protocol.Surface.{Request, chat}
use newapi_box.Proxy.Types.{ok, Credentials, Source}
use newapi_box.Proxy.Admit.{Runtime, new_client}
use newapi_box.Proxy.Session.{Session, new_session, RequestHost}
use newapi_box.Proxy.Reply.{claude_response, Response, ReplyHost}
use newapi_box.Proxy.Events.{Event}
use newapi_box.Proxy.Pump.{StreamHost, Wire}
use newapi_box.Admin.Probe.Send.{ProbeHost}
use newapi_box.Proxy.Serve.{ClientRequest, Host, new_event}

abbrev pub first_upstream : Upstream
first_upstream = record zero_upstream {
  name = codes "a";
  format = claude;
  base_url = codes "http://a";
  api_key = codes "sk-first";
  model_map = (codes "m", codes "n") ∷ [];
}

abbrev pub second_upstream : Upstream
second_upstream = record zero_upstream {
  name = codes "spare";
  format = gemini;
  base_url = codes "http://b";
  api_key = codes "sk-second";
}

abbrev pub config : Config
config = record zero_config {
  listen = codes ":9000";
  admin_key = codes "door";
  upstreams = first_upstream ∷ second_upstream ∷ [];
  active = codes "a";
  claude_default_max_tokens = 4096;
}

-- A decoder that knows one duration, and an encoder that writes the listen address.
abbrev pub parse_duration : Text → Option ℤ
parse_duration t = some (pos 1)

abbrev pub encode_config : Config → Option Text
encode_config c = some c.listen

abbrev pub decode_config : Text → Option Config
decode_config raw = some (normalize (clone (some config)))

-- A disk on which each call succeeds, and one where both renames fail.
abbrev pub smooth : Answers
smooth = record {
  creates = true;
  writes = true;
  written = 0;
  syncs = true;
  closes = true;
  renames = true;
  removal = removed;
  renames_again = true;
  cleans = true;
}

abbrev pub stubborn : Answers
stubborn = record smooth { renames = false; renames_again = false }

abbrev pub disk : Disk
disk = record { target = some (codes "old"); temp = none }

abbrev pub store : Store
store = record { path = codes "config.json"; current = some config; disk = disk }

abbrev pub runtime : Runtime
runtime = record { cfg = config; up = first_upstream; timeout = pos 1; client = new_client (pos 1) }

abbrev pub credentials : Credentials
credentials = record { authorization = codes "Bearer door"; x_api_key = []; x_admin_key = [] }

abbrev pub session : Session
session = new_session runtime claude false (codes "m")

abbrev pub event : Event
event = new_event (codes "now") session

abbrev pub request : Request Bool
request = chat (codes "m") none none true

abbrev request_host : RequestHost Bool
request_host = record {
  convert = λ m f r. ok (record { value = r; converter = codes "c"; diagnostics = [] });
  ensure_summary = λ r f. r;
  encode = λ r. some (codes "{}");
  canonical = λ t. t;
  is_url = λ t. true;
}

abbrev pub reply_host : ReplyHost Bool
reply_host = record {
  decode = λ f t. some (claude_response true);
  convert = λ m f d. ok (true, none);
  encode = λ v. some (codes "{}");
  claude_usage = λ v. none;
  gemini_usage = λ v. none;
}

abbrev pub stream_host : StreamHost Bool ℕ
stream_host = record {
  new_state = λ f g m. ok 0;
  unmarshal = λ f t. some true;
  convert = λ m s v. (ok (some v ∷ []), s);
  finalize = λ m s. (ok [], s);
  usage = λ s. none;
  marshal = λ v. some (codes "{}");
  dto = λ v. claude_event (codes "message");
}

abbrev pub body : Source
body = record { bytes = codes "{}"; fails = false }

abbrev pub response : Response
response = record { status = 200; content_type = codes "application/json"; body = body }

abbrev pub wire : Wire
wire = record { sent = []; room = none }

abbrev pub host : Host Bool Bool Bool ℕ
host = record {
  unmarshal = λ f t. some request;
  requests = request_host;
  replies = reply_host;
  streams = stream_host;
  send = λ c r. ok response;
  now = codes "now";
  latency = pos 3;
  flushes = true;
  wire = wire;
}

abbrev pub client_request : ClientRequest
client_request = record {
  method = codes "POST";
  path = codes "/v1/messages";
  credentials = credentials;
  body = body;
}

abbrev pub probe_host : ProbeHost
probe_host = record {
  decode = λ t. none;
  refuses = λ t. none;
  canonical = λ t. t;
  send = λ r. ok response;
  latency = 3;
  runes = λ t. t;
}
