-- ===== src/Examples/Wire.antt =====
-- The paths that clients ask for, and the address that is bound.
use newapi_box.Prelude.{◌≡◌, ◌↔◌, [], some}
use newapi_box.Text.{codes}
use newapi_box.Config.{claude}
use newapi_box.Protocol.Sse
use newapi_box.Protocol.Sse.{NextResult, finished, new_reader, next, write_comment, write_event}
use newapi_box.Protocol.Surface.{match_inbound}
use newapi_box.Protocol.Surface.Match.{Speaks, match_inbound_iff}

match_inbound_iff_example :
    (match_inbound (codes "/v1/messages") ≡ some (claude, []))
    ↔ Speaks (codes "/v1/messages") claude []
match_inbound_iff_example = match_inbound_iff (codes "/v1/messages") claude []

abbrev greeting : Sse.Event
greeting = record { name = []; body = codes "hi" }
