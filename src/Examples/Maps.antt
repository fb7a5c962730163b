-- ===== src/Examples/Maps.antt =====
-- Maps whose entries stand in two orders.
use newapi_box.Prelude.{◌≡◌, ◌↔◌, refl, false, [], ◌∷◌}
use mathlib.Core.List.{filter_map}
use mathlib.Core.List.Permᴰ
use newapi_box.Text.{codes, trim_space}
use newapi_box.Config.{claude, StringMap, lookup}
use newapi_box.Config.Entries.{SameMap, Permᴰ-SameMap, Distinct}
use newapi_box.Proxy.Admit.{Runtime}
use newapi_box.Proxy.Session.{new_session, build_upstream_request}
use newapi_box.Proxy.Session.Order.{
  Orders, AreOrders, reorder, SameRequest, build_upstream_request-reorder,
}
use newapi_box.Admin.Save.{clean_map}
use newapi_box.Admin.Save.Order.{cleaned, clean_map-SameMap}
use newapi_box.Admin.Probe.Order.{IsSteady, IsOnly, probe_model_iff}
use newapi_box.Admin.Probe.{probe_model}
use newapi_box.Examples.Data.{first_upstream, host, request, runtime}

abbrev rows : StringMap
rows = (codes " a", codes "1") ∷ (codes "ab", codes "2 ") ∷ []

abbrev turned : StringMap
turned = (codes "ab", codes "2 ") ∷ (codes " a", codes "1") ∷ []

rows-SameMap : SameMap rows turned
rows-SameMap = Permᴰ-SameMap (Permᴰ.swap refl refl)

rows-Distinct : Distinct (cleaned rows)
unfolding filter_map trim_space
rows-Distinct = (((λ h. cc h), tt), (tt, tt))

clean_map-SameMap_example :
    lookup (clean_map turned) (codes "ab") ≡ lookup (cleaned rows) (codes "ab")
clean_map-SameMap_example = clean_map-SameMap rows turned rows-SameMap rows-Distinct (codes "ab")

probe_model_iff_example : IsSteady rows ↔ IsOnly (probe_model rows) rows
probe_model_iff_example = probe_model_iff rows

abbrev with_headers : Runtime
with_headers = record runtime { up = record first_upstream { headers = rows } }

abbrev orders : Orders
orders = record { headers = turned; paths = []; model_map = first_upstream.model_map }

are_orders : AreOrders host.requests.canonical with_headers.up orders
are_orders = record {
  same_headers = rows-SameMap;
  same_paths = refl;
  same_models = refl;
  distinct_headers = (((λ h. cc h), tt), (tt, tt));
  distinct_paths = tt;
  distinct_models = (tt, tt);
}

build_upstream_request-reorder_example :
    SameRequest
      (build_upstream_request host.requests
        (new_session with_headers claude false (codes "m"))
        request)
      (build_upstream_request host.requests
        (new_session
          (record with_headers { up = reorder with_headers.up orders })
          claude
          false
          (codes "m"))
        request)
build_upstream_request-reorder_example =
    build_upstream_request-reorder host.requests with_headers orders are_orders claude false
      (codes "m") request
