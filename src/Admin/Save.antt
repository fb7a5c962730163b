-- ===== src/Admin/Save.antt =====
-- internal/admin/admin.go: saveConfig, behind the decoding of its body.
pub mod Keys
pub mod Order
pub mod Outcome
use newapi_box.Prelude.{
  ℕ, Bool, true, false, not, ◌&&◌, ◌||◌, if◌then◌else◌, List, [], ◌∷◌, ◌++◌, map, Option, none,
  some, is_empty,
}
use newapi_box.Prelude.Int.{ℤ}
use newapi_box.Text.{Text, equal, trim_space}
use newapi_box.Config.{RelayFormat, StringMap, lookup_or_empty, Upstream, Config, clone}
use newapi_box.Config.Validate.{Error}
use newapi_box.Config.File.{Answers}
use newapi_box.Config.Store.{Store, current_of, SaveError, save}
use newapi_box.Proxy.Admit.{Runtime, RuntimeResult, built, not_built, new_runtime}
use newapi_box.Admin.View.{View, UpstreamView}

-- m[key] = value
unfoldable pub assign : StringMap → Text → Text → StringMap
assign [] k v = (k, v) ∷ []
assign ((j, w) ∷ m) k v = if equal j k then (k, v) ∷ m else (j, w) ∷ assign m k v

-- The loop of cleanMap, over the entries in iteration order.
clean_onto : StringMap → StringMap → StringMap
unfolding assign
clean_onto out [] = out
clean_onto out ((k, v) ∷ m) =
    clean_onto (if is_empty (trim_space k) then out else assign out (trim_space k) (trim_space v)) m

-- cleanMap
pub clean_map : StringMap → StringMap
unfolding clean_onto
clean_map m = clean_onto [] m

-- resolveAPIKey
unfoldable pub resolve_api_key : UpstreamView → Text → Text
resolve_api_key incoming previous =
    if incoming.clear_api_key
    then []
    else if not (is_empty (trim_space incoming.api_key))
    then incoming.api_key
    else previous

-- prevKeys: a later entry of the same name replaces an earlier one
unfoldable pub keys_onto : StringMap → List Upstream → StringMap
unfolding assign
keys_onto out [] = out
keys_onto out (u ∷ us) = keys_onto (assign out u.name u.api_key) us

-- The stored key that an incoming upstream may keep.
unfoldable pub previous_key : StringMap → UpstreamView → Text
unfolding lookup_or_empty
previous_key keys iv =
    let by_name = lookup_or_empty keys iv.name in
    if is_empty by_name && not (is_empty iv.original_name)
    then lookup_or_empty keys iv.original_name
    else by_name

-- The body of the loop over incoming.Upstreams.
unfoldable pub upstream_from : StringMap → UpstreamView → Upstream
unfolding clean_map previous_key resolve_api_key
upstream_from keys iv = record {
  name = iv.name;
  format = iv.format;
  base_url = iv.base_url;
  api_key = resolve_api_key iv (previous_key keys iv);
  headers = clean_map iv.headers;
  paths = clean_map iv.paths;
  model_map = clean_map iv.model_map;
  timeout = iv.timeout;
}

-- The switch over the two keys: at most one of its cases is taken.
unfoldable pub take_keys : View → Config → Config
take_keys v next =
    if v.clear_admin_key
    then record next { admin_key = [] }
    else if not (is_empty (trim_space v.admin_key))
    then record next { admin_key = v.admin_key }
    else if v.clear_access_key
    then record next { access_key = [] }
    else if not (is_empty (trim_space v.access_key))
    then record next { access_key = v.access_key }
    else next

-- `next` of saveConfig, as it is given to Save and to Apply.
unfoldable pub next_config : View → Config → Config
unfolding take_keys keys_onto upstream_from clone
next_config v current =
    let keyed = take_keys v (record (clone (some current)) {
      listen = v.listen;
      verbose = v.verbose;
      claude_default_max_tokens = v.claude_default_max_tokens;
    }) in
    record keyed {
      upstreams = map (upstream_from (keys_onto [] current.upstreams)) v.upstreams;
      active = v.active_upstream;
    }

-- The store and the runtime that the relay path holds, and the runtimes whose idle connections have
-- been closed, the last one first.
pub record Live : Type 0 where
  pub store : Store
  pub runtime : Option Runtime
  pub closed : List Runtime

-- The responses of saveConfig by their status; `saved` says whether a restart is asked for.
pub data SaveReply : Type 0 where
  saved : Bool → SaveReply
  save_refused : SaveError → SaveReply
  apply_refused : Error → SaveReply

-- runtime.close, of the runtime that the swap returns, if any
unfoldable pub close : Option Runtime → List Runtime → List Runtime
close none closed = closed
close (some previous) closed = previous ∷ closed

-- The swap of the runtime in Proxy.Apply.
abbrev pub swap_runtime : Live → Runtime → Live
swap_runtime l rt = record l { runtime = some rt }

-- The close behind the swap.
abbrev pub close_runtime : Option Runtime → Live → Live
close_runtime previous l = record l { closed = close previous l.closed }

-- Proxy.Apply, with nothing between the swap and the close
unfoldable pub apply_runtime : Live → Bool → RuntimeResult → Live × SaveReply
unfolding close
apply_runtime l restart (built rt) = (close_runtime l.runtime (swap_runtime l rt), saved restart)
apply_runtime l restart (not_built e) = (l, apply_refused e)

module _ (parse_duration : Text → Option ℤ) (encode : Config → Option Text) where
  unfoldable pub after_save : Live → Config → Bool → Store × Option SaveError → Live × SaveReply
  unfolding apply_runtime
  after_save l next restart (store, some e) = (record l { store = store }, save_refused e)
  after_save l next restart (store, none) =
      apply_runtime (record l { store = store }) restart (new_runtime parse_duration next)

  -- saveConfig, for a body that is read and decoded
  unfoldable pub save_config : Answers → Live → View → Live × SaveReply
  unfolding after_save next_config current_of
  save_config a l incoming =
      let current = current_of (some l.store) in
      let restart = not (equal (trim_space incoming.listen) current.listen) in
      let next = next_config incoming current in
      after_save l next restart (save parse_duration encode a l.store (some next))
