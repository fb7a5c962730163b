-- ===== src/Examples/Edges.antt =====
-- The flags, a remote file, and the tip of the icon.
use newapi_box.Prelude.{
  ◌-◌, ◌≡◌, ◌↔◌, refl, true, false, [], ◌++◌, Option, none, some, take, replicate, length,
}
use newapi_box.Text.{Text, codes, cut, trim_space}
use newapi_box.Listen.{address, resolve_listen}
use newapi_box.Listen.Port.{Gives, resolve_listen_iff}
use newapi_box.Proxy.Types.{Result, ok, read_limited}
use newapi_box.Proxy.Media.{media, Fetched, FileSource, get_base64_data}
use newapi_box.Proxy.Media.Resolve.{get_base64_data-again}
use newapi_box.Desktop.Tip.{utf16, has_nul, copy_tip}
use newapi_box.Desktop.Tip.Bounds.{copy_tip-padded}

resolve_listen_iff_example :
    (resolve_listen (codes " :81 ") [] (codes ":80") ≡ address (codes ":81"))
    ↔ Gives (trim_space (codes " :81 ")) (trim_space []) (codes ":80") (codes ":81")
resolve_listen_iff_example = resolve_listen_iff (codes " :81 ") [] (codes ":80") (codes ":81")

abbrev remote : FileSource
remote = record { is_url = true; raw_data = codes "http://a/b.png"; cache = none }

abbrev fetch : Text → Option (Result Fetched)
fetch url = some (
    ok (record {
      status = 200;
      content_type = codes "image/png;q=1";
      body = record { bytes = codes "AB"; fails = false };
    }))

given : (get_base64_data (λ t. t) fetch (some remote)).0 ≡ media (codes "AB") (codes "image/png")
unfolding get_base64_data cut read_limited
given = refl

get_base64_data-again_example :
    get_base64_data (λ t. t) (λ url. none) (get_base64_data (λ t. t) fetch (some remote)).1
    ≡ (media (codes "AB") (codes "image/png"), (get_base64_data (λ t. t) fetch (some remote)).1)
get_base64_data-again_example =
    get_base64_data-again (λ t. t) fetch (λ url. none) remote (codes "AB") (codes "image/png") refl
      given

copy_tip-padded_example :
    (has_nul (codes "abc") ≡ false
      → copy_tip (replicate 3 0) (codes "abc")
        ≡ take 2 (utf16 (codes "abc")) ++ replicate (3 - length (take 2 (utf16 (codes "abc")))) 0)
    × (has_nul (codes "abc") ≡ true → copy_tip (replicate 3 0) (codes "abc") ≡ replicate 3 0)
    × (length (copy_tip (replicate 3 0) (codes "abc")) ≡ 3)
copy_tip-padded_example = copy_tip-padded 2 (codes "abc")
