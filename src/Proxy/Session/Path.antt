-- ===== src/Proxy/Session/Path.antt =====
-- The paths that the converter calls are paths that it would serve itself.
use newapi_box.Prelude.{
  ◌≡◌, ◌≢◌, refl, ap, ◌∙◌, true, false, [], ◌∷◌, ◌++◌, some, All, sym, Bool-cases, ◌⊎◌, inl, inr,
  append_assoc, if◌then◌else◌,
}
use newapi_box.Text.{Text, codes, trim_space, replace_all}
use newapi_box.Config.{
  RelayFormat, openai, openai_responses, claude, gemini, other, Upstream, lookup_or_empty,
  format_name, path_for, gemini_stream_path_for, default_path, is_supported,
}
use newapi_box.Protocol.Surface.{is_gemini, match_inbound, gemini_path_prefix}
use newapi_box.Protocol.Surface.Match.{match_inbound_iff, gemini_path, generate, stream_generate}
use newapi_box.Proxy.Session.{Session, upstream_path, model_placeholder}

-- No path override, for a protocol or for Gemini's streams.
pub record UsesDefaultPaths (u : Upstream) : Type 0 where
  pub at : (f : RelayFormat) → trim_space (lookup_or_empty u.paths (format_name f)) ≡ []
  pub stream : trim_space (lookup_or_empty u.paths (format_name gemini ++ codes "_stream")) ≡ []

path_for_default :
    (u : Upstream) (f : RelayFormat) → UsesDefaultPaths u → path_for u f ≡ default_path f
unfolding path_for
path_for_default u f h = rw (h.at f)

gemini_stream_path_default :
    (u : Upstream)
    → UsesDefaultPaths u
    → gemini_stream_path_for u ≡ codes "/v1beta/models/{{model}}:streamGenerateContent?alt=sse"
unfolding gemini_stream_path_for
gemini_stream_path_default u h = rw h.stream

-- The model takes the place of its mark.
replace-generate :
    (model : Text)
    → replace_all (default_path gemini) model_placeholder model
      ≡ gemini_path_prefix ++ (model ++ (b':' ∷ codes "generateContent"))
unfolding replace_all default_path
replace-generate model = refl

replace-stream :
    (model : Text)
    → replace_all
        (codes "/v1beta/models/{{model}}:streamGenerateContent?alt=sse")
        model_placeholder
        model
      ≡ gemini_path_prefix ++ (model ++ (b':' ∷ codes "streamGenerateContent?alt=sse"))
unfolding replace_all
replace-stream model = refl

-- The path is served as `format`, for `model` where the protocol has its model in the path.
abbrev pub IsServedPath : Text → RelayFormat → Text → Type 0
IsServedPath target format model =
    (path : Text) × ((target ≡ path) ⊎ (target ≡ path ++ codes "?alt=sse"))
    × (match_inbound path ≡ some (format, (if is_gemini format then model else [])))

module _ (s : Session) (defaults : UsesDefaultPaths s.rt.up) where
  plain_path :
      (f : RelayFormat) → s.upstream ≡ f → is_gemini f ≡ false → upstream_path s ≡ default_path f
  unfolding upstream_path
  plain_path f e plain = rw e (rw plain (path_for_default s.rt.up f defaults))

  gemini_plain :
      s.upstream ≡ gemini
      → s.streaming ≡ false
      → upstream_path s
        ≡ gemini_path_prefix ++ (s.upstream_model ++ (b':' ∷ codes "generateContent"))
  unfolding upstream_path
  gemini_plain e off = rw e (
      rw off (
        ap (λ t. replace_all t model_placeholder s.upstream_model)
          (path_for_default s.rt.up gemini defaults)
        ∙ replace-generate s.upstream_model))

  gemini_stream :
      s.upstream ≡ gemini
      → s.streaming ≡ true
      → upstream_path s
        ≡ gemini_path_prefix ++ (s.upstream_model ++ (b':' ∷ codes "streamGenerateContent?alt=sse"))
  unfolding upstream_path
  gemini_stream e on = rw e (
      rw on (
        ap (λ t. replace_all t model_placeholder s.upstream_model)
          (gemini_stream_path_default s.rt.up defaults)
        ∙ replace-stream s.upstream_model))

  module _ (named : s.upstream_model ≢ []) (clear : All (λ c. c ≢ b':') s.upstream_model) where
    gemini-IsServedPath :
        s.upstream ≡ gemini → IsServedPath (upstream_path s) gemini s.upstream_model
    gemini-IsServedPath e = elim (Bool-cases s.streaming) [
      | inl on ↦ (
        gemini_path_prefix ++ (s.upstream_model ++ (b':' ∷ codes "streamGenerateContent")),
        inr (
            gemini_stream e on
            ∙ ap (λ t. gemini_path_prefix ++ t)
                (sym (
                  append_assoc s.upstream_model (b':' ∷ codes "streamGenerateContent")
                    (codes "?alt=sse")))),
        (match_inbound_iff _ gemini s.upstream_model).1
            (gemini_path _ refl named clear (stream_generate refl)),
      )
      | inr off ↦ (
        gemini_path_prefix ++ (s.upstream_model ++ (b':' ∷ codes "generateContent")),
        inl (gemini_plain e off),
        (match_inbound_iff _ gemini s.upstream_model).1
            (gemini_path _ refl named clear (generate refl)),
      )
    ]

    served :
        (f : RelayFormat)
        → s.upstream ≡ f
        → is_supported f ≡ true
        → IsServedPath (upstream_path s) f s.upstream_model
    unfolding match_inbound default_path
    served openai e h = (default_path openai, inl (plain_path openai e refl), refl)
    served openai_responses e h =
        (default_path openai_responses, inl (plain_path openai_responses e refl), refl)
    served claude e h = (default_path claude, inl (plain_path claude e refl), refl)
    served gemini e h = gemini-IsServedPath e
    served (other t) e h = cc

    -- With no path overridden, and a model name that is not empty and has no colon, the path that
    -- is called upstream, its query aside, is one that MatchInbound takes for the upstream's
    -- protocol and, for Gemini, the mapped model. So converters can be chained.
    pub upstream_path-IsServedPath :
        is_supported s.upstream ≡ true → IsServedPath (upstream_path s) s.upstream s.upstream_model
    upstream_path-IsServedPath = served s.upstream refl
