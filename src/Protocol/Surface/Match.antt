-- ===== src/Protocol/Surface/Match.antt =====
-- The paths of each protocol, and that MatchInbound knows them and no others.
use newapi_box.Prelude.{
  ◌≡◌, ◌≢◌, ◌⊎◌, inl, inr, ◌↔◌, refl, sym, ap, ◌∙◌, true, List, [], ◌∷◌, ◌++◌, Option, none, some,
  arith, All, Bool-cases, Option-cases, subst, append_assoc,
}
use newapi_box.Text.{Text, codes, equal, cut_prefix, cut}
use newapi_box.Text.Equal.{equal_iff, cut_prefix_sound, cut_sound, cut_complete}
use newapi_box.Config.{RelayFormat, openai, openai_responses, claude, gemini}
use newapi_box.Protocol.Surface.{
  InboundRoute, chat_route, responses_route, messages_route, gemini_path_prefix, check_method,
  gemini_model_from_path, on_route, as_gemini, match_routes, match_inbound,
}

-- The path is the prefix, or goes on behind it with a slash.
pub data IsUnder (prefix : Text) : Text → Type 0 where
  same : {path : Text} → path ≡ prefix → IsUnder prefix path
  below : {path : Text} (rest : Text) → path ≡ prefix ++ (b'/' ∷ rest) → IsUnder prefix path

-- The methods that a Gemini path may name.
pub data IsMethod : Text → Type 0 where
  generate : {m : Text} → m ≡ codes "generateContent" → IsMethod m
  stream_generate : {m : Text} → m ≡ codes "streamGenerateContent" → IsMethod m

-- What a path says: a protocol, and for Gemini a model, which is not empty and has no colon.
pub data Speaks : Text → RelayFormat → Text → Type 0 where
  chat_path :
      {path model : Text}
      → IsUnder (codes "/v1/chat/completions") path
      → model ≡ []
      → Speaks path openai model
  responses_path :
      {path model : Text}
      → IsUnder (codes "/v1/responses") path
      → model ≡ []
      → Speaks path openai_responses model
  messages_path :
      {path model : Text}
      → IsUnder (codes "/v1/messages") path
      → model ≡ []
      → Speaks path claude model
  gemini_path :
      {path model : Text} (method : Text)
      → path ≡ gemini_path_prefix ++ (model ++ (b':' ∷ method))
      → model ≢ []
      → All (λ c. c ≢ b':') model
      → IsMethod method
      → Speaks path gemini model

on_route-IsUnder : (r : InboundRoute) (path : Text) → on_route r path ≡ true → IsUnder r.prefix path
unfolding on_route
on_route-IsUnder r path h = elim (Option-cases (cut_prefix path (r.prefix ++ codes "/"))) [
  | inl outside ↦ same ((equal_iff path r.prefix).0 (ground arith))
  | inr (rest, found) ↦
      below rest (cut_prefix_sound path _ rest found ∙ append_assoc r.prefix (codes "/") rest)
]

check_method_sound :
    (model method m : Text)
    → check_method (some (model, method)) ≡ some m
    → (model ≡ m) × (m ≢ []) × IsMethod method
unfolding check_method
check_method_sound [] method m h = cc
check_method_sound (c ∷ model) method m h =
    elim (Bool-cases (equal method (codes "generateContent"))) [
      | inl first ↦ (ground arith, ground arith, generate ((equal_iff method _).0 first))
      | inr not_first ↦
          (ground arith, ground arith, stream_generate ((equal_iff method _).0 (ground arith)))
    ]

gemini_model_sound : (path m : Text) → gemini_model_from_path path ≡ some m → Speaks path gemini m
gemini_model_sound path m h = elim (Option-cases (cut_prefix path gemini_path_prefix)) [
  | inl outside ↦ absurd (unfold gemini_model_from_path in ground arith)
  | inr (rest, found) ↦ elim (Option-cases (cut rest b':')) [
    | inl nowhere ↦ absurd (unfold gemini_model_from_path in ground arith)
    | inr ((model, method), split) ↦
        let (e, ne, is_method) =
          check_method_sound model method m (unfold gemini_model_from_path in ground arith) in
        let (joined, clear) = cut_sound rest b':' model method split in
        gemini_path method
          (cut_prefix_sound path gemini_path_prefix rest found
            ∙ ap (λ t. gemini_path_prefix ++ t) (joined ∙ ap (λ t. t ++ (b':' ∷ method)) e))
          ne (subst (λ t. All (λ c. c ≢ b':') t) e clear) is_method
  ]
]

match_routes-cons :
    (r : InboundRoute) (rs : List InboundRoute) (path : Text) (f : RelayFormat) (m : Text)
    → match_routes (r ∷ rs) path ≡ some (f, m)
    → (IsUnder r.prefix path × (r.format ≡ f) × (m ≡ [])) ⊎ (match_routes rs path ≡ some (f, m))
match_routes-cons r rs path f m h = elim (Bool-cases (on_route r path)) [
  | inl on ↦ inl (
    on_route-IsUnder r path on,
    unfold match_routes in ground arith,
    unfold match_routes in ground arith,
  )
  | inr off ↦ inr (unfold match_routes in ground arith)
]

as_gemini_sound :
    (o : Option Text) (f : RelayFormat) (m : Text)
    → as_gemini o ≡ some (f, m)
    → (gemini ≡ f) × (o ≡ some m)
unfolding as_gemini
as_gemini_sound none f m h = cc
as_gemini_sound (some n) f m h = (ground arith, ground arith)

match_routes-nil :
    (path : Text) (f : RelayFormat) (m : Text)
    → match_routes [] path ≡ some (f, m)
    → Speaks path f m
unfolding match_routes
match_routes-nil path f m h =
    let (e, o) = as_gemini_sound (gemini_model_from_path path) f m h in
    subst (λ g. Speaks path g m) e (gemini_model_sound path m o)

-- MatchInbound answers only with what the path says.
match_inbound_sound :
    (path : Text) (f : RelayFormat) (m : Text) → match_inbound path ≡ some (f, m) → Speaks path f m
unfolding match_inbound
match_inbound_sound path f m h =
    elim (match_routes-cons chat_route (responses_route ∷ messages_route ∷ []) path f m h) [
      | inl (under, e, blank) ↦ subst (λ g. Speaks path g m) e (chat_path under blank)
      | inr h2 ↦ elim (match_routes-cons responses_route (messages_route ∷ []) path f m h2) [
        | inl (under, e, blank) ↦ subst (λ g. Speaks path g m) e (responses_path under blank)
        | inr h3 ↦ elim (match_routes-cons messages_route [] path f m h3) [
          | inl (under, e, blank) ↦ subst (λ g. Speaks path g m) e (messages_path under blank)
          | inr h4 ↦ match_routes-nil path f m h4
        ]
      ]
    ]

match-IsUnder :
    (prefix : Text) (f : RelayFormat) {path : Text}
    → match_inbound prefix ≡ some (f, [])
    → ((rest : Text) → match_inbound (prefix ++ (b'/' ∷ rest)) ≡ some (f, []))
    → IsUnder prefix path
    → match_inbound path ≡ some (f, [])
match-IsUnder prefix f at under (same e) = ap match_inbound e ∙ at
match-IsUnder prefix f at under (below rest e) = ap match_inbound e ∙ under rest

check_method_complete :
    (model method : Text)
    → model ≢ []
    → IsMethod method
    → check_method (some (model, method)) ≡ some model
unfolding check_method equal
check_method_complete [] method ne m = absurd (ne refl)
check_method_complete (c ∷ model) method ne (generate e) = rw e refl
check_method_complete (c ∷ model) method ne (stream_generate e) = rw e refl

gemini-found :
    (model method : Text)
    → model ≢ []
    → All (λ c. c ≢ b':') model
    → IsMethod method
    → match_inbound (gemini_path_prefix ++ (model ++ (b':' ∷ method))) ≡ some (gemini, model)
unfolding match_inbound
gemini-found model method ne clear is_method =
    ap (λ o. as_gemini (check_method o)) (cut_complete b':' model method clear)
    ∙ ap as_gemini (check_method_complete model method ne is_method)

-- MatchInbound finds what the path says.
match_inbound_complete :
    {path : Text} {f : RelayFormat} {m : Text} → Speaks path f m → match_inbound path ≡ some (f, m)
match_inbound_complete (chat_path under e) =
    match-IsUnder (codes "/v1/chat/completions") openai (unfold match_inbound in refl)
      (unfold match_inbound in λ rest. refl) under
    ∙ ap (λ n. some (openai, n)) (sym e)
match_inbound_complete (responses_path under e) =
    match-IsUnder (codes "/v1/responses") openai_responses (unfold match_inbound in refl)
      (unfold match_inbound in λ rest. refl) under
    ∙ ap (λ n. some (openai_responses, n)) (sym e)
match_inbound_complete (messages_path under e) =
    match-IsUnder (codes "/v1/messages") claude (unfold match_inbound in refl)
      (unfold match_inbound in λ rest. refl) under
    ∙ ap (λ n. some (claude, n)) (sym e)
match_inbound_complete (gemini_path {model = model} method e ne clear is_method) =
    ap match_inbound e ∙ gemini-found model method ne clear is_method

-- MatchInbound answers with a protocol and a model exactly when the path says so: the three OpenAI
-- and Claude paths and what lies below them, and the two Gemini methods of a model whose name is
-- not empty and has no colon.
pub match_inbound_iff :
    (path : Text) (f : RelayFormat) (m : Text)
    → (match_inbound path ≡ some (f, m)) ↔ Speaks path f m
match_inbound_iff path f m = (match_inbound_sound path f m, λ s. match_inbound_complete s)
