-- ===== src/Protocol/Surface/Model.antt =====
-- Setting a request's model.
use newapi_box.Prelude.{◌≡◌, refl, Bool, true, false, if◌then◌else◌}
use newapi_box.Text.{Text}
use newapi_box.Config.{RelayFormat}
use newapi_box.Protocol.Surface.{
  Request, chat, responses, messages, gemini_chat, unknown, set_model, client_model,
  is_stream_request,
}

module _ {ℓ} {P : Type ℓ} where
  -- The request names its model itself.
  abbrev carries_model : Request P → Bool
  carries_model (gemini_chat p) = false
  carries_model (unknown p) = false
  carries_model _ = true

  -- After SetModel the request names the new model if it carries one at all, and else what it named
  -- before; whether it asks for streaming does not change.
  set_model_lem :
      (r : Request P) (format : RelayFormat) (model path_model path : Text)
      → (client_model format (set_model r model) path_model
          ≡ (if carries_model r then model else client_model format r path_model))
        × (is_stream_request format (set_model r model) path ≡ is_stream_request format r path)
  unfolding client_model set_model is_stream_request
  set_model_lem (chat m s o p) format model path_model path = (refl, refl)
  set_model_lem (responses m s p) format model path_model path = (refl, refl)
  set_model_lem (messages m s p) format model path_model path = (refl, refl)
  set_model_lem (gemini_chat p) format model path_model path = (refl, refl)
  set_model_lem (unknown p) format model path_model path = (refl, refl)
