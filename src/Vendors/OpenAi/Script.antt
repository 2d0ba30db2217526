-- ===== src/Vendors/OpenAi/Script.antt =====
-- script_store/openai/images@v1.py: transform, and runs of phases of several requests.
use image_adapter.Base.{String, lookup, ◌==◌, if◌then◌else◌}
use image_adapter.Errors.{crash}
use image_adapter.Value.{Value, dict}
use image_adapter.Engine.{Exec}
use image_adapter.Pictures.Codec.{Assets}
use image_adapter.Vendors.Context.{ScriptContext, ScriptState, on_assets, unpark}
use image_adapter.Vendors.OpenAi.Asking.{ask}
use image_adapter.Vendors.OpenAi.Reply.{answer}

module _ {St : Type 0} (a : Assets St) where
  -- the request phase reads its payload as a dict
  unfoldable pub ask_value : ScriptContext → Value → Exec (ScriptState St) Value
  unfolding ask
  ask_value c (dict payload) s = ask a c payload s
  ask_value c payload s = (crash, s)

  -- _response
  unfoldable pub respond : ScriptContext → Value → Exec (ScriptState St) Value
  unfolding answer lookup
  respond c payload s = on_assets (answer a c (lookup c.request_id s.parked) payload) (unpark a c s)

  unfoldable pub transform : ScriptContext → Value → String → Exec (ScriptState St) Value
  unfolding ask_value respond
  transform c payload phase s =
      if phase == "request" then ask_value c payload s else respond c payload s
