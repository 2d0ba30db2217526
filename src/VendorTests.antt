-- ===== src/VendorTests.antt =====
-- The theorems on pictures and on the vendors' scripts, at concrete inputs.
use Prim.Native.Char.{code}
use Prim.Native.String.{[], ◌∷◌}
use native.Mathlib.Nat.{add-zero}
use image_adapter.Base.{
  ℕ, zero, suc, ap, ◌∙◌, arith, eqb, ◌+◌, String, true, false, none, some, List, [], ◌∷◌, lookup,
  ◌≡◌, ◌≢◌, refl, ◌⊎◌, eq_iff, if◌then◌else◌,
}
use image_adapter.Text.{strip}
use image_adapter.Errors.{ok}
use image_adapter.Value.{
  Value, null, int, pos, str, list, dict, nil, cons, Fields, end, field, Bytes, get_or_null, truthy,
}
use image_adapter.Plan.{RequestPlan, empty_plan}
use image_adapter.Transport.{done, chunk}
use image_adapter.Engine.{Response, replied, proceed, lift}
use image_adapter.Sample.{settings, no_address}
use image_adapter.Pictures.Codec.{Assets, answered, decode_b64, bare_base64}
use image_adapter.Pictures.Shapes.{image_bytes, image_b64, rehost_image}
use image_adapter.Pictures.Shapes.Agreement.{image_bytes-image_b64}
use image_adapter.Pictures.Shapes.Links.{IsStored, rehost_image-IsStored}
use image_adapter.Vendors.Context.{ScriptContext, ScriptState, on_assets, unpark}
use image_adapter.Vendors.OpenAi.Asking.{requested_format, text_fields, refs_of, ask}
use image_adapter.Vendors.OpenAi.Reply.{answer}
use image_adapter.Vendors.OpenAi.Script.{transform}
use image_adapter.Vendors.OpenAi.Parking.{Call, after_calls, transform-parked}
use image_adapter.Vendors.OpenAi.Delivery.{Answered, transform-Answered}
use image_adapter.Vendors.OpenAi.Editing.{Uploads, ask-Uploads}
use image_adapter.Vendors.Hunyuan
use image_adapter.Vendors.Hunyuan.Presented.{IsPresented, respond-IsPresented}

-- a host that answers with three bytes of a JPEG, and a store that takes everything
abbrev reply : Response
reply = record {
  status = 200;
  content_type = "image/jpeg";
  headers = [];
  content_length = some 3;
  body = chunk (0xff ∷ 0xd8 ∷ 0xff ∷ []) done;
}

abbrev assets : Assets ℕ
assets = record {
  ip_address = no_address;
  digest = λ url. url;
  b64encode = λ raw. "QUJD";
  b64decode = λ text. some (0xff ∷ 0xd8 ∷ 0xff ∷ []);
  cached = λ key n. (answered none, n);
  keep = λ key raw n. suc n;
  fetch = λ url n. (replied reply, n);
  date = "20260926";
  new_id = λ n. ("id", suc n);
  storage = some (λ raw key mime n. (some "https://store.example.com/x", n));
}

abbrev link : Value
link = str "https://cdn.example.com/a.jpg"

rehost_image_test :
    (rehost_image assets settings link 0).0 ≡ ok (some "https://store.example.com/x")
unfolding rehost_image image_adapter.Url.urlparse image_adapter.Url.hostname
    image_adapter.Settings.host_set
rehost_image_test = refl

rehost_image-IsStored_example :
    IsStored assets settings
      (str (strip "https://cdn.example.com/a.jpg"))
      0
      "https://store.example.com/x"
rehost_image-IsStored_example =
    rehost_image-IsStored assets settings "https://cdn.example.com/a.jpg" 0
      "https://store.example.com/x" rehost_image_test

-- A coder: each byte in unary, and an end.
unary : ℕ → String → String
unary zero rest = "B" ∷ rest
unary (suc n) rest = "A" ∷ unary n rest

encode : Bytes → String
encode [] = ""
encode (b ∷ bs) = unary b (encode bs)

decode_from : ℕ → String → Bytes
decode_from n [] = []
decode_from n (c ∷ s) = if eqb (code c) b'A' then decode_from (suc n) s else n ∷ decode_from 0 s

decode_from-unary :
    (n k : ℕ) (rest : String) → decode_from n (unary k rest) ≡ (n + k) ∷ decode_from 0 rest
unfolding decode_from unary
decode_from-unary n zero rest = rw (add-zero n) refl
decode_from-unary n (suc k) rest =
    decode_from-unary (suc n) k rest ∙ ap (λ m. m ∷ decode_from 0 rest) (omega arith)

decode_from-encode : (raw : Bytes) → decode_from 0 (encode raw) ≡ raw
unfolding decode_from encode
decode_from-encode [] = refl
decode_from-encode (b ∷ bs) =
    decode_from-unary 0 b (encode bs)
    ∙ ap (λ (m : ℕ). m ∷ decode_from 0 (encode bs)) (omega arith)
    ∙ ap (λ m. b ∷ m) (decode_from-encode bs)

abbrev coder : Assets ℕ
coder = record assets { b64encode = encode; b64decode = λ text. some (decode_from 0 text) }

unary_bare : (n : ℕ) (rest : String) → bare_base64 (unary n rest) ≡ unary n rest
unfolding bare_base64 unary
unary_bare zero rest = refl
unary_bare (suc n) rest = refl

encode_bare : (raw : Bytes) → bare_base64 (encode raw) ≡ encode raw
unfolding bare_base64 encode
encode_bare [] = refl
encode_bare (b ∷ bs) = unary_bare b (encode bs)

coder_exact : (raw : Bytes) → decode_b64 coder (encode raw) ≡ ok raw
unfolding decode_b64
coder_exact raw = rw (encode_bare raw, decode_from-encode raw) refl

plain_text : bare_base64 (bare_base64 (strip " AAB ")) ≡ bare_base64 (strip " AAB ")
unfolding bare_base64 strip
plain_text = refl

image_bytes-image_b64_example :
    image_bytes coder settings (str " AAB ") 0
    ≡ proceed
        (image_b64 coder settings (str " AAB ") 0).0
        (λ text. lift (decode_b64 coder text))
        (image_b64 coder settings (str " AAB ") 0).1
image_bytes-image_b64_example =
    image_bytes-image_b64 coder settings coder_exact " AAB " 0 plain_text

abbrev context : String → ScriptContext
context id = record {
  request_id = id;
  options = end;
  upstream_url = "https://api.example.com/v1/images/generations";
  mapped_model = none;
  settings = settings;
  show = λ v. "0";
}

abbrev state : ScriptState ℕ
state = record { parked = []; plan = empty_plan; assets = 0 }

abbrev wants_link : Fields
wants_link = field "prompt" (str "a cat") (field "response_format" (str "url") end)

abbrev with_base64 : Fields
with_base64 =
    field "created" (int (pos 7))
      (field "data" (list (cons (dict (field "b64_json" (str "QUJD") end)) nil)) end)

abbrev from_another : List Call
from_another =
    record { context = context "b"; payload = dict wants_link; phase = "request" }
    ∷ record { context = context "b"; payload = null; phase = "response" }
    ∷ []

b_not_a : ◌≢◌ {A = String} "b" "a"
b_not_a same = let equal : false ≡ true = (eq_iff "b" "a").1 same in cc equal

parked_nothing : lookup "a" state.parked ≡ none
unfolding lookup
parked_nothing = refl

transform-parked_example :
    (transform assets (context "a") (dict with_base64) "response" (
        after_calls assets from_another
          (transform assets (context "a") (dict wants_link) "request" state).1)
      ≡ on_assets (answer assets (context "a") (requested_format wants_link) (dict with_base64)) (
          unpark assets (context "a") (
            after_calls assets from_another
              (transform assets (context "a") (dict wants_link) "request" state).1)))
    × (lookup "a"
          (transform assets (context "a") (dict with_base64) "response" (
            after_calls assets from_another
              (transform assets (context "a") (dict wants_link) "request" state).1)).1.parked
        ≡ none)
transform-parked_example =
    transform-parked assets (context "a") wants_link (dict with_base64) from_another state
      (b_not_a, (b_not_a, tt)) parked_nothing

abbrev parked_state : ScriptState ℕ
parked_state = record state { parked = ("a", "url") ∷ [] }

abbrev linked_reply : Value
linked_reply = dict (
    field "created" (int (pos 7)) (
      field "data" (list (cons (dict (field "url" (str "https://store.example.com/x") end)) nil))
        end))

parked_link : lookup "a" parked_state.parked ≡ some "url"
unfolding lookup
parked_link = refl

transform_test :
    (transform assets (context "a") (dict with_base64) "response" parked_state).0 ≡ ok linked_reply
unfolding transform
transform_test = refl

transform-Answered_example :
    Answered assets (context "a") "url" with_base64 parked_state.assets linked_reply
transform-Answered_example =
    transform-Answered assets (context "a") with_base64 "url" parked_state linked_reply parked_link
      transform_test

abbrev edit_body : Fields
edit_body =
    field "prompt" (str "a hat")
      (field "image" (list (cons link (cons (str "QUJD") nil))) (field "mask" (str "QUJD") end))

abbrev edit_texts : Value
edit_texts = dict (field "prompt" (str "a hat") end)

ask_test : (ask assets (context "a") edit_body state).0 ≡ ok edit_texts
unfolding ask image_adapter.Url.hostname image_adapter.Settings.host_set image_adapter.Plan.emit
ask_test = refl

ask-Uploads_example :
    ((truthy (get_or_null "image" edit_body) ≡ false)
      × (edit_texts ≡ dict edit_body)
      × ((ask assets (context "a") edit_body state).1.plan ≡ state.plan))
    ⊎ ((truthy (get_or_null "image" edit_body) ≡ true)
        × (edit_texts ≡ dict (text_fields (context "a").show edit_body))
        × Uploads assets
            (context "a")
            edit_body
            (refs_of (get_or_null "image" edit_body))
            (ask assets (context "a") edit_body state).1.plan)
ask-Uploads_example = ask-Uploads assets (context "a") edit_body state edit_texts ask_test

abbrev decode : Bytes → String
decode raw = ""

abbrev frame : Fields
frame =
    field "choices"
      (list (
        cons (dict (field "delta" (dict (field "image" (dict (field "url" link end)) end)) end))
          nil))
      end

abbrev framed : Value
framed = dict (
    field "created" (int (pos 0))
      (field "data" (list (cons (dict (field "url" link end)) nil)) end))

respond_test : (Hunyuan.respond assets (context "a") decode [] (dict frame) state).0 ≡ ok framed
unfolding Hunyuan.respond
respond_test = refl

respond-IsPresented_example :
    IsPresented assets (context "a") decode [] frame (lookup "a" state.parked) state.assets framed
respond-IsPresented_example =
    respond-IsPresented assets (context "a") decode [] frame framed state respond_test
