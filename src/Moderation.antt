-- ===== src/Moderation.antt =====
-- adapter/ctxapi/moderation.py: how a refusal is recognised in a payload, and how it is answered.
-- `shared` are the wordings of capabilities/_shared.json, and `decode` is UTF-8 with replacement.
use image_adapter.Base.{
  ℕ, suc, String, Bool, not, ◌&&◌, ◌||◌, some, List, [], ◌∷◌, ◌++◌, leb, ltb, length, if◌then◌else◌,
}
use image_adapter.Text.{blank, take, join}
use image_adapter.Errors.{AdapterError, request_error}
use image_adapter.Transport.{contains}
use image_adapter.Value.{Value, str, bytes, list, dict, Items, nil, cons, Fields, end, field, Bytes}

abbrev pub moderation_wordings : List String
moderation_wordings = "内容安全警告" ∷ "不适当的内容" ∷ []

abbrev pub max_depth : ℕ
max_depth = 3

abbrev pub max_strings : ℕ
max_strings = 40

abbrev pub max_total_chars : ℕ
max_total_chars = 4000

-- the walk stops here
abbrev pub stops : ℕ → List String → Bool
stops depth out = leb max_strings (length out) || ltb max_depth depth

abbrev pub add_string : String → List String → List String
add_string s out = if blank s then out else out ++ take 1000 s ∷ []

-- the strings that the walk collects, in order
unfoldable mutual
  unfolding take

  pub collect : (Bytes → String) → Value → ℕ → List String → List String
  collect decode (str s) depth out = if stops depth out then out else add_string s out
  collect decode (bytes b) depth out = if stops depth out then out else add_string (decode b) out
  collect decode (list vs) depth out =
      let walked = collect_items decode vs (suc depth) out in
      if stops depth out then out else walked
  collect decode (dict d) depth out =
      let walked = collect_fields decode d (suc depth) out in
      if stops depth out then out else walked
  collect decode v depth out = out

  pub collect_items : (Bytes → String) → Items → ℕ → List String → List String
  collect_items decode nil depth out = out
  collect_items decode (cons v vs) depth out =
      collect_items decode vs depth (collect decode v depth out)

  pub collect_fields : (Bytes → String) → Fields → ℕ → List String → List String
  collect_fields decode end depth out = out
  collect_fields decode (field k v d) depth out =
      collect_fields decode d depth (collect decode v depth out)

-- _blob
unfoldable pub blob : (Bytes → String) → Value → String
unfolding collect take join
blob decode payload = take max_total_chars (join " " (collect decode payload 0 []))

-- the first token that is not empty and stands in the text
unfoldable pub first_token : String → List String → String
unfolding contains
first_token text [] = ""
first_token text (token ∷ tokens) =
    if not (blank token) && contains token text then token else first_token text tokens

-- ModerationMixin.matched_moderation
unfoldable pub matched_moderation :
    (Bytes → String) → List String → List String → List String → Value → String
unfolding blob first_token
matched_moderation decode shared codes wordings payload =
    if blank (blob decode payload)
    then ""
    else first_token (blob decode payload) (codes ++ wordings ++ shared ++ moderation_wordings)

-- ModerationMixin.fail_moderation
abbrev pub content_refused : AdapterError
content_refused = request_error 400 (some "prompt") "content_filter"
