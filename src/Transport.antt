-- ===== src/Transport.antt =====
-- adapter/transport.py: one outbound call, from a plan and a channel to a request, and from a reply
-- to a payload. `show` is Python's `str` of a value that is no text; `loads` is the JSON decoder,
-- with `none` for its ValueError.
pub mod Capped
pub mod Credentials
use Prim.Native.String.{[], ◌∷◌}
use image_adapter.Base.{
  ℕ, ◌+◌, String, Bool, true, false, not, ◌&&◌, ◌||◌, Option, none, some, List, [], ◌∷◌, ◌++◌, leb,
  ltb, ◌==◌, if◌then◌else◌, is_some, is_empty, or_else, elem, Assoc, lookup, insert, length,
}
use image_adapter.Text.{strip, lower, blank, append, starts_with, take}
use image_adapter.Errors.{Result, ok, err, crash, ◌>>=◌, ◌>>◌, refuse_if, upstream_error}
use image_adapter.Url.{urlparse, urlunparse, urlencode}
use image_adapter.ProxyPlan.{covers}
use image_adapter.Channel.{ChannelSpec, AuthEmit}
use image_adapter.Plan.{FilePart, RequestPlan, empty_plan}
use image_adapter.Float.{Float}
use image_adapter.Value.{
  Value, null, bool, str, bytes, dict, Bytes, Fields, end, field, get, get_or_null, set_default,
  put, is_null, no_fields, is_dict,
}

pub record UpstreamReply : Type 0 where
  pub status : ℕ
  pub json : Option Value
  pub raw : Option Bytes
  pub headers : Assoc String

-- UpstreamReply.payload
abbrev pub payload : UpstreamReply → Value
payload reply = elim reply.json [
  | some v ↦ v
  | none ↦ elim reply.raw [ some b ↦ bytes b | none ↦ null ]
]

-- `x or d` of an optional text
abbrev pub text_or : Option String → String → String
text_or none d = d
text_or (some s) d = if blank s then d else s

-- the query that `merge_url` gives a URL that has one already
abbrev pub joined : String → String → String
joined old new = if blank old then new else append old (append "&" new)

unfoldable pub add_query : String → Assoc String → Result String
add_query url query = if is_empty query then ok url else elim (urlparse url) [
  | none ↦ crash
  | some parts ↦ ok (urlunparse (record parts { query = joined parts.query (urlencode query) }))
]

unfoldable pub merge_url : String → RequestPlan → Result String
unfolding add_query
merge_url base plan = add_query (text_or plan.url base) plan.query

-- What `apply_auth` leaves of the headers, the body and the query.
pub record Authorised : Type 0 where
  pub headers : Assoc String
  pub body : Value
  pub query : Assoc String

-- d.setdefault(k, v)
unfoldable pub default_entry : String → String → Assoc String → Assoc String
default_entry k v d = if is_some (lookup k d) then d else insert k v d

abbrev pub default_field : String → String → Value → Value
default_field k v (dict d) = dict (set_default k (str v) d)
default_field k v body = body

-- the credential as it is sent
unfoldable pub credential : ChannelSpec → String
credential channel =
    if blank channel.auth.prefix
    then channel.upstream_key
    else strip (append channel.auth.prefix (append " " channel.upstream_key))

unfoldable pub apply_auth : ChannelSpec → Assoc String → Value → Assoc String → Authorised
unfolding credential default_entry
apply_auth channel headers body query =
    let auth = channel.auth in
    let value = credential channel in
    if auth.target == "none" || blank channel.upstream_key
    then record { headers = headers; body = body; query = query }
    else if auth.target == "header"
    then record { headers = default_entry auth.name value headers; body = body; query = query }
    else if auth.target == "query"
    then record { headers = headers; body = body; query = default_entry auth.name value query }
    else if auth.target == "body"
    then record { headers = headers; body = default_field auth.name value body; query = query }
    else record { headers = headers; body = body; query = query }

-- The body of a reply as it arrives: chunks, then its end, a stall past the timeout, or a break.
pub data Stream : Type 0 where
  done : Stream
  chunk : Bytes → Stream → Stream
  stalled : Stream
  broken : Stream

pub data Reading : Type 0 where
  read : Bytes → Reading
  too_large : Reading
  timed_out : Reading
  lost : Reading

unfoldable pub read_chunks : ℕ → ℕ → Bytes → Stream → Reading
read_chunks limit total got done = read got
read_chunks limit total got (chunk b rest) =
    let more = read_chunks limit (total + length b) (got ++ b) rest in
    if ltb limit (total + length b) then too_large else more
read_chunks limit total got stalled = timed_out
read_chunks limit total got broken = lost

unfoldable pub read_capped : Option ℕ → Stream → ℕ → Reading
unfolding read_chunks
read_capped none stream limit = read_chunks limit 0 [] stream
read_capped (some declared) stream limit =
    if ltb limit declared then too_large else read_chunks limit 0 [] stream

-- needle in text
unfoldable pub contains : String → String → Bool
contains needle [] = needle == ""
contains needle (c ∷ s) = starts_with (c ∷ s) needle || contains needle s

-- raw[:1] in (b"{", b"[")
abbrev pub opens_json : Bytes → Bool
opens_json [] = false
opens_json (b ∷ bs) = elim (leb b b'{' && leb b'{' b) [
  | true ↦ true
  | false ↦ leb b b'[' && leb b'[' b
]

-- a JSON `null` is None, as a body that is not JSON
abbrev pub not_null : Option Value → Option Value
not_null (some null) = none
not_null v = v

unfoldable pub parse_body : (Bytes → Option Value) → Bytes → String → Option Value
unfolding contains
parse_body loads raw content_type =
    if contains "json" content_type || opens_json raw then not_null (loads raw) else none

-- str(v)
abbrev pub text_of : (Value → String) → Value → String
text_of show (str s) = s
text_of show v = show v

-- the vendor's own words in an error reply
unfoldable pub vendor_detail : (Value → String) → Option Value → String
vendor_detail show (some (dict d)) = elim (get_or_null "error" d) [
  | dict e ↦ take 200 (elim (get "message" e) [ none ↦ "" | some m ↦ text_of show m ])
  | str s ↦ take 200 s
  | _ ↦ elim (get "message" d) [ none ↦ "" | some m ↦ take 200 (text_of show m) ]
]
vendor_detail show parsed = ""

unfoldable pub raise_for_status : (Value → String) → ℕ → Option Value → Result (Unit {0})
unfolding vendor_detail
raise_for_status show status parsed =
    if ltb status 400
    then ok tt
    else err (
        upstream_error "upstream_http_error" (if leb 500 status then 502 else 400) (some status)
          (vendor_detail show parsed))

pub data Part : Type 0 where
  text_part : String → String → Part
  file_part : String → FilePart → Part

-- What goes out as the body of a request.
pub data Content : Type 0 where
  no_content : Content
  raw_content : Bytes → Content
  multipart : List Part → Content
  form_content : Fields → Content
  json_content : Value → Content

-- _as_text
abbrev pub as_text : (Value → String) → Value → String
as_text show (bool true) = "true"
as_text show (bool false) = "false"
as_text show v = text_of show v

unfoldable pub text_parts : (Value → String) → Fields → List Part
text_parts show end = []
text_parts show (field k null d) = text_parts show d
text_parts show (field k v d) = text_part k (as_text show v) ∷ text_parts show d

abbrev pub file_parts_of : String → List FilePart → List Part
file_parts_of name [] = []
file_parts_of name (p ∷ ps) = file_part name p ∷ file_parts_of name ps

unfoldable pub file_parts : Assoc (List FilePart) → List Part
file_parts [] = []
file_parts ((name, parts) ∷ rest) = file_parts_of name parts ++ file_parts rest

-- d.update(more)
unfoldable pub update_fields : Fields → Fields → Fields
update_fields d end = d
update_fields d (field k v more) = update_fields (put k v d) more

unfoldable pub build_multipart :
    (Value → String) → Option Fields → Assoc (List FilePart) → Value → List Part
unfolding text_parts file_parts update_fields
build_multipart show form files body =
    let given = or_else form end in
    let fields : Fields = elim body [ dict d ↦ update_fields given d | _ ↦ given ] in
    text_parts show fields ++ file_parts files

-- {k: v for k, v in headers.items() if v}
unfoldable pub without_empty : Assoc String → Assoc String
without_empty [] = []
without_empty ((k, v) ∷ d) = let rest = without_empty d in if blank v then rest else (k, v) ∷ rest

-- _drop_content_type
unfoldable pub drop_content_type : Assoc String → Assoc String
drop_content_type [] = []
drop_content_type ((k, v) ∷ d) =
    let rest = drop_content_type d in if lower k == "content-type" then rest else (k, v) ∷ rest

-- {k: str(v) for k, v in payload.items()}
unfoldable pub texts : (Value → String) → Fields → Assoc String
texts show end = []
texts show (field k v d) = (k, text_of show v) ∷ texts show d

-- The request that goes out, and the body as `apply_auth` left it.
pub record Request : Type 0 where
  pub url : String
  pub method : String
  pub headers : Assoc String
  pub proxy : Option String
  pub content : Content
  pub payload : Value

-- the body and the headers of `build_request`, by the precedence raw, multipart, form, JSON
unfoldable pub with_content : (Value → String) → RequestPlan → Request → Result Request
unfolding build_multipart drop_content_type default_entry texts add_query
with_content show plan r = elim plan.raw [
  | some b ↦ ok (record r { content = raw_content b })
  | none ↦ elim plan.files [
    | some files ↦ ok (record r {
      headers = drop_content_type r.headers;
      content = multipart (build_multipart show plan.form files r.payload);
    })
    | none ↦ elim plan.form [
      | some form ↦ ok (record r { content = form_content form })
      | none ↦
          if r.method == "GET" || r.method == "DELETE"
          then elim r.payload [
            | dict d ↦ (do
              url ← add_query r.url (if no_fields d then [] else texts show d)
              ok (record r { url = url }))
            | _ ↦ ok r
          ]
          else if is_null r.payload
          then ok r
          else ok (record r {
            headers = default_entry "Content-Type" "application/json" r.headers;
            content = json_content r.payload;
          })
    ]
  ]
]

abbrev pub proxy_of : Option Bool → String → Result (Option String)
proxy_of none url = crash
proxy_of (some true) url = ok (some url)
proxy_of (some false) url = ok none

-- the credential put on what the plan and the script's return value give
unfoldable pub authorised : ChannelSpec → RequestPlan → Value → Authorised
unfolding apply_auth
authorised channel plan body =
    apply_auth channel plan.headers (if plan.body_set then plan.body else body) []

-- the request before its content
abbrev pub draft : ChannelSpec → RequestPlan → Value → String → Option String → Request
draft channel plan body url proxy = record {
  url = url;
  method = text_or plan.method channel.method;
  headers = without_empty (authorised channel plan body).headers;
  proxy = proxy;
  content = no_content;
  payload = (authorised channel plan body).body;
}

unfoldable pub build_request :
    (Value → String) → ChannelSpec → RequestPlan → Value → Option String → Result Request
unfolding merge_url authorised without_empty with_content
build_request show channel plan body default_url = do
  base ← merge_url (text_or default_url channel.upstream_url) plan
  url ← add_query base (authorised channel plan body).query
  proxy ← proxy_of (covers channel.proxy url) channel.proxy.url
  with_content show plan (draft channel plan body url proxy)
