-- ===== src/Transport/Credentials.antt =====
-- Where the upstream credential ends up.
use image_adapter.Base.{
  String, ◌≡◌, refl, true, false, Option, none, some, [], ◌∷◌, arith, eq_iff, ◌==◌, if◌then◌else◌,
  or_else, is_some, elem, distinct, Assoc, lookup, insert, keys, lookup-insert,
  keys-insert-distinct, eq_refl, Bool-cases, Option-cases, inl, inr, ap, sym, ◌∙◌,
}
use image_adapter.Text.{lower, blank}
use image_adapter.Errors.{ok, >>=-inversion}
use image_adapter.Channel.{ChannelSpec}
use image_adapter.Plan.{RequestPlan}
use image_adapter.ProxyPlan.{covers}
use image_adapter.Value.{Value, Bytes}
use image_adapter.Transport.{
  Request, default_entry, credential, without_empty, drop_content_type, add_query, merge_url,
  with_content, proxy_of, build_request, text_or, authorised, draft,
}

-- a header with an empty value is not sent
abbrev pub sent : Option String → Option String
sent none = none
sent (some v) = if blank v then none else some v

lookup-filled_absent :
    (k : String) (d : Assoc String) → elem k (keys d) ≡ false → lookup k (without_empty d) ≡ none
unfolding lookup without_empty keys
lookup-filled_absent k [] h = refl
lookup-filled_absent k ((j, v) ∷ d) h = ground (arith, lookup-filled_absent k d)

lookup-without_empty :
    (k : String) (d : Assoc String)
    → distinct (keys d) ≡ true
    → lookup k (without_empty d) ≡ sent (lookup k d)
unfolding lookup without_empty keys
lookup-without_empty k [] h = refl
lookup-without_empty k ((j, v) ∷ d) h =
    ground (arith, lookup-without_empty k d, lookup-filled_absent k d, eq_iff j k)

lookup-default_entry :
    (k v : String) (d : Assoc String)
    → lookup k (default_entry k v d) ≡ some (or_else (lookup k d) v)
unfolding default_entry
lookup-default_entry k v d = elim (Option-cases (lookup k d)) [
  | inl missing ↦ rw missing (rw (lookup-insert, eq_refl))
  | inr (w, there) ↦ rw (there, there)
]

lookup-default_entry_ne :
    (k j v : String) (d : Assoc String)
    → (j == k) ≡ false
    → lookup k (default_entry j v d) ≡ lookup k d
unfolding default_entry
lookup-default_entry_ne k j v d h = elim (Bool-cases (is_some (lookup j d))) [
  | inl there ↦ rw there
  | inr missing ↦ rw (missing, lookup-insert, h)
]

distinct-default_entry :
    (k v : String) (d : Assoc String)
    → distinct (keys d) ≡ true
    → distinct (keys (default_entry k v d)) ≡ true
unfolding default_entry
distinct-default_entry k v d h = ground (arith, keys-insert-distinct k v d)

lookup-drop_content_type :
    (k : String) (d : Assoc String)
    → (lower k == "content-type") ≡ false
    → lookup k (drop_content_type d) ≡ lookup k d
unfolding lookup drop_content_type
lookup-drop_content_type k [] h = refl
lookup-drop_content_type k ((j, v) ∷ d) h = elim (Bool-cases (j == k)) [
  | inl same ↦ let e : j ≡ k = (eq_iff j k).0 same in rw e (rw (h, eq_refl))
  | inr other ↦ ground (arith, lookup-drop_content_type k d h)
]

-- The content never changes another header than Content-Type.
with_content-headers :
    (show : Value → String) (plan : RequestPlan) (r out : Request) (k : String)
    → with_content show plan r ≡ ok out
    → (lower k == "content-type") ≡ false
    → ("Content-Type" == k) ≡ false
    → lookup k out.headers ≡ lookup k r.headers
unfolding with_content
with_content-headers show plan r out k h a b = ground (
  arith,
  lookup-drop_content_type k r.headers a,
  lookup-default_entry_ne k "Content-Type" "application/json" r.headers b,
)

authorised-header :
    (channel : ChannelSpec) (plan : RequestPlan) (body : Value)
    → channel.auth.target ≡ "header"
    → blank channel.upstream_key ≡ false
    → (authorised channel plan body).headers
      ≡ default_entry channel.auth.name (credential channel) plan.headers
unfolding authorised
authorised-header channel plan body target key = rw (target, key)

authorised-query :
    (channel : ChannelSpec) (plan : RequestPlan) (body : Value)
    → channel.auth.target ≡ "query"
    → blank channel.upstream_key ≡ false
    → (authorised channel plan body).query ≡ (channel.auth.name, credential channel) ∷ []
unfolding authorised default_entry lookup insert
authorised-query channel plan body target key = rw (target, key)

with_content-url_raw :
    (show : Value → String) (plan : RequestPlan) (r out : Request) (b : Bytes)
    → with_content show plan r ≡ ok out
    → plan.raw ≡ some b
    → out.url ≡ r.url
unfolding with_content
with_content-url_raw show plan r out b h raw = ground arith

-- For a channel with a credential that goes to a header, and a plan whose header names differ: the
-- request carries under that name what the script emitted, if that is not empty; no such header, if
-- the script emitted an empty value; and the credential, if the script emitted none. (The name is
-- not Content-Type.)
pub build_request-header_credential :
    (show : Value → String) (channel : ChannelSpec) (plan : RequestPlan) (body : Value)
    (default_url : Option String) (r : Request)
    → build_request show channel plan body default_url ≡ ok r
    → channel.auth.target ≡ "header"
    → blank channel.upstream_key ≡ false
    → distinct (keys plan.headers) ≡ true
    → (lower channel.auth.name == "content-type") ≡ false
    → ("Content-Type" == channel.auth.name) ≡ false
    → lookup channel.auth.name r.headers
      ≡ sent (some (or_else (lookup channel.auth.name plan.headers) (credential channel)))
unfolding build_request
build_request-header_credential show channel plan body default_url r h target key d a b =
    >>=-inversion (merge_url (text_or default_url channel.upstream_url) plan) _ h λ base u h1.
      >>=-inversion (add_query base (authorised channel plan body).query) _ h1 λ url q h2.
        >>=-inversion (proxy_of (covers channel.proxy url) channel.proxy.url) _ h2 λ proxy p h3.
          with_content-headers show plan (draft channel plan body url proxy) r channel.auth.name h3
            a b
          ∙ rw (authorised-header channel plan body target key) (
              lookup-without_empty channel.auth.name
                (default_entry channel.auth.name (credential channel) plan.headers)
                (distinct-default_entry channel.auth.name (credential channel) plan.headers d)
              ∙ ap sent (lookup-default_entry channel.auth.name (credential channel) plan.headers))

-- For a channel with a credential that goes to the query, and a plan with a raw body, the credential
-- is appended to whatever query the script emitted, a parameter of the same name included: nothing
-- that a script emits suppresses it.
pub build_request-query_credential :
    (show : Value → String) (channel : ChannelSpec) (plan : RequestPlan) (body : Value)
    (default_url : Option String) (r : Request) (b : Bytes)
    → build_request show channel plan body default_url ≡ ok r
    → channel.auth.target ≡ "query"
    → blank channel.upstream_key ≡ false
    → plan.raw ≡ some b
    → (base : String) × (merge_url (text_or default_url channel.upstream_url) plan ≡ ok base)
      × (add_query base ((channel.auth.name, credential channel) ∷ []) ≡ ok r.url)
unfolding build_request
build_request-query_credential show channel plan body default_url r b h target key raw =
    >>=-inversion (merge_url (text_or default_url channel.upstream_url) plan) _ h λ base u h1.
      >>=-inversion (add_query base (authorised channel plan body).query) _ h1 λ url q h2.
        >>=-inversion (proxy_of (covers channel.proxy url) channel.proxy.url) _ h2 λ proxy p h3. (
          base,
          u,
          rw (with_content-url_raw show plan (draft channel plan body url proxy) r b h3 raw)
              (ap (add_query base) (sym (authorised-query channel plan body target key)) ∙ q),
        )
