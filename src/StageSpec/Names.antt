-- ===== src/StageSpec/Names.antt =====
-- What a parsed stage specification is.
use image_adapter.Base.{
  String, Bool, true, false, not, ◌&&◌, ◌≡◌, refl, ◌⊎◌, inl, inr, Option, none, some, List, [], ◌∷◌,
  arith, all, elem, distinct, is_empty, All, Assoc, keys, lookup, insert, Bool-cases, insert_fresh,
  All-append, keys-insert-distinct,
}
use image_adapter.Text.{strip, blank, split, partition}
use image_adapter.Errors.{ok, >>=-eq-ok, refuse_if, channel_config_error, ◌>>◌, ◌>>=◌}
use image_adapter.Float.{Float, le_zero}
use image_adapter.Settings.{Settings}
use image_adapter.UrlGuard.{IpAddress, check_url}
use image_adapter.UrlGuard.Guards.{IsOutbound, check_url-IsOutbound}
use image_adapter.StageSpec.{
  StageSpec, is_stage_name, parse_names, parse_total, parse_budget, add_url, add_urls, parse_urls,
  parse,
}

module _ (ip_address : String → Option IpAddress) (settings : Settings) where
  abbrev pub IsStageUrl : String × String → Type 0
  IsStageUrl (name, url) = (is_stage_name name ≡ true) × IsOutbound ip_address settings url

  -- A specification that the cascade can use.
  pub record IsStageSpec (spec : StageSpec) : Type 0 where
    pub names : all is_stage_name spec.names ≡ true
    pub different : distinct spec.names ≡ true
    pub urls : All IsStageUrl spec.urls
    pub url_keys : distinct (keys spec.urls) ≡ true
    pub known :
        (is_empty spec.names ≡ true) ⊎ (all (λ k. elem k spec.names) (keys spec.urls) ≡ true)
    pub budget : (x : Float) → spec.budget ≡ some x → le_zero x ≡ false

  known_of :
      (names : List String) (urls : Assoc String) (budget : Option Float) (spec : StageSpec)
      → (refuse_if
            (not (is_empty names)
              && not (is_empty urls)
              && not (all (λ k. elem k names) (keys urls)))
            (channel_config_error "X-Stage-Urls")
          >> ok (record { names = names; urls = urls; budget = budget }))
        ≡ ok spec
      → (is_empty names ≡ true) ⊎ (all (λ k. elem k names) (keys urls) ≡ true)
  unfolding keys
  known_of names [] budget spec h = inr refl
  known_of names (u ∷ urls) budget spec h = ground arith

  parse_names-eq-ok :
      (raw : Option String) (names : List String)
      → parse_names raw ≡ ok names
      → (all is_stage_name names ≡ true) × (distinct names ≡ true)
  unfolding parse_names
  parse_names-eq-ok none names h = ground arith
  parse_names-eq-ok (some raw) names h = ground arith

  parse_total-eq-ok :
      (float_of : String → Option Float) (tokens : List String) (x : Float)
      → parse_total float_of tokens ≡ ok (some x)
      → le_zero x ≡ false
  unfolding parse_total
  parse_total-eq-ok float_of [] x h = absurd (ground arith)
  parse_total-eq-ok float_of (token ∷ rest) x h = ground (arith, parse_total-eq-ok float_of rest x)

  parse_budget-eq-ok :
      (float_of : String → Option Float) (raw : Option String) (x : Float)
      → parse_budget float_of raw ≡ ok (some x)
      → le_zero x ≡ false
  unfolding parse_budget
  parse_budget-eq-ok float_of none x h = absurd (ground arith)
  parse_budget-eq-ok float_of (some raw) x h =
      ground (arith, parse_total-eq-ok float_of (split b',' raw) x)

  add_url-IsStageUrl :
      (name value : String) (sep : Bool) (urls next : Assoc String)
      → All IsStageUrl urls
      → distinct (keys urls) ≡ true
      → add_url ip_address settings name sep value urls ≡ ok next
      → All IsStageUrl next × (distinct (keys next) ≡ true)
  unfolding add_url
  add_url-IsStageUrl name value sep urls next a d h =
      let checked = check_url ip_address (strip value) settings "X-Stage-Urls" in
      let store = λ (url : String). ok (insert name url urls) in
      let fresh : lookup name urls ≡ none = ground arith in
      let shaped : is_stage_name name ≡ true = ground arith in
      let bound : (checked >>= store) ≡ ok next = ground arith in
      let (url, returned, stored) = >>=-eq-ok checked store bound in
      let (stripped, outbound) =
        check_url-IsOutbound ip_address settings (strip value) "X-Stage-Urls" url returned in
      let same : insert name url urls ≡ next = ground arith in
      rw (← same) (
        rw (insert_fresh name url urls fresh)
            (All-append IsStageUrl urls ((name, url) ∷ []) a ((shaped, rw stripped outbound), tt)),
        keys-insert-distinct name url urls d,
      )

  add_urls-IsStageUrl :
      (tokens : List String) (urls out : Assoc String)
      → All IsStageUrl urls
      → distinct (keys urls) ≡ true
      → add_urls ip_address settings tokens urls ≡ ok out
      → All IsStageUrl out × (distinct (keys out) ≡ true)
  unfolding add_urls
  add_urls-IsStageUrl [] urls out a d h = let same : urls ≡ out = ground arith in rw (← same) (a, d)
  add_urls-IsStageUrl (token ∷ rest) urls out a d h = elim (Bool-cases (blank (strip token))) [
    | inl empty ↦ add_urls-IsStageUrl rest urls out a d (rw empty at h)
    | inr given ↦
        let pair = partition b'=' (strip token) in
        let (more, added, later) =
          >>=-eq-ok (add_url ip_address settings (strip pair.head) pair.found pair.tail urls) _
            (rw given at h) in
        let (a', d') =
          add_url-IsStageUrl (strip pair.head) pair.tail pair.found urls more a d added in
        add_urls-IsStageUrl rest more out a' d' later
  ]

  parse_urls-IsStageUrl :
      (raw : Option String) (out : Assoc String)
      → parse_urls ip_address settings raw ≡ ok out
      → All IsStageUrl out × (distinct (keys out) ≡ true)
  unfolding parse_urls
  parse_urls-IsStageUrl none out h =
      let same : [] ≡ out = ground arith in rw (← same) (tt, unfold keys in refl)
  parse_urls-IsStageUrl (some raw) out h = elim (Bool-cases (blank (strip raw))) [
    | inl empty ↦ let same : [] ≡ out = ground arith in rw (← same) (tt, unfold keys in refl)
    | inr given ↦
        add_urls-IsStageUrl (split b',' raw) [] out tt (unfold keys in refl) (rw given at h)
  ]

  -- A parsed stage specification has stage names of the allowed alphabet that differ, one checked
  -- outbound URL for each stage that has one, only stages that are named (if any are), and no
  -- budget that is zero or negative.
  pub parse-IsStageSpec :
      (float_of : String → Option Float) (headers : String → Option String) (spec : StageSpec)
      → parse ip_address settings float_of headers ≡ ok spec
      → IsStageSpec spec
  unfolding parse
  parse-IsStageSpec float_of headers spec h =
      let (names, n, h1) = >>=-eq-ok (parse_names (headers "x-stages")) _ h in
      let (urls, u, h2) =
        >>=-eq-ok (parse_urls ip_address settings (headers "x-stage-urls")) _ h1 in
      let (budget, b, h3) = >>=-eq-ok (parse_budget float_of (headers "x-stage-timeout")) _ h2 in
      let (stages, different) = parse_names-eq-ok (headers "x-stages") names n in
      let (good, once) = parse_urls-IsStageUrl (headers "x-stage-urls") urls u in
      let known : (is_empty names ≡ true) ⊎ (all (λ k. elem k names) (keys urls) ≡ true) =
        known_of names urls budget spec h3 in
      let same : record { names = names; urls = urls; budget = budget } ≡ spec = ground arith in
      rw (← same) (record {
        names = stages;
        different = different;
        urls = good;
        url_keys = once;
        known = known;
        budget = λ x e. parse_budget-eq-ok float_of (headers "x-stage-timeout") x (rw e at b);
      })
