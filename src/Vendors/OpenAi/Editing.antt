-- ===== src/Vendors/OpenAi/Editing.antt =====
-- What the request phase of an edit sends.
use image_adapter.Base.{
  ℕ, suc, String, true, false, ◌≡◌, refl, sym, ap, ◌∙◌, ◌⊎◌, Option, none, some, List, [], ◌∷◌,
  ◌++◌, Assoc, inl, inr, Bool-cases, if◌then◌else◌,
}
use mathlib.Core.Path.{subst}
use image_adapter.Errors.{Result, ok, err, crash, >>=-eq-ok}
use image_adapter.UrlGuard.{check_url}
use image_adapter.UrlGuard.Guards.{IsOutbound, check_url-IsOutbound}
use image_adapter.Value.{Value, dict, Fields, get_or_null, truthy}
use image_adapter.Plan
use image_adapter.Plan.{RequestPlan, FilePart, Emission, emitted_url}
use image_adapter.Engine.{pure}
use image_adapter.Pictures.Codec.{Assets, sniff}
use image_adapter.Pictures.Shapes.{image_bytes}
use image_adapter.Vendors.Context.{
  ScriptContext, ScriptState, on_assets, fan_out, emit, with_plan, park,
}
use image_adapter.Vendors.Outcomes.{proceed-eq-ok, Pairs, fan_out-Pairs, proceed-ok}
use image_adapter.Vendors.OpenAi.Asking.{
  file_name, text_fields, refs_of, stems, mask_of, first_parts, other_parts, image_field, files_of,
  emission, part_of, file_part, edits_url, send_edit, edit, requested_format, ask,
}

module _ (Q : Value × String → FilePart → Type 0) where
  -- the parts that belong to the references, and the others
  Pairs-split :
      (show : Value → String) (i : ℕ) (refs : List Value) (more : List (Value × String))
      (parts : List FilePart)
      → Pairs Q (stems show i refs ++ more) parts
      → Pairs Q (stems show i refs) (first_parts refs parts) × Pairs Q more (other_parts refs parts)
  unfolding stems first_parts other_parts
  Pairs-split show i [] more parts h = (tt, h)
  Pairs-split show i (ref ∷ refs) more [] h = absurd h
  Pairs-split show i (ref ∷ refs) more (part ∷ parts) (q, h) =
      let (first, others) = Pairs-split show (suc i) refs more parts h in ((q, first), others)

module _ {St : Type 0} (a : Assets St) (c : ScriptContext) where
  -- The bytes of a reference, under a name made of the stem and their type.
  pub record IsPart (pair : Value × String) (part : FilePart) : Type 0 where
    pub from : St
    pub content : (image_bytes a c.settings pair.0 from).0 ≡ ok part.content
    pub mime : part.mime ≡ sniff part.content
    pub named : part.filename ≡ file_name pair.1 part.mime

  file_part-IsPart :
      (pair : Value × String) (s : ScriptState St) (part : FilePart)
      → (file_part a c pair s).0 ≡ ok part
      → IsPart pair part
  unfolding file_part
  file_part-IsPart (ref, stem) s part h =
      let (raw, e, k) =
        proceed-eq-ok (image_bytes a c.settings ref s.assets).0 (part_of a c stem)
          (on_assets (image_bytes a c.settings ref) s).1 h in
      let made : FilePart = record {
        filename = file_name stem (sniff raw);
        content = raw;
        mime = sniff raw;
      } in
      let same : made ≡ part = cc k in
      rw (← same) (record { from = s.assets; content = e; mime = refl; named = refl })

  -- A plan that uploads a picture and what belongs to it.
  pub record Uploads (payload : Fields) (refs : List Value) (plan : RequestPlan) : Type 0 where
    pub parts : List FilePart
    pub url : String
    pub files :
        plan.files
        ≡ some (
            (image_field refs, first_parts refs parts)
            ∷ (if truthy (get_or_null "mask" payload)
                then ("mask", other_parts refs parts) ∷ []
                else []))
    pub images : Pairs IsPart (stems c.show 0 refs) (first_parts refs parts)
    pub mask : Pairs IsPart (mask_of payload) (other_parts refs parts)
    pub to_url : plan.url ≡ some url
    pub outbound : IsOutbound a.ip_address c.settings url

  emit-files :
      (url : String) (files : Assoc (List FilePart)) (old plan : RequestPlan)
      → Plan.emit a.ip_address c.settings (emission url files) old ≡ ok plan
      → (checked : String) × (plan.files ≡ some files)
        × (plan.url ≡ some checked)
        × IsOutbound a.ip_address c.settings checked
  unfolding Plan.emit emitted_url
  emit-files url files old plan h =
      let (found, e, k) = >>=-eq-ok (emitted_url a.ip_address c.settings (some url) old.url) _ h in
      let (checked, e', k') =
        >>=-eq-ok (check_url a.ip_address url c.settings "ctx.emit(url=...)") (λ u. ok (some u))
          e in
      let (same, outbound) =
        check_url-IsOutbound a.ip_address c.settings url "ctx.emit(url=...)" checked e' in
      let is_url : some checked ≡ found = cc k' in
      let made : record old { url = found; files = some files } ≡ plan = cc k in
      (
        checked,
        sym (ap (λ (p : RequestPlan). p.files) made),
        sym (ap (λ (p : RequestPlan). p.url) made) ∙ sym is_url,
        rw same outbound,
      )

  park-plan : (format : Option String) (s : ScriptState St) → (park a c format s).plan ≡ s.plan
  unfolding park
  park-plan none s = refl
  park-plan (some format) s = refl

  emitted-files :
      (url : String) (files : Assoc (List FilePart)) (s : ScriptState St) (m : Result RequestPlan)
      → Plan.emit a.ip_address c.settings (emission url files) s.plan ≡ m
      → (with_plan a c m s).0 ≡ ok tt
      → (checked : String) × ((with_plan a c m s).1.plan.files ≡ some files)
        × ((with_plan a c m s).1.plan.url ≡ some checked)
        × IsOutbound a.ip_address c.settings checked
  emitted-files url files s (ok plan) e h = emit-files url files s.plan plan e
  emitted-files url files s (err error) e h = absurd (cc)
  emitted-files url files s crash e h = absurd (cc)

  send_edit-Uploads :
      (payload : Fields) (refs : List Value) (parts : List FilePart) (s : ScriptState St)
      (out : Value)
      → Pairs IsPart (stems c.show 0 refs ++ mask_of payload) parts
      → (send_edit a c payload refs parts s).0 ≡ ok out
      → (out ≡ dict (text_fields c.show payload))
        × Uploads payload refs (send_edit a c payload refs parts s).1.plan
  unfolding send_edit files_of
  send_edit-Uploads payload refs parts s out pairs h =
      let (url, e, k) = proceed-eq-ok (edits_url a c) _ s h in
      let files = files_of payload refs parts in
      let sent = emit a c (emission url files) s in
      let finish =
        λ (nothing : Unit {0}) (t : ScriptState St). pure (dict (text_fields c.show payload)) t in
      let (nothing, e', k') = proceed-eq-ok sent.0 finish sent.1 k in
      let last : (send_edit a c payload refs parts s).1 ≡ sent.1 =
        ap (λ p. p.1) (proceed-ok (edits_url a c) _ s e ∙ proceed-ok sent.0 finish sent.1 e') in
      let (images, mask) = Pairs-split IsPart c.show 0 refs (mask_of payload) parts pairs in
      let (checked, has_files, has_url, outbound) =
        emitted-files url files s (Plan.emit a.ip_address c.settings (emission url files) s.plan)
          refl e' in
      let same : dict (text_fields c.show payload) ≡ out = cc k' in
      (
        sym same,
        record {
          parts = parts;
          url = checked;
          files = ap (λ (t : ScriptState St). t.plan.files) last ∙ has_files;
          images = images;
          mask = mask;
          to_url = ap (λ (t : ScriptState St). t.plan.url) last ∙ has_url;
          outbound = outbound;
        },
      )

  edit-Uploads :
      (payload : Fields) (refs : List Value) (s : ScriptState St) (out : Value)
      → (edit a c payload refs s).0 ≡ ok out
      → (out ≡ dict (text_fields c.show payload))
        × Uploads payload refs (edit a c payload refs s).1.plan
  unfolding edit
  edit-Uploads payload refs s out h =
      let pairs = stems c.show 0 refs ++ mask_of payload in
      let run = fan_out c.settings.fanout_concurrency (file_part a c) pairs s in
      let (parts, e, k) = proceed-eq-ok run.0 (send_edit a c payload refs) run.1 h in
      let (texts, uploads) =
        send_edit-Uploads payload refs parts run.1 out
          (fan_out-Pairs IsPart (file_part a c) (λ pair t part. file_part-IsPart pair t part)
            c.settings.fanout_concurrency pairs s parts e)
          k in
      (
        texts,
        subst (λ t. Uploads payload refs t.1.plan)
            (sym (proceed-ok run.0 (send_edit a c payload refs) run.1 e)) uploads,
      )

  -- The request phase for a body without an image returns the body as it came and plans nothing. For a
  -- body with images, if it goes well, it returns the other fields that are not null, as texts; and its
  -- plan posts to a URL that passes the guards, with one file for each reference, in order, and one for
  -- the mask if there is one: each has the bytes of its reference, and is named after their type.
  pub ask-Uploads :
      (payload : Fields) (s : ScriptState St) (out : Value)
      → (ask a c payload s).0 ≡ ok out
      → ((truthy (get_or_null "image" payload) ≡ false)
          × (out ≡ dict payload)
          × ((ask a c payload s).1.plan ≡ s.plan))
        ⊎ ((truthy (get_or_null "image" payload) ≡ true)
            × (out ≡ dict (text_fields c.show payload))
            × Uploads payload (refs_of (get_or_null "image" payload)) (ask a c payload s).1.plan)
  unfolding ask
  ask-Uploads payload s out h = elim (Bool-cases (truthy (get_or_null "image" payload))) [
    | inl image ↦
        let (texts, uploads) =
          edit-Uploads payload (refs_of (get_or_null "image" payload))
            (park a c (requested_format payload) s) out (rw image at h) in
        inr (image, texts, rw image uploads)
    | inr none_given ↦
        let same : dict payload ≡ out = cc (rw none_given at h) in
        inl (none_given, sym same, rw none_given (park-plan (requested_format payload) s))
  ]
