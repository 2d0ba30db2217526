-- ===== src/Api/Form/References.antt =====
-- What the form's image and mask are.
use image_adapter.Base.{
  ℕ, String, false, Option, none, some, List, [], ◌∷◌, elem, All, ◌==◌, Bool-cases, inl, inr, ◌⊎◌,
  ◌≡◌, refl, sym, ap, ◌∙◌, arith, eq_iff,
}
use mathlib.Core.Path.{subst}
use image_adapter.Text.{strip, blank, append}
use image_adapter.Text.Laws.{strip_idem, IsTrimmed, strip_filled_of_head}
use image_adapter.Errors.{ok-injective, ok, >>=-inversion}
use image_adapter.Value.{ℤ, Value, str, Fields, end, Bytes, get, put}
use image_adapter.Value.DictLaws.{get-put}
use image_adapter.Api.Parts.{image_of}
use image_adapter.Api.Form.{
  FormValue, upload, text, FormField, file_fields, sniff_mime, field_name, last_value, put_refs,
  data_uri, read_upload, read_ref, add_ref, read_refs, put_text, read_field, read_fields,
  normalise_edits_form,
}
use image_adapter.Api.Form.Given.{
  as_image, as_mask, last_references, read_fields-under, alone_image, alone_mask,
}

-- a reference that is not blank
abbrev pub IsFilled : String → Type 0
IsFilled ref = blank (strip ref) ≡ false

-- Nothing, or one reference.
abbrev pub IsSingle : Option Value → Type 0
IsSingle o = (o ≡ none) ⊎ ((ref : String) × (o ≡ some (str ref)) × IsFilled ref)

-- Nothing, or the references that a field gives: a single one, or the list of several.
abbrev pub IsReferences : Option Value → Type 0
IsReferences o =
    (o ≡ none)
    ⊎ ((ref : String) × (refs : List String) × (o ≡ some (image_of (ref ∷ refs)))
        × All IsFilled (ref ∷ refs))

-- A body whose image and mask are references.
abbrev pub IsFormBody : Fields → Type 0
IsFormBody body = IsReferences (get "image" body) × IsSingle (get "mask" body)

-- a put keeps what holds of the new value and of the old one
put-keeps :
    (P : Option Value → Type 0) (field key : String) (v : Value) (body : Fields)
    → P (some v)
    → P (get key body)
    → P (get key (put field v body))
put-keeps P field key v body h old =
    subst P (sym (get-put field key v body))
      (elim (Bool-cases (field == key)) [ inl same ↦ rw same h | inr other ↦ rw other old ])

put_refs-IsFormBody :
    (field : String) (refs : List String) (body : Fields)
    → All IsFilled refs
    → IsFormBody body
    → IsFormBody (put_refs field refs body)
unfolding put_refs
put_refs-IsFormBody field [] body h b = b
put_refs-IsFormBody field (ref ∷ refs) body (p, h) (image, mask) =
    elim (Bool-cases (field == "image")) [
      | inl is_image ↦
          let v = image_of (ref ∷ refs) in
          let kept : get "mask" (put field v body) ≡ get "mask" body =
            subst (λ f. get "mask" (put f v body) ≡ get "mask" body)
              (sym ((eq_iff field "image").0 is_image)) (get-put "image" "mask" v body) in
          rw is_image (
            put-keeps IsReferences field "image" v body (inr (ref, refs, refl, (p, h))) image,
            subst IsSingle (sym kept) mask,
          )
      | inr other ↦ rw other (
        put-keeps IsReferences field "image" (str ref) body (inr (ref, [], refl, (p, tt))) image,
        put-keeps IsSingle field "mask" (str ref) body (inr (ref, refl, p)) mask,
      )
    ]

-- a put at a key that is no file field leaves both alone
put_other-IsFormBody :
    (field : String) (v : Value) (body : Fields)
    → elem field file_fields ≡ false
    → IsFormBody body
    → IsFormBody (put field v body)
put_other-IsFormBody field v body other (image, mask) = (
  subst IsReferences
      (sym (
        ground
          (arith, get-put field "image" v body, other, eq_iff "image" field, eq_iff field "image")))
      image,
  subst IsSingle
      (sym (
        ground
          (arith, get-put field "mask" v body, other, eq_iff "mask" field, eq_iff field "mask")))
      mask,
)

data-IsTrimmed : IsTrimmed "data:"
unfolding strip
data-IsTrimmed = record { head = refl; last = refl; filled = refl }

module _ (b64encode : Bytes → String) (int_of : String → Option ℤ) (max_bytes : ℕ) where
  read_ref-IsFilled :
      (param : String) (v : FormValue) (ref : String)
      → read_ref b64encode int_of param max_bytes v ≡ ok (some ref)
      → IsFilled ref
  unfolding read_ref read_upload
  read_ref-IsFilled param (upload raw declared) ref h =
      let is : data_uri b64encode int_of (sniff_mime raw declared) raw ≡ ref = ground (arith, h) in
      subst IsFilled is (
        strip_filled_of_head "data:"
          (append (sniff_mime raw declared) (append ";base64," (b64encode raw))) data-IsTrimmed)
  read_ref-IsFilled param (text s) ref h =
      let is : strip s ≡ ref = ground (arith, h) in
      let filled : blank (strip s) ≡ false = ground (arith, h) in
      subst IsFilled is (ap blank (strip_idem s) ∙ filled)

  add_ref-IsFilled :
      (param : String) (v : FormValue) (ref : Option String) (refs : List String)
      → read_ref b64encode int_of param max_bytes v ≡ ok ref
      → All IsFilled refs
      → All IsFilled (add_ref b64encode int_of ref refs)
  add_ref-IsFilled param v none refs e h = h
  add_ref-IsFilled param v (some ref) refs e h = (read_ref-IsFilled param v ref e, h)

  read_refs-IsFilled :
      (param : String) (vs : List FormValue) (refs : List String)
      → read_refs b64encode int_of param max_bytes vs ≡ ok refs
      → All IsFilled refs
  unfolding read_refs
  read_refs-IsFilled param [] refs h = subst (All IsFilled) (ok-injective h) tt
  read_refs-IsFilled param (v ∷ vs) refs h =
      >>=-inversion (read_ref b64encode int_of param max_bytes v) _ h λ ref e h1.
        >>=-inversion (read_refs b64encode int_of param max_bytes vs) _ h1 λ rest e2 h2.
          subst (All IsFilled) (ok-injective h2)
            (add_ref-IsFilled param v ref rest e (read_refs-IsFilled param vs rest e2))

  put_text-IsFormBody :
      (field : String) (v : FormValue) (body out : Fields)
      → elem field file_fields ≡ false
      → put_text b64encode int_of field v body ≡ ok out
      → IsFormBody body
      → IsFormBody out
  unfolding put_text
  put_text-IsFormBody field (upload raw declared) body out other h b = absurd (cc)
  put_text-IsFormBody field (text s) body out other h b =
      subst IsFormBody (ok-injective h) (put_other-IsFormBody field _ body other b)

  read_field-IsFormBody :
      (f : FormField) (body out : Fields)
      → read_field b64encode int_of max_bytes f body ≡ ok out
      → IsFormBody body
      → IsFormBody out
  unfolding read_field
  read_field-IsFormBody f body out h b =
      let field = field_name f.key in
      elim (Bool-cases (elem field file_fields)) [
        | inl file ↦
            >>=-inversion (read_refs b64encode int_of field max_bytes (f.first ∷ f.others)) _
              (rw file at h)
              λ refs e k. subst IsFormBody (ok-injective k) (
                put_refs-IsFormBody field refs body
                  (read_refs-IsFilled field (f.first ∷ f.others) refs e) b)
        | inr other ↦
            put_text-IsFormBody field (last_value f.first f.others) body out other (rw other at h) b
      ]

  read_fields-IsFormBody :
      (form : List FormField) (body out : Fields)
      → read_fields b64encode int_of max_bytes form body ≡ ok out
      → IsFormBody body
      → IsFormBody out
  unfolding read_fields
  read_fields-IsFormBody [] body out h b = subst IsFormBody (ok-injective h) b
  read_fields-IsFormBody (f ∷ form) body out h b =
      >>=-inversion (read_field b64encode int_of max_bytes f body) _ h
        λ next e k. read_fields-IsFormBody form next out k (read_field-IsFormBody f body next e b)

  -- The image of the body that a form becomes is what the last field named `image` gives that gives any
  -- reference: the reference, or the list of several; its mask is the first reference of the last field
  -- named `mask` that gives any. The key is absent where no field of the name gives a reference, and no
  -- reference is blank. An upload gives a data URI of its bytes, if there are any, and a text gives
  -- itself, stripped, if it is not blank.
  pub normalise_edits_form-IsFormBody :
      (form : List FormField) (out : Fields)
      → normalise_edits_form b64encode int_of max_bytes form ≡ ok out
      → IsFormBody out
        × (get "image" out ≡ as_image (last_references b64encode int_of max_bytes "image" form))
        × (get "mask" out ≡ as_mask (last_references b64encode int_of max_bytes "mask" form))
  unfolding normalise_edits_form get
  normalise_edits_form-IsFormBody form out h = (
    read_fields-IsFormBody form end out h (inl refl, inl refl),
    read_fields-under b64encode int_of max_bytes "image" form end out refl h
        ∙ alone_image b64encode int_of max_bytes
            (last_references b64encode int_of max_bytes "image" form),
    read_fields-under b64encode int_of max_bytes "mask" form end out refl h
        ∙ alone_mask b64encode int_of max_bytes
            (last_references b64encode int_of max_bytes "mask" form),
  )
