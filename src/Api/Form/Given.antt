-- ===== src/Api/Form/Given.antt =====
-- The references that the fields of a form give.
use image_adapter.Base.{
  ℕ, String, true, false, is_empty, if◌then◌else◌, Option, none, some, List, [], ◌∷◌, elem, ◌==◌,
  Bool-cases, inl, inr, ◌≡◌, refl, sym, ap, ◌∙◌, arith, eq_iff,
}
use image_adapter.Text.{strip, blank}
use image_adapter.Errors.{ok-injective, ok, >>=-inversion}
use image_adapter.Value.{ℤ, Value, str, Fields, Bytes, get}
use image_adapter.Value.DictLaws.{get-put}
use image_adapter.Api.Parts.{image_of}
use image_adapter.Api.Form.{
  FormValue, upload, text, FormField, file_fields, sniff_mime, field_name, last_value, put_refs,
  data_uri, read_upload, read_ref, add_ref, read_refs, put_text, read_field, read_fields,
}

-- an image with such references: none, the one, or the list of several
abbrev pub as_image : List String → Option Value
as_image [] = none
as_image (ref ∷ refs) = some (image_of (ref ∷ refs))

-- a mask with such references
abbrev pub as_mask : List String → Option Value
as_mask [] = none
as_mask (ref ∷ refs) = some (str ref)

module _ (b64encode : Bytes → String) (int_of : String → Option ℤ) (max_bytes : ℕ) where
  -- the reference that a value stands for
  abbrev pub reference : FormValue → Option String
  reference (upload raw declared) =
      if is_empty raw then none else some (data_uri b64encode int_of (sniff_mime raw declared) raw)
  reference (text s) = if blank (strip s) then none else some (strip s)

  abbrev pub references : List FormValue → List String
  references [] = []
  references (v ∷ vs) = add_ref b64encode int_of (reference v) (references vs)

  -- the references of the last field of a name that gives any
  pub last_references : String → List FormField → List String
  last_references name [] = []
  last_references name (f ∷ form) =
      let later = last_references name form in
      let own = if field_name f.key == name then references (f.first ∷ f.others) else [] in
      if is_empty later then own else later

  read_ref-reference :
      (param : String) (v : FormValue) (ref : Option String)
      → read_ref b64encode int_of param max_bytes v ≡ ok ref
      → ref ≡ reference v
  unfolding read_ref read_upload
  read_ref-reference param (upload raw declared) ref h = ground (arith, h)
  read_ref-reference param (text s) ref h = sym (ok-injective h)

  read_refs-references :
      (param : String) (vs : List FormValue) (refs : List String)
      → read_refs b64encode int_of param max_bytes vs ≡ ok refs
      → refs ≡ references vs
  unfolding read_refs
  read_refs-references param [] refs h = sym (ok-injective h)
  read_refs-references param (v ∷ vs) refs h =
      >>=-inversion (read_ref b64encode int_of param max_bytes v) _ h λ ref e h1.
        >>=-inversion (read_refs b64encode int_of param max_bytes vs) _ h1 λ rest e2 h2.
          let first = read_ref-reference param v ref e in
          let others = read_refs-references param vs rest e2 in
          let all = ok-injective h2 in rw (← all, first, others) refl

  -- what a list of references is under a key, and what is there without any
  abbrev under : String → List String → Option Value → Option Value
  under name [] old = old
  under name (ref ∷ refs) old = some (if name == "image" then image_of (ref ∷ refs) else str ref)

  put_refs-under :
      (name field : String) (refs : List String) (body : Fields)
      → get name (put_refs field refs body)
        ≡ under name (if field == name then refs else []) (get name body)
  unfolding put_refs
  put_refs-under name field [] body = elim (Bool-cases (field == name)) [
    | inl same ↦ rw same refl
    | inr other ↦ rw other refl
  ]
  put_refs-under name field (ref ∷ refs) body = elim (Bool-cases (field == name)) [
    | inl same ↦
        let equal : field ≡ name = (eq_iff field name).0 same in
        ground (
          arith,
          same,
          get-put field name (if field == "image" then image_of (ref ∷ refs) else str ref) body,
          ap (λ x. x == "image") equal,
        )
    | inr other ↦ ground (
      arith,
      other,
      get-put field name (if field == "image" then image_of (ref ∷ refs) else str ref) body,
    )
  ]

  put_text-get :
      (name field : String) (v : FormValue) (body out : Fields)
      → field == name ≡ false
      → put_text b64encode int_of field v body ≡ ok out
      → get name out ≡ get name body
  unfolding put_text
  put_text-get name field (upload raw declared) body out other h = absurd (cc)
  put_text-get name field (text s) body out other h =
      ap (get name) (sym (ok-injective h)) ∙ get-put field name _ body ∙ rw other refl

  read_field-under :
      (name : String) (f : FormField) (body out : Fields)
      → elem name file_fields ≡ true
      → read_field b64encode int_of max_bytes f body ≡ ok out
      → get name out
        ≡ under name
            (if field_name f.key == name then references (f.first ∷ f.others) else [])
            (get name body)
  unfolding read_field put_text
  read_field-under name f body out is_file h =
      let field = field_name f.key in
      elim (Bool-cases (elem field file_fields)) [
        | inl file ↦
            >>=-inversion (read_refs b64encode int_of field max_bytes (f.first ∷ f.others)) _
              (rw file at h)
              λ refs e k.
                let same = read_refs-references field (f.first ∷ f.others) refs e in
                rw (← ok-injective k, ← same) (put_refs-under name field refs body)
        | inr other ↦ elim (Bool-cases (field == name)) [
          | inl same ↦
              absurd
                (cc (ap (λ x. elem x file_fields) ((eq_iff field name).0 same), is_file, other))
          | inr differs ↦ rw differs (
              put_text-get name field (last_value f.first f.others) body out differs
                (rw other at h))
        ]
      ]

  under_twice :
      (name : String) (later own : List String) (next body : Option Value)
      → next ≡ under name own body
      → under name later next ≡ under name (if is_empty later then own else later) body
  under_twice name [] own next body h = h
  under_twice name (ref ∷ refs) own next body h = refl

  pub alone_image : (refs : List String) → under "image" refs none ≡ as_image refs
  alone_image [] = refl
  alone_image (ref ∷ refs) = refl

  pub alone_mask : (refs : List String) → under "mask" refs none ≡ as_mask refs
  alone_mask [] = refl
  alone_mask (ref ∷ refs) = refl

  pub read_fields-under :
      (name : String) (form : List FormField) (body out : Fields)
      → elem name file_fields ≡ true
      → read_fields b64encode int_of max_bytes form body ≡ ok out
      → get name out ≡ under name (last_references name form) (get name body)
  unfolding read_fields last_references
  read_fields-under name [] body out is_file h = ap (get name) (sym (ok-injective h))
  read_fields-under name (f ∷ form) body out is_file h =
      >>=-inversion (read_field b64encode int_of max_bytes f body) _ h λ next e k.
        let first = read_field-under name f body next is_file e in
        let rest = read_fields-under name form next out is_file k in
        rest ∙ under_twice name (last_references name form) _ (get name next) (get name body) first
