-- ===== src/Api/Images/Canonical.antt =====
-- What a canonical image request is, and the checks on its image, mask and prompt.
use image_adapter.Base.{◌≤◌, ◌≡◌, refl, sym, ◌⊎◌, inl, inr, String, true, false, none, some, arith}
use mathlib.Core.Path.{subst}
use image_adapter.Text.{strip, blank, text_length}
use image_adapter.Errors.{ok, err, >>=-inversion, refuse_if, invalid_request}
use image_adapter.Value.{
  Value, null, str, list, Items, nil, cons, Fields, get, get_or_null, is_null, no_items,
}
use image_adapter.Api.Images.{
  max_image_ref_chars, check_image_ref, check_image_refs, is_count, is_format, is_unset,
  check_image, check_mask, prompt_text, check_prompt,
}

-- a reference to an image: a text that is not blank and not too long
pub record IsRef (v : Value) : Type 0 where
  pub text : String
  pub is_text : v ≡ str text
  pub filled : blank (strip text) ≡ false
  pub short : text_length text ≤ max_image_ref_chars

abbrev pub AllRefs : Items → Type 0
AllRefs nil = Unit {0}
AllRefs (cons v vs) = IsRef v × AllRefs vs

-- one reference, or a list of at least one
abbrev pub IsImage : Value → Type 0
IsImage (list vs) = (no_items vs ≡ false) × AllRefs vs
IsImage v = IsRef v

-- an edit, or a drawing from a prompt alone
abbrev pub HasImage : Fields → Type 0
HasImage body =
    (v : Value) × (get "image" body ≡ some v)
    × IsImage v
    × ((get_or_null "mask" body ≡ null) ⊎ IsRef (get_or_null "mask" body))

abbrev pub HasPrompt : (Value → String) → Fields → Type 0
HasPrompt show body =
    (get "image" body ≡ none)
    × (get_or_null "mask" body ≡ null)
    × (blank (prompt_text show (get_or_null "prompt" body)) ≡ false)

-- A canonical image request.
pub record IsCanonical (show : Value → String) (body : Fields) : Type 0 where
  pub counted : is_count (get "n" body) ≡ true
  pub formatted :
      (get "response_format" body ≡ none) ⊎ (is_format (get_or_null "response_format" body) ≡ true)
  pub subject : HasImage body ⊎ HasPrompt show body

check_image_ref-IsRef : (param : String) (v : Value) → check_image_ref param v ≡ ok tt → IsRef v
unfolding check_image_ref
check_image_ref-IsRef param (str s) h = record {
  text = s;
  is_text = refl;
  filled = ground (arith, h);
  short = ground (arith, h);
}
check_image_ref-IsRef param v h = absurd (cc)

IsRef-check_image_ref : (param : String) (v : Value) → IsRef v → check_image_ref param v ≡ ok tt
unfolding check_image_ref
IsRef-check_image_ref param v r = rw r.is_text (ground (arith, r.filled, r.short))

check_image_refs-AllRefs : (vs : Items) → check_image_refs "image" vs ≡ ok tt → AllRefs vs
unfolding check_image_refs
check_image_refs-AllRefs nil h = tt
check_image_refs-AllRefs (cons v vs) h =
    >>=-inversion (check_image_ref "image" v) _ h
      λ u e k. (check_image_ref-IsRef "image" v e, check_image_refs-AllRefs vs k)

AllRefs-check_image_refs : (vs : Items) → AllRefs vs → check_image_refs "image" vs ≡ ok tt
unfolding check_image_refs
AllRefs-check_image_refs nil a = refl
AllRefs-check_image_refs (cons v vs) (a, b) =
    rw (IsRef-check_image_ref "image" v a) (AllRefs-check_image_refs vs b)

-- an image that is set and passes its check
pub check_image-IsImage : (v : Value) → is_unset v ≡ false → check_image v ≡ ok tt → IsImage v
unfolding check_image
check_image-IsImage null u h = absurd (cc)
check_image-IsImage (list nil) u h = absurd (cc)
check_image-IsImage (list (cons v vs)) u h = (refl, check_image_refs-AllRefs (cons v vs) h)
check_image-IsImage v u h = check_image_ref-IsRef "image" v h

pub IsImage-check_image :
    (v : Value) → IsImage v → (is_unset v ≡ false) × (is_null v ≡ false) × (check_image v ≡ ok tt)
unfolding check_image
IsImage-check_image (list nil) (a, b) = absurd (cc)
IsImage-check_image (list (cons v vs)) (a, b) = (refl, refl, AllRefs-check_image_refs (cons v vs) b)
IsImage-check_image null r = absurd (cc (r.is_text))
IsImage-check_image v r = (refl, refl, IsRef-check_image_ref "image" v r)

pub check_mask-null : (mask : Value) → check_mask null mask ≡ ok tt → mask ≡ null
unfolding check_mask
check_mask-null null h = refl
check_mask-null mask h =
    absurd (
      >>=-inversion (check_image_ref "mask" mask) (λ u. err (invalid_request "mask")) h λ u e k. cc)

pub check_mask-IsRef :
    (image mask : Value) → check_mask image mask ≡ ok tt → (mask ≡ null) ⊎ IsRef mask
unfolding check_mask
check_mask-IsRef image null h = inl refl
check_mask-IsRef image mask h = inr (
    >>=-inversion (check_image_ref "mask" mask)
      (λ u. refuse_if (is_null image) (invalid_request "mask")) h
      λ u e k. check_image_ref-IsRef "mask" mask e)

pub check_prompt-null :
    (show : Value → String) (prompt : Value)
    → check_prompt show null prompt ≡ ok tt
    → blank (prompt_text show prompt) ≡ false
unfolding check_prompt
check_prompt-null show prompt h = ground (arith, h)

check_mask_text :
    (image : Value) (s : String)
    → is_null image ≡ false
    → IsRef (str s)
    → check_mask image (str s) ≡ ok tt
unfolding check_mask
check_mask_text image s set r = ground (arith, set, IsRef-check_image_ref "mask" (str s) r)

pub check_mask_lem :
    (image mask : Value)
    → is_null image ≡ false
    → (mask ≡ null) ⊎ IsRef mask
    → check_mask image mask ≡ ok tt
unfolding check_mask
check_mask_lem image mask set (inl absent) = rw absent refl
check_mask_lem image mask set (inr r) =
    subst (λ m. check_mask image m ≡ ok tt) (sym r.is_text)
      (check_mask_text image r.text set (subst IsRef r.is_text r))
