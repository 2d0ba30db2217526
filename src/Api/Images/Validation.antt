-- ===== src/Api/Images/Validation.antt =====
-- What the checks on an images body establish.
use image_adapter.Base.{◌≡◌, ◌∙◌, refl, sym, ap, ◌⊎◌, inl, inr, String, false, none, some, arith}
use mathlib.Core.Path.{subst}
use image_adapter.Errors.{ok-injective, ok, >>=-inversion}
use image_adapter.Value.{Value, null, Fields, get, get_or_null}
use image_adapter.Value.DictLaws.{pop_absent}
use image_adapter.Api.Images.{
  is_count, fix_count, fix_format, is_unset, fix_image, check_image, check_mask, check_prompt,
  validate_images_body,
}
use image_adapter.Api.Images.Canonical.{
  HasImage, HasPrompt, IsCanonical, check_image-IsImage, IsImage-check_image, check_mask-null,
  check_mask-IsRef, check_prompt-null, check_mask_lem,
}
use image_adapter.Api.Images.Fixes.{
  fix_count-counted, is_fixed, get-fix_format, get-fix_image, fix_all, get-fix_all, image-fix_all,
  formatted_kept, fix_format_formatted, fix_all-none,
}

-- what the three checks say of a body whose image is unset or set
subject_of :
    (show : Value → String) (body : Fields)
    → ((get "image" body ≡ none)
        ⊎ ((v : Value) × (get "image" body ≡ some v) × (is_unset v ≡ false)))
    → check_image (get_or_null "image" body) ≡ ok tt
    → check_mask (get_or_null "image" body) (get_or_null "mask" body) ≡ ok tt
    → check_prompt show (get_or_null "image" body) (get_or_null "prompt" body) ≡ ok tt
    → HasImage body ⊎ HasPrompt show body
subject_of show body (inl absent) a b c =
    let image : get_or_null "image" body ≡ null = ground (arith, absent) in
    let b2 : check_mask null (get_or_null "mask" body) ≡ ok tt =
      subst (λ v. check_mask v (get_or_null "mask" body) ≡ ok tt) image b in
    let c2 : check_prompt show null (get_or_null "prompt" body) ≡ ok tt =
      subst (λ v. check_prompt show v (get_or_null "prompt" body) ≡ ok tt) image c in
    inr (
      absent,
      check_mask-null (get_or_null "mask" body) b2,
      check_prompt-null show (get_or_null "prompt" body) c2,
    )
subject_of show body (inr (v, there, set)) a b c =
    let image : get_or_null "image" body ≡ v = ground (arith, there) in
    inl (
      v,
      there,
      check_image-IsImage v set (subst (λ x. check_image x ≡ ok tt) image a),
      check_mask-IsRef (get_or_null "image" body) (get_or_null "mask" body) b,
    )

-- A body that the checks accept comes out canonical: a count that is absent or a positive int, an
-- output format that is absent or one of the two, and either an image (one reference, or a list of at
-- least one) with or without a mask, or no image, no mask and a prompt that is not blank. A key
-- other than `n`, `response_format` and `image` has the value that the client sent.
pub validate_images_body-IsCanonical :
    (show : Value → String) (body out : Fields)
    → validate_images_body show body ≡ ok out
    → (k : String) → is_fixed k ≡ false
    → IsCanonical show out × (get k out ≡ get k body)
unfolding validate_images_body
validate_images_body-IsCanonical show body out h k free =
    let fixed = fix_all body in
    let image = get_or_null "image" fixed in
    >>=-inversion (check_image image) _ h λ u1 e1 h1.
      >>=-inversion (check_mask image (get_or_null "mask" fixed)) _ h1 λ u2 e2 h2.
        >>=-inversion (check_prompt show image (get_or_null "prompt" fixed)) _ h2 λ u3 e3 h3.
          subst (λ x. IsCanonical show x × (get k x ≡ get k body)) (ok-injective h3)
            (
              record {
                counted =
                    ap is_count (
                      get-fix_image "n" (fix_format (fix_count body)) refl
                      ∙ get-fix_format "n" (fix_count body) refl)
                    ∙ fix_count-counted body;
                formatted = formatted_kept body;
                subject = subject_of show fixed (image-fix_all body) e1 e2 e3;
              },
              get-fix_all k body free,
            )

fix_image_subject :
    (show : Value → String) (body : Fields)
    → HasImage body ⊎ HasPrompt show body
    → fix_image body ≡ body
unfolding fix_image
fix_image_subject show body (inr (absent, mask, prompt)) =
    ground (arith, absent, pop_absent "image" body)
fix_image_subject show body (inl (v, there, image, mask)) =
    ground (arith, there, (IsImage-check_image v image).0)

checks_subject :
    (show : Value → String) (body : Fields)
    → HasImage body ⊎ HasPrompt show body
    → (check_image (get_or_null "image" body) ≡ ok tt)
      × (check_mask (get_or_null "image" body) (get_or_null "mask" body) ≡ ok tt)
      × (check_prompt show (get_or_null "image" body) (get_or_null "prompt" body) ≡ ok tt)
unfolding check_prompt check_image check_mask
checks_subject show body (inl (v, there, image, mask)) =
    let at : get_or_null "image" body ≡ v = ground (arith, there) in
    let (set, filled, passes) = IsImage-check_image v image in
    rw at (passes, check_mask_lem v (get_or_null "mask" body) filled mask, rw filled refl)
checks_subject show body (inr (absent, mask, prompt)) =
    let at : get_or_null "image" body ≡ null = ground (arith, absent) in
    rw at (refl, subst (λ m. check_mask null m ≡ ok tt) (sym mask) refl, ground (arith, prompt))

-- A canonical body passes the checks as it is.
IsCanonical-validate_images_body :
    (show : Value → String) (body : Fields)
    → IsCanonical show body
    → validate_images_body show body ≡ ok body
unfolding validate_images_body fix_count
IsCanonical-validate_images_body show body c =
    let (image, mask, prompt) = checks_subject show body c.subject in
    rw (c.counted, fix_format_formatted body c.formatted, fix_image_subject show body c.subject)
      (rw image (rw mask (rw prompt refl)))

-- the fixed body is what comes out
validate_images_body-fix_all :
    (show : Value → String) (body out : Fields)
    → validate_images_body show body ≡ ok out
    → out ≡ fix_all body
unfolding validate_images_body
validate_images_body-fix_all show body out h =
    let fixed = fix_all body in
    let image = get_or_null "image" fixed in
    >>=-inversion (check_image image) _ h λ u1 e1 h1.
      >>=-inversion (check_mask image (get_or_null "mask" fixed)) _ h1 λ u2 e2 h2.
        >>=-inversion (check_prompt show image (get_or_null "prompt" fixed)) _ h2
          λ u3 e3 h3. sym (ok-injective h3)

-- The checks set no key that the client left out.
pub validate_images_body-none :
    (show : Value → String) (body out : Fields)
    → validate_images_body show body ≡ ok out
    → (k : String) → get k body ≡ none
    → get k out ≡ none
validate_images_body-none show body out h k absent =
    ap (get k) (validate_images_body-fix_all show body out h) ∙ fix_all-none k body absent
