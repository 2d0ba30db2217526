-- ===== src/Api/Reply/Numbering.antt =====
-- The ids that a wrapped reply gives to its calls.
use image_adapter.Base.{
  ℕ, suc, ◌+◌, String, false, none, some, List, [], ◌∷◌, elem, length, ◌≡◌, refl, ap, arith,
}
use image_adapter.Text.{append}
use image_adapter.Value.{
  Value, str, list, dict, Items, nil, cons, Fields, get, get_or_null, is_null,
}
use image_adapter.Api.Reply.{
  carry_over, or_value, call_result, image_call, image_calls, handled_response, response,
  canonical_to_response,
}
use image_adapter.Api.Reply.Wrapping.{found}
use image_adapter.Api.Reply.Carrying.{carry_over_keeps, carry_over_carries}

-- the calls of a list of results, the n-th of which has the n-th id
abbrev pub numbered : (ℕ → String) → ℕ → List String → Items
numbered fresh n [] = nil
numbered fresh n (result ∷ results) =
    cons (image_call (fresh n) result) (numbered fresh (suc n) results)

image_calls-found :
    (fresh : ℕ → String) (n : ℕ) (items : Items)
    → (image_calls fresh n items).0 ≡ numbered fresh n (found call_result items)
unfolding image_calls
image_calls-found fresh n nil = refl
image_calls-found fresh n (cons item items) =
    ground (arith, image_calls-found fresh n items, image_calls-found fresh (suc n) items)

image_calls-taken :
    (fresh : ℕ → String) (n : ℕ) (items : Items)
    → (image_calls fresh n items).1 ≡ n + length (found call_result items)
unfolding image_calls
image_calls-taken fresh n nil = omega arith
image_calls-taken fresh n (cons item items) =
    ground (arith, image_calls-taken fresh n items, image_calls-taken fresh (suc n) items)

abbrev pub response_own : List String
response_own = "id" ∷ "object" ∷ "status" ∷ "created" ∷ "model" ∷ "output" ∷ []

-- A reply with a list of images and no `output` of its own becomes a response with one call for each
-- item that has a result, in order. The n-th call has the n-th new id and the response the one after
-- them, so that no two share an id where new ids differ. Every other key of the reply that is not null
-- is in the response too.
canonical_to_response-numbered :
    (fresh : ℕ → String) (now model : Value) (payload : Fields) (items : Items)
    → get "output" payload ≡ none
    → get "data" payload ≡ some (list items)
    → (k : String) (w : Value) → elem k handled_response ≡ false
    → elem k response_own ≡ false
    → get k payload ≡ some w
    → is_null w ≡ false
    → (out : Fields) × (canonical_to_response fresh now model (dict payload) ≡ dict out)
      × (get "output" out ≡ some (list (numbered fresh 0 (found call_result items))))
      × (get "id" out ≡ some (str (append "resp-" (fresh (length (found call_result items))))))
      × (get k out ≡ some w)
unfolding canonical_to_response get
canonical_to_response-numbered fresh now model payload items bare there k w free other has full =
    let calls = image_calls fresh 0 items in
    let wrapped =
      response (fresh calls.1) (or_value (get_or_null "created" payload) now)
        (or_value model (str "")) calls.0 in
    let at : get_or_null "data" payload ≡ list items = ground (arith, there) in
    (
      carry_over handled_response payload wrapped,
      rw bare (rw at refl),
      carry_over_keeps handled_response payload wrapped "output" _
          (rw (image_calls-found fresh 0 items) refl),
      carry_over_keeps handled_response payload wrapped "id" _ (
          ap (λ n. some (str (append "resp-" (fresh n))))
            (omega (arith, image_calls-taken fresh 0 items))),
      carry_over_carries handled_response payload wrapped k w free (ground (arith, other)) has full,
    )
