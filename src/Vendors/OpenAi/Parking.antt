-- ===== src/Vendors/OpenAi/Parking.antt =====
-- The format that a request phase parks for its response phase.
use image_adapter.Base.{
  ℕ, String, ◌≡◌, ◌≢◌, refl, ap, ◌∙◌, Option, none, some, List, [], ◌∷◌, ◌++◌, inl, inr, Bool-cases,
  lookup, lookup-insert, lookup-remove, eq_iff, eq_refl, ◌==◌, All, arith, eqb, leb, ◌||◌, length,
}
use image_adapter.Errors.{Result, ok, err, crash}
use image_adapter.Value.{Value, dict, Fields, get_or_null, truthy}
use image_adapter.Plan
use image_adapter.Plan.{RequestPlan, Emission, FilePart}
use image_adapter.Engine.{Exec, proceed, pure, lift}
use image_adapter.Pictures.Codec.{Assets}
use image_adapter.Pictures.Shapes.{image_bytes}
use image_adapter.Vendors.Context.{
  ScriptContext, ScriptState, on_assets, unpark, park, with_plan, emit, serial, run_all, fan_out,
}
use image_adapter.Vendors.OpenAi.Asking.{
  requested_format, file_part, edits_url, send_edit, edit, ask, refs_of, part_of, files_of,
  emission, text_fields, stems, mask_of,
}
use image_adapter.Vendors.OpenAi.Reply.{answer}
use image_adapter.Vendors.OpenAi.Script.{ask_value, respond, transform}

module _ {St : Type 0} where
  -- what a step leaves parked
  abbrev pub Parks : {A : Type 0} → Exec (ScriptState St) A → Type 0
  Parks m = (s : ScriptState St) → (m s).1.parked ≡ s.parked

  proceed-Parks :
      {A B : Type 0} (m : Exec (ScriptState St) A) (f : A → Exec (ScriptState St) B)
      → Parks m
      → ((x : A) → Parks (f x))
      → Parks (λ s. proceed (m s).0 f (m s).1)
  proceed-Parks {A} {B} m f p q s = go (m s).0 (m s).1 (p s)
    where
      go :
          (r : Result A) (t : ScriptState St)
          → t.parked ≡ s.parked
          → (proceed r f t).1.parked ≡ s.parked
      go (ok x) t e = q x t ∙ e
      go (err error) t e = e
      go crash t e = e

  module _ {A B : Type 0} (work : A → Exec (ScriptState St) B) (p : (x : A) → Parks (work x)) where
    serial-Parks : (xs : List A) → Parks (serial work xs)
    unfolding serial
    serial-Parks [] s = refl
    serial-Parks (x ∷ xs) s =
        proceed-Parks (work x)
          (λ b. λ next.
            proceed (serial work xs next).0 (λ bs. λ last. (ok (b ∷ bs), last))
              (serial work xs next).1)
          (p x)
          (λ b.
            proceed-Parks (serial work xs) (λ bs. λ last. (ok (b ∷ bs), last)) (serial-Parks xs)
              (λ bs s. refl))
          s

    run_all-parked : (xs : List A) (s : ScriptState St) → (run_all work xs s).1.parked ≡ s.parked
    unfolding run_all
    run_all-parked [] s = refl
    run_all-parked (x ∷ xs) s = run_all-parked xs (work x s).1 ∙ p x s

    fan_out-Parks : (limit : ℕ) (xs : List A) → Parks (fan_out limit work xs)
    unfolding fan_out
    fan_out-Parks limit xs s = elim (Bool-cases (leb limit 1 || eqb (length xs) 1)) [
      | inl single ↦ rw single (serial-Parks xs s)
      | inr many ↦ rw many (run_all-parked xs s)
    ]

module _ {St : Type 0} (a : Assets St) (c : ScriptContext) where
  with_plan-Parks : (r : Result RequestPlan) → Parks (with_plan a c r)
  with_plan-Parks (ok plan) s = refl
  with_plan-Parks (err error) s = refl
  with_plan-Parks crash s = refl

  emit-Parks : (e : Emission) → Parks (emit a c e)
  unfolding emit
  emit-Parks e s = with_plan-Parks (Plan.emit a.ip_address c.settings e s.plan) s

  file_part-Parks : (pair : Value × String) → Parks (file_part a c pair)
  unfolding file_part
  file_part-Parks (ref, stem) =
      proceed-Parks (on_assets (image_bytes a c.settings ref)) (part_of a c stem) (λ s. refl)
        (λ raw s. refl)

  send_edit-Parks :
      (payload : Fields) (refs : List Value) (parts : List FilePart)
      → Parks (send_edit a c payload refs parts)
  unfolding send_edit
  send_edit-Parks payload refs parts =
      proceed-Parks (lift (edits_url a c))
        (λ url s.
          proceed (emit a c (emission url (files_of payload refs parts)) s).0
            (λ nothing. pure (dict (text_fields c.show payload)))
            (emit a c (emission url (files_of payload refs parts)) s).1)
        (λ s. refl)
        (λ url.
          proceed-Parks (emit a c (emission url (files_of payload refs parts)))
            (λ nothing. pure (dict (text_fields c.show payload)))
            (emit-Parks (emission url (files_of payload refs parts))) (λ nothing s. refl))

  edit-Parks : (payload : Fields) (refs : List Value) → Parks (edit a c payload refs)
  unfolding edit
  edit-Parks payload refs =
      proceed-Parks
        (fan_out c.settings.fanout_concurrency (file_part a c)
          (stems c.show 0 refs ++ mask_of payload))
        (send_edit a c payload refs)
        (fan_out-Parks (file_part a c) file_part-Parks c.settings.fanout_concurrency
          (stems c.show 0 refs ++ mask_of payload))
        (send_edit-Parks payload refs)

  -- what a request phase leaves parked, however it ends
  ask-parked :
      (payload : Fields) (s : ScriptState St)
      → (ask a c payload s).1.parked ≡ (park a c (requested_format payload) s).parked
  unfolding ask
  ask-parked payload s = elim (Bool-cases (truthy (get_or_null "image" payload))) [
    | inl image ↦ rw image (
        edit-Parks payload (refs_of (get_or_null "image" payload))
          (park a c (requested_format payload) s))
    | inr none_given ↦ rw none_given refl
  ]

  lookup-park :
      (other : String) (format : Option String) (s : ScriptState St)
      → c.request_id ≢ other
      → lookup other (park a c format s).parked ≡ lookup other s.parked
  unfolding park
  lookup-park other none s differs = refl
  lookup-park other (some format) s differs =
      ground (arith, lookup-insert c.request_id other format s.parked, eq_iff c.request_id other)

  ask_value-others :
      (other : String) (payload : Value) (s : ScriptState St)
      → c.request_id ≢ other
      → lookup other (ask_value a c payload s).1.parked ≡ lookup other s.parked
  unfolding ask_value
  ask_value-others other (dict payload) s differs =
      ap (lookup other) (ask-parked payload s)
      ∙ lookup-park other (requested_format payload) s differs
  ask_value-others other payload s differs = refl

  respond-others :
      (other : String) (payload : Value) (s : ScriptState St)
      → c.request_id ≢ other
      → lookup other (respond a c payload s).1.parked ≡ lookup other s.parked
  unfolding respond
  respond-others other payload s differs =
      ground (arith, lookup-remove c.request_id other s.parked, eq_iff c.request_id other)

  -- a phase of a request leaves what another has parked
  transform-others :
      (other : String) (payload : Value) (phase : String) (s : ScriptState St)
      → c.request_id ≢ other
      → lookup other (transform a c payload phase s).1.parked ≡ lookup other s.parked
  unfolding transform
  transform-others other payload phase s differs = elim (Bool-cases (phase == "request")) [
    | inl asks ↦ rw asks (ask_value-others other payload s differs)
    | inr answers ↦ rw answers (respond-others other payload s differs)
  ]

-- A phase of some request.
pub record Call : Type 0 where
  pub context : ScriptContext
  pub payload : Value
  pub phase : String

module _ {St : Type 0} (a : Assets St) where
  -- the state after some phases
  pub after_calls : List Call → ScriptState St → ScriptState St
  after_calls [] s = s
  after_calls (call ∷ calls) s =
      after_calls calls (transform a call.context call.payload call.phase s).1

  after_calls-others :
      (id : String) (calls : List Call) (s : ScriptState St)
      → All (λ call. call.context.request_id ≢ id) calls
      → lookup id (after_calls calls s).parked ≡ lookup id s.parked
  unfolding after_calls
  after_calls-others id [] s differ = refl
  after_calls-others id (call ∷ calls) s (differs, differ) =
      after_calls-others id calls (transform a call.context call.payload call.phase s).1 differ
      ∙ transform-others a call.context id call.payload call.phase s differs

  module _ (c : ScriptContext) where
    asked-parked :
        (format : Option String) (s : ScriptState St)
        → lookup c.request_id s.parked ≡ none
        → lookup c.request_id (park a c format s).parked ≡ format
    unfolding park
    asked-parked none s fresh = fresh
    asked-parked (some format) s fresh =
        ground
          (arith, lookup-insert c.request_id c.request_id format s.parked, eq_refl c.request_id)

    -- Whatever phases of other requests run between the request phase and the response phase of a
    -- request, the response phase answers by the format that its own client asked for (or by none),
    -- and leaves nothing parked for the request; if nothing was parked for it before.
    pub transform-parked :
        (payload : Fields) (reply : Value) (calls : List Call) (s : ScriptState St)
        → All (λ call. call.context.request_id ≢ c.request_id) calls
        → lookup c.request_id s.parked ≡ none
        → let later = after_calls calls (transform a c (dict payload) "request" s).1 in
          (transform a c reply "response" later
            ≡ on_assets (answer a c (requested_format payload) reply) (unpark a c later))
          × (lookup c.request_id (transform a c reply "response" later).1.parked ≡ none)
    unfolding transform respond ask_value
    transform-parked payload reply calls s differ fresh =
        let asked = (ask a c payload s).1 in
        let later = after_calls calls asked in
        let format : lookup c.request_id later.parked ≡ requested_format payload =
          after_calls-others c.request_id calls asked differ
          ∙ ap (lookup c.request_id) (ask-parked a c payload s)
          ∙ asked-parked (requested_format payload) s fresh in
        (
          rw format refl,
          lookup-remove c.request_id c.request_id later.parked ∙ rw (eq_refl c.request_id) refl,
        )
