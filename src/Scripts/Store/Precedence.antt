-- ===== src/Scripts/Store/Precedence.antt =====
-- Which backend serves a ref.
use image_adapter.Base.{
  String, Option, none, some, List, [], ◌∷◌, All, inl, inr, ◌⊎◌, ◌≡◌, refl, ap, ◌∙◌,
}
use mathlib.Core.Path.{subst}
use image_adapter.Errors.{ok-injective, ok, >>=-inversion}
use image_adapter.Scripts.Ref.{ParsedRef}
use image_adapter.Scripts.Store.{
  ServedScript, ScriptStore, or_next, first_hit, stable_ref, served_as, found_as, fall_back,
  hit_or_fall_back, or_not_found, serve, load,
}

-- The first backend that has the ref has this text; those before it do not have the ref.
abbrev pub IsFirst : List ScriptStore → ParsedRef → String → Type 0
IsFirst [] ref text = ⊥
IsFirst (backend ∷ backends) ref text =
    (backend ref ≡ ok (some text)) ⊎ ((backend ref ≡ ok none) × IsFirst backends ref text)

abbrev pub IsNowhere : List ScriptStore → ParsedRef → Type 0
IsNowhere backends ref = All (λ backend. backend ref ≡ ok none) backends

abbrev IsAnswer : List ScriptStore → ParsedRef → Option String → Type 0
IsAnswer backends ref (some text) = IsFirst backends ref text
IsAnswer backends ref none = IsNowhere backends ref

some-injective : {A : Type 0} {a b : A} → Path (Option A) (some a) (some b) → a ≡ b
some-injective h = cc

hit_or_next :
    (backend : ScriptStore) (backends : List ScriptStore) (ref : ParsedRef)
    (found answer : Option String)
    → ((a : Option String) → first_hit backends ref ≡ ok a → IsAnswer backends ref a)
    → backend ref ≡ ok found
    → or_next found (first_hit backends ref) ≡ ok answer
    → IsAnswer (backend ∷ backends) ref answer
hit_or_next backend backends ref (some text) answer rest e k =
    subst (IsAnswer (backend ∷ backends) ref) (ok-injective k) (inl e)
hit_or_next backend backends ref none (some text) rest e k = inr (e, rest (some text) k)
hit_or_next backend backends ref none none rest e k = (e, rest none k)

first_hit-IsAnswer :
    (backends : List ScriptStore) (ref : ParsedRef) (answer : Option String)
    → first_hit backends ref ≡ ok answer
    → IsAnswer backends ref answer
unfolding first_hit
first_hit-IsAnswer [] ref (some text) h = absurd (cc)
first_hit-IsAnswer [] ref none h = tt
first_hit-IsAnswer (backend ∷ backends) ref answer h =
    >>=-inversion (backend ref) (λ found. or_next found (first_hit backends ref)) h
      λ found e k.
        hit_or_next backend backends ref found answer (first_hit-IsAnswer backends ref) e k

-- a ref that is served: as it is, or by its fallback
abbrev pub IsServed : List ScriptStore → ParsedRef → ServedScript → Type 0
IsServed backends ref served =
    (IsFirst backends ref served.text × (served ≡ served_as ref ref served.text))
    ⊎ (IsNowhere backends ref
        × ((fallback : ParsedRef) × (stable_ref ref ≡ some fallback)
            × IsFirst backends fallback served.text
            × (served ≡ served_as ref fallback served.text)))

found_as-IsServed :
    (backends : List ScriptStore) (ref fallback : ParsedRef) (served : ServedScript)
    (text : Option String)
    → IsNowhere backends ref
    → stable_ref ref ≡ some fallback
    → IsAnswer backends fallback text
    → found_as ref fallback text ≡ ok (some served)
    → IsServed backends ref served
found_as-IsServed backends ref fallback served (some found) nowhere stable here h =
    subst (IsServed backends ref) (some-injective (ok-injective h))
      (inr (nowhere, (fallback, stable, here, refl)))
found_as-IsServed backends ref fallback served none nowhere stable here h = absurd (cc)

fall_back-IsServed :
    (backends : List ScriptStore) (ref : ParsedRef) (served : ServedScript)
    (stable : Option ParsedRef)
    → IsNowhere backends ref
    → stable_ref ref ≡ stable
    → fall_back backends ref stable ≡ ok (some served)
    → IsServed backends ref served
fall_back-IsServed backends ref served none nowhere e h = absurd (cc)
fall_back-IsServed backends ref served (some fallback) nowhere e h =
    >>=-inversion (first_hit backends fallback) (found_as ref fallback) h λ text there k.
      found_as-IsServed backends ref fallback served text nowhere e
        (first_hit-IsAnswer backends fallback text there) k

hit_or_fall_back-IsServed :
    (backends : List ScriptStore) (ref : ParsedRef) (served : ServedScript) (text : Option String)
    → IsAnswer backends ref text
    → hit_or_fall_back backends ref text ≡ ok (some served)
    → IsServed backends ref served
hit_or_fall_back-IsServed backends ref served (some text) here h =
    subst (IsServed backends ref) (some-injective (ok-injective h)) (inl (here, refl))
hit_or_fall_back-IsServed backends ref served none nowhere h =
    fall_back-IsServed backends ref served (stable_ref ref) nowhere refl h

found_some :
    (found : Option ServedScript) (served : ServedScript)
    → or_not_found found ≡ ok served
    → found ≡ some served
found_some none served h = absurd (cc)
found_some (some s) served h = ap (λ x. some x) (ok-injective h)

-- What the chain serves is the text of the first backend that has the ref, in their order. Only where no
-- backend has it, and the ref names a version other than `stable`, is it the text of the first backend
-- that has the ref at `@stable`, and `served` then says so.
pub load-IsServed :
    (backends : List ScriptStore) (ref : ParsedRef) (served : ServedScript)
    → load backends ref ≡ ok served
    → IsServed backends ref served
unfolding load serve
load-IsServed backends ref served h = >>=-inversion (serve backends ref) or_not_found h λ found e k.
    >>=-inversion (first_hit backends ref) (hit_or_fall_back backends ref)
      (e ∙ ap (λ x. ok x) (found_some found served k))
      λ text there m.
        hit_or_fall_back-IsServed backends ref served text
          (first_hit-IsAnswer backends ref text there) m
