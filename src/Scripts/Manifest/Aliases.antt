-- ===== src/Scripts/Manifest/Aliases.antt =====
-- What an alias resolves to.
use image_adapter.Base.{
  ℕ, zero, suc, ◌≤◌, ◌<◌, String, false, Option, none, some, List, [], ◌∷◌, ◌==◌, Assoc, lookup,
  elem, All, Bool-cases, Option-cases, inl, inr, ◌↔◌, ◌≡◌, refl, sym, ap, ◌∙◌, arith, eq_iff,
}
use mathlib.Core.Path.{subst}
use image_adapter.Scripts.Manifest.{
  ManifestEntry, max_alias_depth, follow, first_name, resolve_version,
}

-- `n` aliases lead from a name to a version that is no alias.
abbrev pub IsChain : Assoc String → ℕ → String → String → Type 0
IsChain aliases zero name version = (name ≡ version) × (lookup name aliases ≡ none)
IsChain aliases (suc n) name version =
    (next : String) × (lookup name aliases ≡ some next) × IsChain aliases n next version

some-injective : {A : Type 0} {a b : A} → Path (Option A) (some a) (some b) → a ≡ b
some-injective h = cc

IsChain-unique :
    (aliases : Assoc String) (n m : ℕ) (name version other : String)
    → IsChain aliases n name version
    → IsChain aliases m name other
    → n ≡ m
IsChain-unique aliases zero zero name version other a b = refl
IsChain-unique aliases zero (suc m) name version other (a, bare) (next, there, b) =
    absurd (cc (bare, there))
IsChain-unique aliases (suc n) zero name version other (next, there, a) (b, bare) =
    absurd (cc (bare, there))
IsChain-unique aliases (suc n) (suc m) name version other (next, there, a) (next2, there2, b) =
    let same : next2 ≡ next = some-injective (sym there2 ∙ there) in
    ap (λ k. suc k)
      (IsChain-unique aliases n m next version other a
        (subst (λ x. IsChain aliases m x other) same b))

follow_bare :
    (aliases : Assoc String) (seen : List String) (left : ℕ) (name : String)
    → lookup name aliases ≡ none
    → follow aliases seen left name ≡ some name
unfolding follow
follow_bare aliases seen zero name bare = ground (arith, bare)
follow_bare aliases seen (suc left) name bare = ground (arith, bare)

follow_step :
    (aliases : Assoc String) (seen : List String) (left : ℕ) (name next : String)
    → lookup name aliases ≡ some next
    → elem name seen ≡ false
    → follow aliases seen (suc left) name ≡ follow aliases (name ∷ seen) left next
unfolding follow
follow_step aliases seen left name next there fresh = ground (arith, there, fresh)

follow-IsChain :
    (aliases : Assoc String) (seen : List String) (left : ℕ) (name version : String)
    → follow aliases seen left name ≡ some version
    → (n : ℕ) × (n ≤ left) × IsChain aliases n name version
unfolding follow
follow-IsChain aliases seen zero name version h = elim (Option-cases (lookup name aliases)) [
  | inl bare ↦
      (0, omega arith, (some-injective (sym (follow_bare aliases seen zero name bare) ∙ h), bare))
  | inr (next, there) ↦ absurd (ground (arith, h, there))
]
follow-IsChain aliases seen (suc left) name version h = elim (Option-cases (lookup name aliases)) [
  | inl bare ↦ (
    0,
    omega arith,
    (some-injective (sym (follow_bare aliases seen (suc left) name bare) ∙ h), bare),
  )
  | inr (next, there) ↦ elim (Bool-cases (elem name seen)) [
    | inl cycle ↦ absurd (ground (arith, h, there, cycle))
    | inr fresh ↦
        let (n, short, chain) =
          follow-IsChain aliases (name ∷ seen) left next version
            (sym (follow_step aliases seen left name next there fresh) ∙ h) in
        (suc n, omega (arith, short), (next, there, chain))
  ]
]

-- names that lead to the version by more than `n` aliases
abbrev IsBehind : Assoc String → ℕ → String → List String → Type 0
IsBehind aliases n version = All (λ name. (m : ℕ) × (n < m) × IsChain aliases m name version)

IsBehind-later :
    (aliases : Assoc String) (n : ℕ) (version : String) (seen : List String)
    → IsBehind aliases (suc n) version seen
    → IsBehind aliases n version seen
IsBehind-later aliases n version [] h = tt
IsBehind-later aliases n version (s ∷ seen) ((m, longer, chain), rest) =
    ((m, omega (arith, longer), chain), IsBehind-later aliases n version seen rest)

-- a name with `n` aliases to go was not seen before
IsBehind-fresh :
    (aliases : Assoc String) (n : ℕ) (name version : String) (seen : List String)
    → IsChain aliases n name version
    → IsBehind aliases n version seen
    → elem name seen ≡ false
IsBehind-fresh aliases n name version [] chain h = refl
IsBehind-fresh aliases n name version (s ∷ seen) chain ((m, longer, other), rest) =
    elim (Bool-cases (s == name)) [
      | inl same ↦
          let again = subst (λ x. IsChain aliases m x version) ((eq_iff s name).0 same) other in
          absurd
            (omega (arith, longer, IsChain-unique aliases n m name version version chain again))
      | inr differs ↦ rw differs (IsBehind-fresh aliases n name version seen chain rest)
    ]

IsChain-follow :
    (aliases : Assoc String) (seen : List String) (left n : ℕ) (name version : String)
    → n ≤ left
    → IsChain aliases n name version
    → IsBehind aliases n version seen
    → follow aliases seen left name ≡ some version
unfolding follow
IsChain-follow aliases seen zero zero name version h (same, bare) behind =
    follow_bare aliases seen zero name bare ∙ ap (λ x. some x) same
IsChain-follow aliases seen zero (suc n) name version h chain behind = absurd (omega (arith, h))
IsChain-follow aliases seen (suc left) zero name version h (same, bare) behind =
    follow_bare aliases seen (suc left) name bare ∙ ap (λ x. some x) same
IsChain-follow aliases seen (suc left) (suc n) name version h (next, there, chain) behind =
    follow_step aliases seen left name next there
      (IsBehind-fresh aliases (suc n) name version seen (next, there, chain) behind)
    ∙ (IsChain-follow aliases (name ∷ seen) left n next version (omega (arith, h)) chain
        ((suc n, omega arith, (next, there, chain)), IsBehind-later aliases n version seen behind))

-- A name resolves to a version exactly when at most eight aliases lead from it (for `latest`, where it
-- is no alias, from the declared latest version) to that version, and the version is no alias. So a
-- cycle of aliases resolves to nothing, and the loop ends.
pub resolve_version-IsChain_iff :
    (entry : ManifestEntry) (name version : String)
    → (resolve_version entry name ≡ some version)
      ↔ ((n : ℕ) × (n ≤ max_alias_depth) × IsChain entry.aliases n (first_name entry name) version)
unfolding resolve_version
resolve_version-IsChain_iff entry name version = (
  λ h. follow-IsChain entry.aliases [] max_alias_depth (first_name entry name) version h,
  λ (n, short, chain).
      IsChain-follow entry.aliases [] max_alias_depth n (first_name entry name) version short chain
        tt,
)
