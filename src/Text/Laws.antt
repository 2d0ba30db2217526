-- ===== src/Text/Laws.antt =====
-- Laws of stripping, splitting and partitioning.
use Prim.Native.Char.{Char, code}
use Prim.Native.String.{[], ◌∷◌}
use image_adapter.Base.{
  ℕ, String, ◌≡◌, refl, false, true, inl, inr, List, [], ◌∷◌, arith, eqb, eqb_iff, All, Bool-cases,
}
use image_adapter.Text.{
  is_space, lstrip, rstrip, strip, before_stripped, push_head, split, partition, has_char, append,
  blank,
}

-- No white space at either end.
abbrev pub HeadSolid : String → Type 0
HeadSolid [] = Unit
HeadSolid (c ∷ s) = is_space c ≡ false

before_stripped_idem :
    (c : Char) (s : String) → rstrip s ≡ s → rstrip (before_stripped c s) ≡ before_stripped c s
unfolding rstrip
before_stripped_idem c [] h = elim (Bool-cases (is_space c)) [
  | inl white ↦ rw white
  | inr solid ↦ rw (solid, rstrip) (rw solid)
]
before_stripped_idem c (d ∷ s) h = rw h

rstrip_idem : (s : String) → rstrip (rstrip s) ≡ rstrip s
unfolding rstrip
rstrip_idem [] = refl
rstrip_idem (c ∷ s) = before_stripped_idem c (rstrip s) (rstrip_idem s)

lstrip-HeadSolid : (s : String) → HeadSolid (lstrip s)
unfolding lstrip
lstrip-HeadSolid [] = tt
lstrip-HeadSolid (c ∷ s) = ground (arith, lstrip-HeadSolid s)

lstrip_of_HeadSolid : (s : String) → HeadSolid s → lstrip s ≡ s
unfolding lstrip
lstrip_of_HeadSolid [] h = refl
lstrip_of_HeadSolid (c ∷ s) h = rw h

before_stripped-HeadSolid :
    (c : Char) (s : String) → is_space c ≡ false → HeadSolid (before_stripped c s)
before_stripped-HeadSolid c [] h = rw h h
before_stripped-HeadSolid c (d ∷ s) h = h

rstrip-HeadSolid : (s : String) → HeadSolid s → HeadSolid (rstrip s)
unfolding rstrip
rstrip-HeadSolid [] h = tt
rstrip-HeadSolid (c ∷ s) h = before_stripped-HeadSolid c (rstrip s) h

-- Stripping a second time changes nothing.
pub strip_idem : (s : String) → strip (strip s) ≡ strip s
unfolding strip
strip_idem s =
    rw (lstrip_of_HeadSolid (rstrip (lstrip s)) (rstrip-HeadSolid (lstrip s) (lstrip-HeadSolid s)))
      (rstrip_idem (lstrip s))

-- The character `k` does not occur.
abbrev pub Lacks : ℕ → String → Type 0
Lacks k s = has_char k s ≡ false

push_head-Lacks :
    (k : ℕ) (c : Char) (ws : List String)
    → eqb (code c) k ≡ false
    → All (Lacks k) ws
    → All (Lacks k) (push_head c ws)
unfolding has_char
push_head-Lacks k c [] h a = (rw h refl, tt)
push_head-Lacks k c (w ∷ ws) h (p, a) = (rw h p, a)

-- No piece of a split holds the separator.
pub split-Lacks : (k : ℕ) (s : String) → All (Lacks k) (split k s)
unfolding split
split-Lacks k [] = (unfold has_char in refl, tt)
split-Lacks k (c ∷ s) = elim (Bool-cases (eqb (code c) k)) [
  | inl here ↦ rw here (unfold has_char in refl, split-Lacks k s)
  | inr other ↦ rw other (push_head-Lacks k c (split k s) other (split-Lacks k s))
]

-- A text that holds the separator nowhere is one piece.
pub split_of_Lacks : (k : ℕ) (s : String) → Lacks k s → split k s ≡ s ∷ []
unfolding split has_char
split_of_Lacks k [] h = refl
split_of_Lacks k (c ∷ s) h = ground (arith, split_of_Lacks k s)

-- The head of a partition does not hold the separator.
pub partition-Lacks : (k : ℕ) (s : String) → Lacks k (partition k s).head
unfolding partition has_char
partition-Lacks k [] = refl
partition-Lacks k (c ∷ s) = elim (Bool-cases (eqb (code c) k)) [
  | inl here ↦ rw here
  | inr other ↦ rw other (rw other (partition-Lacks k s))
]

-- A text that stripping leaves alone, and that is not empty.
pub record IsTrimmed (s : String) : Type 0 where
  pub head : HeadSolid s
  pub last : rstrip s ≡ s
  pub filled : blank s ≡ false

pub strip_of_IsTrimmed : (s : String) → IsTrimmed s → strip s ≡ s
unfolding strip
strip_of_IsTrimmed s t = rw (lstrip_of_HeadSolid s t.head) t.last

append-filled : (s t : String) → blank t ≡ false → blank (append s t) ≡ false
append-filled [] t h = h
append-filled (c ∷ s) t h = refl

before_stripped_filled : (c : Char) (s : String) → blank s ≡ false → before_stripped c s ≡ c ∷ s
before_stripped_filled c [] h = cc
before_stripped_filled c (d ∷ s) h = refl

rstrip-append : (s t : String) → blank t ≡ false → rstrip t ≡ t → rstrip (append s t) ≡ append s t
unfolding rstrip
rstrip-append [] t f h = h
rstrip-append (c ∷ s) t f h =
    rw (rstrip-append s t f h) (before_stripped_filled c (append s t) (append-filled s t f))

append-HeadSolid : (s t : String) → blank s ≡ false → HeadSolid s → HeadSolid (append s t)
append-HeadSolid [] t f h = absurd (cc)
append-HeadSolid (c ∷ s) t f h = h

-- Two trimmed texts with one character between them are trimmed.
pub append-IsTrimmed :
    (s t : String) (c : Char) → IsTrimmed s → IsTrimmed t → IsTrimmed (append s (c ∷ t))
append-IsTrimmed s t c a b = record {
  head = append-HeadSolid s (c ∷ t) a.filled a.head;
  last =
      rstrip-append s (c ∷ t) refl
        (unfold rstrip in rw b.last (before_stripped_filled c t b.filled));
  filled = append-filled s (c ∷ t) refl;
}

pub partition-append :
    (s t : String) (c : Char)
    → Lacks (code c) s
    → partition (code c) (append s (c ∷ t)) ≡ record { head = s; found = true; tail = t }
unfolding partition has_char
partition-append [] t c h = rw ((eqb_iff (code c) (code c)).1 refl)
partition-append (d ∷ s) t c h = elim (Bool-cases (eqb (code d) (code c))) [
  | inl same ↦ absurd (ground arith)
  | inr other ↦ rw (other, partition-append s t c (rw other at h))
]

pub split-append :
    (s t : String) (c : Char)
    → Lacks (code c) s
    → split (code c) (append s (c ∷ t)) ≡ s ∷ split (code c) t
unfolding split has_char
split-append [] t c h = rw ((eqb_iff (code c) (code c)).1 refl)
split-append (d ∷ s) t c h = elim (Bool-cases (eqb (code d) (code c))) [
  | inl same ↦ absurd (ground arith)
  | inr other ↦ rw (other, split-append s t c (rw other at h))
]

pub Lacks-append : (k : ℕ) (s t : String) → Lacks k s → Lacks k t → Lacks k (append s t)
unfolding has_char
Lacks-append k [] t h g = g
Lacks-append k (c ∷ s) t h g = ground (arith, Lacks-append k s t)

before_stripped_solid :
    (c : Char) (s : String) → is_space c ≡ false → blank (before_stripped c s) ≡ false
before_stripped_solid c [] h = rw h
before_stripped_solid c (d ∷ s) h = refl

-- What starts with a trimmed text is not blank.
pub strip_filled_of_head : (s t : String) → IsTrimmed s → blank (strip (append s t)) ≡ false
unfolding strip rstrip lstrip
strip_filled_of_head [] t h = absurd (cc h.filled)
strip_filled_of_head (c ∷ s) t h = rw h.head (before_stripped_solid c (rstrip (append s t)) h.head)
