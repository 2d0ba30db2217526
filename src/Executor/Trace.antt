-- ===== src/Executor/Trace.antt =====
-- What a run of the engine logs: the phases and the calls of the single-call path, in their order.
use image_adapter.Base.{◌≡◌, ◌∙◌, refl, sym, ap, String, List, [], ◌∷◌, ◌++◌}
use mathlib.Core.List.{append_assoc, append-nil}
use image_adapter.Errors.{AdapterError, Result, ok, err, crash}
use image_adapter.Value.{Value}
use image_adapter.Engine.{Outside, Event, phase, World, Exec, ◌>>=◌, proceed}
use image_adapter.Upstream.{call_phase}

-- A property of how a step ends and of what it logs.
abbrev pub Logs : Type 0 → Type 1
Logs A = Result A → List Event → Type 0

-- Every run of `m` ends and logs as `P` allows.
abbrev pub Keeps : {St A : Type 0} → Logs A → Exec (World St) A → Type 0
Keeps P m = (w : _) → (es : List Event) × ((m w).1.events ≡ w.events ++ es) × P (m w).0 es

-- A step that logs nothing.
pub data Silent {A : Type 0} : Result A → List Event → Type 0 where
  silent : (r : Result A) → Silent r []

-- A step that runs one phase.
pub data RunsPhase (name : String) : Result Value → List Event → Type 0 where
  ran : (r : Result Value) → RunsPhase name r (phase name ∷ [])

-- A step and the one that follows it if it succeeds.
pub data Then {A B : Type 0} (P : Result A → List Event → Type 0)
    (Q : Result B → List Event → Type 0) : Result B → List Event → Type 0 where
  went_on :
      (a : A) (es fs : List Event) (r : Result B) → P (ok a) es → Q r fs → Then P Q r (es ++ fs)
  stopped : (e : AdapterError) (es : List Event) → P (err e) es → Then P Q (err e) es
  crashed : (es : List Event) → P crash es → Then P Q crash es

proceed-Keeps :
    {St A B : Type 0} (P : Logs A) (Q : Logs B) (f : A → Exec (World St) B) (v w : World St)
    (r : Result A) (es : List Event)
    → w.events ≡ v.events ++ es
    → P r es
    → ((a : A) → Keeps Q (f a))
    → (fs : List Event) × ((proceed r f w).1.events ≡ v.events ++ fs)
      × Then P Q (proceed r f w).0 fs
proceed-Keeps P Q f v w (ok a) es e p h =
    let (fs, e2, q) = h a w in
    (
      es ++ fs,
      e2 ∙ ap (λ x. x ++ fs) e ∙ append_assoc v.events es fs,
      went_on a es fs (f a w).0 p q,
    )
proceed-Keeps P Q f v w (err x) es e p h = (es, e, stopped x es p)
proceed-Keeps P Q f v w crash es e p h = (es, e, crashed es p)

pub Keeps->>= :
    {St A B : Type 0} (P : Logs A) (Q : Logs B) (m : Exec (World St) A) (f : A → Exec (World St) B)
    → Keeps P m
    → ((a : A) → Keeps Q (f a))
    → Keeps (Then P Q) (m >>= f)
Keeps->>= P Q m f hm hf w = let (es, e, p) = hm w in proceed-Keeps P Q f w (m w).1 (m w).0 es e p hf

pub Keeps-weaken :
    {St A : Type 0} (P Q : Logs A) (m : Exec (World St) A)
    → ((r : Result A) (es : List Event) → P r es → Q r es)
    → Keeps P m
    → Keeps Q m
Keeps-weaken P Q m h k w = let (es, e, p) = k w in (es, e, h (m w).0 es p)

-- a step that does not touch the log
pub Keeps-Silent :
    {St A : Type 0} (m : Exec (World St) A)
    → ((w : World St) → (m w).1.events ≡ w.events)
    → Keeps (Silent) m
Keeps-Silent m h w = ([], h w ∙ sym (append-nil w.events), silent (m w).0)

pub call_phase-Keeps :
    (o : Outside) (v : Value) (name : String) → Keeps (RunsPhase name) (call_phase o v name)
unfolding call_phase
call_phase-Keeps o v name w = (phase name ∷ [], refl, ran (call_phase o v name w).0)
