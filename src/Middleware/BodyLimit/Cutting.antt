-- ===== src/Middleware/BodyLimit/Cutting.antt =====
-- Where the cap cuts an application off.
use image_adapter.Base.{
  ℕ, ◌+◌, ◌≤◌, ◌<◌, ◌≡◌, refl, sym, ◌∙◌, ◌⊎◌, inl, inr, List, [], ◌∷◌, ◌++◌, ltb, Bool-cases, arith,
}
use mathlib.Core.List.{append_assoc, append-nil}
use image_adapter.Middleware.BodyLimit.{
  Message, Sent, App, finish, fail, receive, send, body_too_large, Run, body_size, next_message,
  later_messages, plain, capped,
}

-- A part of a run: what the application sends in it, how many bytes it is given, and where it gets.
pub data Runs : App → List Message → List Sent → ℕ → App → List Message → Type 0 where
  here : (app : App) (ms : List Message) → Runs app ms [] 0 app ms
  received :
      (k : Message → App) (ms left : List Message) (sent : List Sent) (given : ℕ) (later : App)
      → Runs (k (next_message ms)) (later_messages ms) sent given later left
      → Runs (receive k) ms sent (body_size (next_message ms) + given) later left
  sends :
      (m : Sent) (app : App) (ms left : List Message) (sent : List Sent) (given : ℕ) (later : App)
      → Runs app ms sent given later left
      → Runs (send m app) ms (m ∷ sent) given later left

-- The application gets to a receive that would take it over the limit, which it has not passed before.
pub record IsCutAt (limit : ℕ) (app : App) (ms : List Message) (sent : List Sent) (given : ℕ)
    : Type 0 where
  pub waiting : Message → App
  pub left : List Message
  pub until : Runs app ms sent given (receive waiting) left
  pub within : given ≤ limit
  pub beyond : limit < given + body_size (next_message left)

-- the run of the application behind the cap, from a point where `sent` and `given` are behind it
abbrev pub Cuts : ℕ → App → List Message → List Sent → ℕ → Run → Run → Type 0
Cuts limit app ms sent given run alone =
    ((run ≡ alone) × (alone.given ≤ limit))
    ⊎ ((more : List Sent) × (extra : ℕ) × (waiting : Message → App) × (left : List Message) × (run
          ≡ record { ended = body_too_large; sent = sent ++ more; given = given + extra })
        × Runs app ms more extra (receive waiting) left
        × (given + extra ≤ limit)
        × (limit < given + extra + body_size (next_message left)))

pub run_at :
    {sent more : List Sent} {given extra : ℕ}
    → sent ≡ more
    → given ≡ extra
    → Path Run
        (record { ended = body_too_large; sent = sent; given = given })
        (record { ended = body_too_large; sent = more; given = extra })
run_at e f = cc

cut_here :
    (limit : ℕ) (sent : List Sent) (given : ℕ)
    → Path Run
        (record { ended = body_too_large; sent = sent; given = given })
        (record { ended = body_too_large; sent = sent ++ []; given = given + 0 })
cut_here limit sent given = run_at (sym (append-nil sent)) (omega arith)

received_first :
    (limit : ℕ) (k : Message → App) (ms : List Message) (sent : List Sent) (given : ℕ)
    (run alone : Run)
    → Cuts limit
        (k (next_message ms))
        (later_messages ms)
        sent
        (given + body_size (next_message ms))
        run
        alone
    → Cuts limit (receive k) ms sent given run alone
received_first limit k ms sent given run alone (inl same) = inl same
received_first limit k ms sent given run alone
      (inr (more, extra, waiting, left, e, runs, within, beyond)) =
    inr (
      more,
      body_size (next_message ms) + extra,
      waiting,
      left,
      e ∙ run_at refl (omega arith),
      received k ms left more extra (receive waiting) runs,
      omega (arith, within),
      omega (arith, beyond),
    )

sent_first :
    (limit : ℕ) (m : Sent) (app : App) (ms : List Message) (sent : List Sent) (given : ℕ)
    (run alone : Run)
    → Cuts limit app ms (sent ++ m ∷ []) given run alone
    → Cuts limit (send m app) ms sent given run alone
sent_first limit m app ms sent given run alone (inl same) = inl same
sent_first limit m app ms sent given run alone
      (inr (more, extra, waiting, left, e, runs, within, beyond)) =
    inr (
      m ∷ more,
      extra,
      waiting,
      left,
      e ∙ run_at (append_assoc sent (m ∷ []) more) refl,
      sends m app ms left more extra (receive waiting) runs,
      within,
      beyond,
    )

pub capped-Cuts :
    (limit : ℕ) (app : App) (ms : List Message) (sent : List Sent) (given : ℕ)
    → given ≤ limit
    → Cuts limit app ms sent given (capped limit app ms sent given) (plain app ms sent given)
unfolding capped plain
capped-Cuts limit finish ms sent given h = inl (refl, h)
capped-Cuts limit fail ms sent given h = inl (refl, h)
capped-Cuts limit (receive k) ms sent given h =
    let next = next_message ms in
    let total = given + body_size next in
    elim (Bool-cases (ltb limit total)) [
      | inl over ↦
          let more : limit < total = ground arith in
          rw over (
            inr (
              [],
              0,
              k,
              ms,
              cut_here limit sent given,
              here (receive k) ms,
              omega arith,
              omega (arith, more),
            ))
      | inr fits ↦ rw fits (
          received_first limit k ms sent given _ _
            (capped-Cuts limit (k next) (later_messages ms) sent total (ground arith)))
    ]
capped-Cuts limit (send m app) ms sent given h =
    sent_first limit m app ms sent given _ _ (capped-Cuts limit app ms (sent ++ m ∷ []) given h)
