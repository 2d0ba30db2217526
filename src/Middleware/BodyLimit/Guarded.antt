-- ===== src/Middleware/BodyLimit/Guarded.antt =====
-- What the body limit does to a run.
use image_adapter.Base.{
  ℕ, ◌+◌, ◌≤◌, ◌<◌, ◌≡◌, ◌≢◌, refl, ◌∙◌, ◌⊎◌, inl, inr, String, true, false, Option, List, [], ◌∷◌,
  ◌++◌, leb, ◌==◌, Bool-cases, arith,
}
use image_adapter.Value.{ℤ}
use image_adapter.Settings.{Settings}
use image_adapter.Middleware.BodyLimit.{
  Message, Sent, App, finish, fail, receive, send, Ended, finished, failed, body_too_large, Run,
  body_size, next_message, later_messages, plain, capped, has_started, rejection, Scope,
  declared_over_limit, settle_as, settle, body_limit,
}
use image_adapter.Middleware.BodyLimit.Cutting.{IsCutAt, Cuts, run_at, capped-Cuts}

-- How a request ends that the limit is in force for.
pub data Guarded (int_of : String → Option ℤ) (limit : ℕ) (scope : Scope) (app : App)
    (ms : List Message) : Run → Type 0 where
  refused :
      declared_over_limit int_of scope limit ≡ true
      → Guarded int_of limit scope app ms (record { ended = finished; sent = rejection; given = 0 })
  let_through :
      declared_over_limit int_of scope limit ≡ false
      → (plain app ms [] 0).given ≤ limit
      → Guarded int_of limit scope app ms (plain app ms [] 0)
  answered :
      (sent : List Sent) (given : ℕ)
      → declared_over_limit int_of scope limit ≡ false
      → IsCutAt limit app ms sent given
      → has_started sent ≡ false
      → Guarded int_of limit scope app ms
          (record { ended = finished; sent = sent ++ rejection; given = given })
  raised :
      (sent : List Sent) (given : ℕ)
      → declared_over_limit int_of scope limit ≡ false
      → IsCutAt limit app ms sent given
      → has_started sent ≡ true
      → Guarded int_of limit scope app ms
          (record { ended = body_too_large; sent = sent; given = given })

plain_unsignalled :
    (app : App) (ms : List Message) (sent : List Sent) (given : ℕ)
    → (plain app ms sent given).ended ≢ body_too_large
unfolding plain
plain_unsignalled finish ms sent given h = cc
plain_unsignalled fail ms sent given h = cc
plain_unsignalled (receive k) ms sent given h =
    plain_unsignalled (k (next_message ms)) (later_messages ms) sent
      (given + body_size (next_message ms)) h
plain_unsignalled (send m app) ms sent given h = plain_unsignalled app ms (sent ++ m ∷ []) given h

ended_cases : (e : Ended) → (e ≡ finished) ⊎ ((e ≡ failed) ⊎ (e ≡ body_too_large))
ended_cases finished = inl refl
ended_cases failed = inr (inl refl)
ended_cases body_too_large = inr (inr refl)

module _ (int_of : String → Option ℤ) (limit : ℕ) (scope : Scope) (app : App)
    (ms : List Message) where
  cut-Guarded :
      (sent : List Sent) (given : ℕ)
      → declared_over_limit int_of scope limit ≡ false
      → IsCutAt limit app ms sent given
      → Guarded int_of limit scope app ms (
          settle_as int_of body_too_large
            (record { ended = body_too_large; sent = sent; given = given }))
  unfolding settle_as
  cut-Guarded sent given declared cut = elim (Bool-cases (has_started sent)) [
    | inl begun ↦ rw begun (raised sent given declared cut begun)
    | inr silent ↦ rw silent (answered sent given declared cut silent)
  ]

  settle_alone : (run : Run) → run.ended ≢ body_too_large → settle int_of run ≡ run
  unfolding settle settle_as
  settle_alone run h = elim (ended_cases run.ended) [
    | inl e ↦ rw e refl
    | inr (inl e) ↦ rw e refl
    | inr (inr e) ↦ absurd (h e)
  ]

  settle-Guarded :
      (run : Run)
      → declared_over_limit int_of scope limit ≡ false
      → Cuts limit app ms [] 0 run (plain app ms [] 0)
      → Guarded int_of limit scope app ms (settle int_of run)
  unfolding settle
  settle-Guarded run declared (inl (same, fits)) =
      rw (same, settle_alone (plain app ms [] 0) (plain_unsignalled app ms [] 0))
        (let_through declared fits)
  settle-Guarded run declared (inr (more, extra, waiting, left, e, runs, within, beyond)) =
      let cut : run ≡ record { ended = body_too_large; sent = more; given = extra } =
        e ∙ run_at refl (omega arith) in
      let low : extra ≤ limit = omega (arith, within) in
      let high : limit < extra + body_size (next_message left) = omega (arith, beyond) in
      rw cut (
        cut-Guarded more extra declared
          (record { waiting = waiting; left = left; until = runs; within = low; beyond = high }))

module _ (int_of : String → Option ℤ) where
  -- A request that the limit is in force for is refused unread, if its declared length is over the
  -- limit. Else it runs as it would without the limit, and is given no more than the limit; or the
  -- application gets, within the limit, to a receive that would be given more, and is cut off there:
  -- then what it has sent is followed by the refusal if its answer has not begun, and otherwise the
  -- signal goes out and nothing is added to the answer.
  pub body_limit-Guarded :
      (settings : Settings) (scope : Scope) (app : App) (ms : List Message)
      → (scope.kind == "http") ≡ true
      → 0 < settings.max_request_bytes
      → Guarded int_of settings.max_request_bytes scope app ms
          (body_limit int_of settings scope app ms)
  unfolding body_limit
  body_limit-Guarded settings scope app ms http positive =
      let limit = settings.max_request_bytes in
      let in_force : leb limit 0 ≡ false = ground arith in
      elim (Bool-cases (declared_over_limit int_of scope limit)) [
        | inl over ↦ rw (http, in_force, over) (refused over)
        | inr within ↦
            rw (http, in_force, within)
              (settle-Guarded int_of limit scope app ms (capped limit app ms [] 0) within
                (capped-Cuts limit app ms [] 0 (omega arith)))
      ]
