-- ===== src/Middleware/BodyLimit.antt =====
-- adapter/middleware/body_limit.py: BodyLimitMiddleware. The application is any program that receives
-- messages, sends messages and ends; the signal of the middleware goes through it. What a client sends is a
-- list of messages, after which it is gone.
pub mod Guarded
pub mod Cutting
use image_adapter.Base.{
  ℕ, ◌+◌, String, Bool, true, false, not, ◌||◌, Option, none, some, List, [], ◌∷◌, ◌++◌, Assoc,
  length, ltb, leb, ◌==◌, lookup, if◌then◌else◌,
}
use mathlib.Core.List.{reverse}
use image_adapter.Errors.{payload_too_large}
use image_adapter.Value.{ℤ, pos, negsuc, Bytes}
use image_adapter.Settings.{Settings}

-- `http.request` with a part of the body, or `http.disconnect`
pub data Message : Type 0 where
  request : Bytes → Message
  disconnect : Message

-- `http.response.start` with a status, or any other message
pub data Sent : Type 0 where
  start : ℕ → Sent
  other : Bytes → Sent

pub data App : Type 0 where
  finish : App
  fail : App
  receive : (Message → App) → App
  send : Sent → App → App

pub data Ended : Type 0 where
  finished : Ended
  failed : Ended
  body_too_large : Ended

-- How a run of the application ends, what it sent, and how many bytes it was given.
pub record Run : Type 0 where
  pub ended : Ended
  pub sent : List Sent
  pub given : ℕ

-- len(message.get("body", b""))
abbrev pub body_size : Message → ℕ
body_size (request body) = length body
body_size disconnect = 0

abbrev pub next_message : List Message → Message
next_message [] = disconnect
next_message (m ∷ ms) = m

abbrev pub later_messages : List Message → List Message
later_messages [] = []
later_messages (m ∷ ms) = ms

-- the application without the middleware
unfoldable pub plain : App → List Message → List Sent → ℕ → Run
plain finish ms sent given = record { ended = finished; sent = sent; given = given }
plain fail ms sent given = record { ended = failed; sent = sent; given = given }
plain (receive k) ms sent given =
    plain (k (next_message ms)) (later_messages ms) sent (given + body_size (next_message ms))
plain (send m app) ms sent given = plain app ms (sent ++ m ∷ []) given

-- the application behind `capped_receive`
unfoldable pub capped : ℕ → App → List Message → List Sent → ℕ → Run
capped limit finish ms sent given = record { ended = finished; sent = sent; given = given }
capped limit fail ms sent given = record { ended = failed; sent = sent; given = given }
capped limit (receive k) ms sent given =
    let total = given + body_size (next_message ms) in
    let rest = capped limit (k (next_message ms)) (later_messages ms) sent total in
    if ltb limit total then record { ended = body_too_large; sent = sent; given = given } else rest
capped limit (send m app) ms sent given = capped limit app ms (sent ++ m ∷ []) given

abbrev pub is_start : Sent → Bool
is_start (start status) = true
is_start m = false

-- `started` of `tracked_send`
unfoldable pub has_started : List Sent → Bool
has_started [] = false
has_started (m ∷ ms) = is_start m || has_started ms

-- the error response
abbrev pub rejection : List Sent
rejection = start payload_too_large.status ∷ other [] ∷ []

-- The scope of a request. Of a header that comes twice, the later one counts.
pub record Scope : Type 0 where
  pub kind : String
  pub headers : Assoc String

module _ (int_of : String → Option ℤ) where
  abbrev pub exceeds : Option ℤ → ℕ → Bool
  exceeds (some (pos n)) limit = ltb limit n
  exceeds n limit = false

  -- BodyLimitMiddleware._declared_over_limit
  unfoldable pub declared_over_limit : Scope → ℕ → Bool
  unfolding lookup
  declared_over_limit scope limit = elim (lookup "content-length" (reverse scope.headers)) [
    | none ↦ false
    | some declared ↦ exceeds (int_of declared) limit
  ]

  abbrev pub reject : Run → Run
  reject run = record run { ended = finished; sent = run.sent ++ rejection }

  unfoldable pub settle_as : Ended → Run → Run
  unfolding has_started
  settle_as finished run = run
  settle_as failed run = run
  settle_as body_too_large run = if has_started run.sent then run else reject run

  -- what becomes of the signal
  unfoldable pub settle : Run → Run
  unfolding settle_as
  settle run = settle_as run.ended run

  -- BodyLimitMiddleware.__call__
  unfoldable pub body_limit : Settings → Scope → App → List Message → Run
  unfolding plain capped declared_over_limit settle
  body_limit settings scope app ms =
      let limit = settings.max_request_bytes in
      if not (scope.kind == "http")
      then plain app ms [] 0
      else if leb limit 0
      then plain app ms [] 0
      else if declared_over_limit scope limit
      then reject (record { ended = finished; sent = []; given = 0 })
      else settle (capped limit app ms [] 0)
