-- ===== src/UtilTests.antt =====
-- The theorems on tiers, on the event stream and on an outage of the storage, at concrete inputs.
use image_adapter.Base.{
  ℕ, ◌*◌, ◌+◌, ◌≤◌, String, true, some, List, [], ◌∷◌, All, ◌==◌, if◌then◌else◌, ◌≡◌, refl, arith,
}
use image_adapter.Errors.{Result, ok, crash}
use image_adapter.Value.{Value, int, pos, str, list, dict, Items, nil, cons, end, field}
use image_adapter.Sizes.{Scaled, number, Ranked, clamp, rank, fit_tier}
use image_adapter.Sizes.Choices.{IsChoice, fit_tier-IsChoice}
use image_adapter.Utils.Sse.{deltas}
use image_adapter.Utils.Sse.Streaming.{
  joined_texts, other_parts, content_text, content_others, IsDelta, deltas-Carries,
}
use image_adapter.Fallback.{FallbackStore, Times, failed, Operation, put_op, ping_op, put, run}
use image_adapter.Fallback.Outage.{by_secondary, put-run-by_secondary}

abbrev scaled : String → ℕ → Scaled
scaled text k = number (pos (if text == "4" then 4 * k else k))

abbrev tiers : Items
tiers = cons (str "4K") (cons (str "1k") (cons (int (pos 512)) nil))

fit_tier_test : fit_tier scaled clamp (pos 2048) tiers ≡ ok (some (str "1k"), true)
unfolding fit_tier
fit_tier_test = refl

fit_tier-IsChoice_example :
    (ranked : List Ranked) × (rank scaled tiers ≡ ok ranked)
    × IsChoice clamp (pos 2048) ranked (some (str "1k"), true)
fit_tier-IsChoice_example =
    fit_tier-IsChoice scaled clamp (pos 2048) tiers (some (str "1k"), true) fit_tier_test

abbrev show : Value → String
show v = "0"

abbrev image : Value
image = dict (field "type" (str "image_url") end)

abbrev content : Items
content =
    cons (dict (field "type" (str "text") (field "text" (str "a long answer") end)))
      (cons image nil)

deltas-Carries_example :
    (joined_texts (deltas show (list content)) ≡ content_text show content)
    × (other_parts (deltas show (list content)) ≡ content_others content)
    × All IsDelta (deltas show (list content))
deltas-Carries_example = deltas-Carries show content

abbrev storage : FallbackStore
storage = record { cooldown = 30; parked_until = 0 }

abbrev at : ℕ → Times
at now = record { checked = now; parked = now }

abbrev down : Result String
down = crash

-- two puts and a probe that fails, within the cooldown
abbrev operations : List (Operation String)
operations =
    put_op (at 101) (ok "fast") (ok "slow")
    ∷ ping_op (at 110) failed true
    ∷ put_op (at 129) (ok "fast") down
    ∷ []

put-run-by_secondary_example :
    ((put (at 100) down (ok "slow") storage).0 ≡ record { asked = true; result = ok "slow" })
    × ((run operations (put (at 100) down (ok "slow") storage).1).0 ≡ by_secondary operations)
    × (100 + 30 ≤ (run operations (put (at 100) down (ok "slow") storage).1).1.parked_until)
put-run-by_secondary_example =
    put-run-by_secondary (at 100) down (ok "slow") storage operations refl refl (
      (omega arith, omega arith, refl),
      ((omega arith, omega arith, refl), ((omega arith, omega arith, refl), tt)),
    )
