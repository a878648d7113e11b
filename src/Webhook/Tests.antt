-- ===== src/Webhook/Tests.antt =====
-- Runs of the webhook, with a bot in memory, and its theorem there.
use monica_companion.Base.{
  ℕ, ◌≡◌, refl, ◌≤◌, ◌*◌, Bool, true, not, none, some, List, [], ◌∷◌, String, str_eq, arith,
  some_of,
}
use monica_companion.Effects.{Outcome, ok, throws}
use monica_companion.Json.{decimal}
use monica_companion.Text.{split_on}
use monica_companion.Contacts.Words.{trim}
use monica_companion.Webhook.{
  WebhookOptions, ip_of, Bridge, WebhookRequest, accepted, unauthorized, too_many_requests, World,
  webhook,
}
use monica_companion.Webhook.Limits.{Step, arrives, cleaned, passes, passes-IsLimited}

-- The keys that are set, and the updates that the bot has handled.
abbrev Memory : Type 0
Memory = List String × List ℕ

abbrev remembered : String → ℕ → Memory → Outcome Bool × Memory
remembered k ttl m = (ok (not (some_of (str_eq k) m.0)), (k ∷ m.0, m.1))

abbrev bot : Bridge
bot = record {
  State = Memory;
  Update = ℕ;
  update_id = (λ u. some u);
  set_nx = remembered;
  handle_update = (λ u m. (throws "no reply", (m.0, u ∷ m.1)));
}

abbrev options : WebhookOptions
options = record { window_ms = 100; max_requests = 2; secret = "s3cret" }

abbrev update : ℕ → WebhookRequest ℕ
update id = record {
  forwarded_for = some " 10.1.1.1 , 10.2.2.2";
  secret_token = some "s3cret";
  fits = true;
  body = some id;
}

abbrev idle : World bot
idle = record { windows = (λ k. none); state = ([], []) }

abbrev after : ℕ → WebhookRequest ℕ → World bot → World bot
after at r w = (webhook bot options at r w).1

abbrev once : World bot
once = after 5 (update 1) idle

abbrev twice : World bot
twice = after 6 (update 1) once

webhook_tests :
    (ip_of (some " 10.1.1.1 , 10.2.2.2") ≡ "10.1.1.1")
    × (ip_of (some " ") ≡ "unknown")
    × ((webhook bot options 5 (update 1) idle).0 ≡ accepted)
    × (twice.state.1 ≡ 1 ∷ [])
    × ((webhook bot options 7 (update 2) twice).0 ≡ too_many_requests)
    × ((webhook bot options 105 (update 2) twice).0 ≡ accepted)
    × ((webhook bot options 5 (record (update 1) { secret_token = some "" }) idle).0 ≡ unauthorized)
unfolding webhook ip_of trim split_on decimal
webhook_tests = (refl, refl, refl, refl, refl, refl, refl)

abbrev requests : List (Step ℕ)
requests =
    arrives 60 (update 1)
    ∷ arrives 70 (update 2)
    ∷ arrives 80 (update 3)
    ∷ cleaned 100
    ∷ arrives 130 (update 4)
    ∷ arrives 150 (update 5)
    ∷ []

requests_tests : passes bot options "10.1.1.1" requests once ≡ 3
unfolding webhook ip_of passes trim split_on
requests_tests = refl

passes-IsLimited_example : passes bot options "10.1.1.1" requests once ≤ 2 * 2
passes-IsLimited_example = passes-IsLimited bot options "10.1.1.1" 60 requests once (omega arith)
