-- ===== src/SetupToken/Tests.antt =====
-- Runs of the setup tokens, and their theorems at concrete tables.
use monica_companion.Base.{
  ◌≤◌, ◌≡◌, refl, none, some, false, List, [], ◌∷◌, str_eq, if◌then◌else◌, keep,
}
use monica_companion.Effects.{ok}
use monica_companion.Sql.{update_where}
use monica_companion.SetupToken.{
  superseded, World, consumed_for, already_consumed, expired, token_is, active_for, new_token,
  issue_token, consume_after, consume_token, cancel_token, Op, issues, consumes, cancels, step, run,
}
use monica_companion.SetupToken.Once.{consumptions, consumptions-le-1}
use monica_companion.SetupToken.Active.{issue_active}
use monica_companion.SetupToken.Registry.{Registry, promised_by, Shows, run-Shows}

tokens : Unit {0}
unfolding issue_token consume_after consume_token cancel_token step run update_where
tokens = tt

abbrev empty_world : World
empty_world = record { tokens = []; log = [] }

-- "ann" asks twice for a token, so the first one is superseded.
abbrev reissued : World
reissued =
    run (issues "t1" "ann" "onboarding" 900 100 ∷ issues "t2" "ann" "onboarding" 950 150 ∷ [])
      empty_world

-- Two consumptions look at the token before either is committed.
abbrev race : List Op
race =
    consumes (some (new_token "t2" "ann" "onboarding" 950)) "t2" 200 200
    ∷ consumes (some (new_token "t2" "ann" "onboarding" 950)) "t2" 201 201
    ∷ cancels "ann" 300
    ∷ []

token_tests :
    ((consume_token "t1" 200 200 reissued).0 ≡ token_is superseded)
    × ((consume_token "t2" 200 200 reissued).0 ≡ consumed_for "ann")
    × ((consume_token "t2" 950 950 reissued).0 ≡ expired)
    × ((consume_token "t2" 300 300 (run race reissued)).0 ≡ already_consumed)
    × (consumptions "t2" race reissued ≡ 1)
unfolding tokens
token_tests = (refl, refl, refl, refl, refl)

consumptions-le-1_example :
    consumptions "t2" race (issue_token "t2" "ann" "onboarding" 950 100 empty_world).1 ≤ 1
unfolding tokens
consumptions-le-1_example =
    consumptions-le-1 "t2" race (issue_token "t2" "ann" "onboarding" 950 100 empty_world).1
      (refl, tt)

issue_active_example :
    ((issue_token "t3" "ann" "onboarding" 990 200 reissued).0
      ≡ ok (new_token "t3" "ann" "onboarding" 990))
    × (keep (active_for "ann") (issue_token "t3" "ann" "onboarding" 990 200 reissued).1.tokens ≡ (
        if str_eq "ann" "ann"
        then new_token "t3" "ann" "onboarding" 990 ∷ []
        else keep (active_for "ann") reissued.tokens))
unfolding tokens
issue_active_example = issue_active "t3" "ann" "ann" "onboarding" 990 200 reissued refl

-- All that happens to the tokens of "ann".
abbrev story : List Op
story =
    issues "t1" "ann" "onboarding" 900 100
    ∷ issues "t2" "ann" "onboarding" 950 150
    ∷ issues "t1" "ben" "onboarding" 950 160
    ∷ race

abbrev empty_registry : Registry
empty_registry = record { knows = (λ j. false); holder = (λ v. none) }

run-Shows_example : Shows (promised_by story empty_registry) (run story empty_world).tokens
run-Shows_example = run-Shows story empty_registry empty_world ((λ j. refl), (λ v. refl))
