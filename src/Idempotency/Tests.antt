-- ===== src/Idempotency/Tests.antt =====
-- Runs of the idempotency store, and its theorems at concrete tables.
use monica_companion.Base.{
  ◌≤◌, ◌≡◌, ◌≢◌, refl, true, false, ◌&&◌, none, some, List, [], ◌∷◌, String, str_eq, if◌then◌else◌,
  arith, eq_iff,
}
use monica_companion.Sql.{update_where, insert_new, delete_where}
use monica_companion.Idempotency.{
  Entry, completed, done, check, reclaim, insert, claim, complete, release, Op, reclaims, inserts,
  completes, releases, step, run, fresh,
}
use monica_companion.Idempotency.Laws.{entry, IsTable}
use monica_companion.Idempotency.Claims.{claim_effect, is_free, granted}
use monica_companion.Idempotency.Exclusive.{grants, grants-le-1}

store : Unit {0}
unfolding check reclaim insert claim complete release step run update_where insert_new delete_where
store = tt

-- Two workers claim "k" at the same time, each by two statements, and one of them completes it.
abbrev race : List (Op String)
race =
    reclaims "k" 600 100
    ∷ reclaims "k" 600 100
    ∷ inserts "k" 600 100
    ∷ inserts "k" 600 100
    ∷ completes "k" "sent" 150
    ∷ releases "other"
    ∷ []

-- A finished key, and one whose holder ran out of time at 50.
abbrev held : List (Entry String)
held =
    record {
      key = "k";
      status = completed;
      claimed_at = 10;
      completed_at = some 20;
      result = some "sent";
      expires_at = 50;
    }
    ∷ fresh "old" 50 10
    ∷ []

held-IsTable : IsTable held
held-IsTable = (refl, (refl, tt))

store_tests :
    (grants "k" race [] ≡ 1)
    × (check "k" (run race []) ≡ some (done (some "sent")))
    × ((claim "old" 300 100 100 held).0 ≡ true)
    × ((claim "k" 300 100 100 held).0 ≡ false)
    × (check "old" (release "old" held) ≡ none)
unfolding store
store_tests = (refl, refl, refl, refl, refl)

grants-le-1_example : grants "k" race [] ≤ 1
grants-le-1_example =
    grants-le-1 "k" 500 race [] tt (in_time, (in_time, (in_time, (in_time, (tt, (other, tt))))))
  where
    in_time : ◌≡◌ {A = String} "k" "k" → (100 ≤ 500) × (500 ≤ 600)
    in_time e = (omega arith, omega arith)

    other : ◌≢◌ {A = String} "other" "k"
    other e = let h : false ≡ true = (eq_iff "other" "k").1 e in cc

claim_effect_example :
    ((claim "old" 300 100 100 held).0 ≡ is_free 100 (entry "old" held))
    × (entry "old" (claim "old" 300 100 100 held).1 ≡ (
        if str_eq "old" "old" && is_free 100 (entry "old" held)
        then some (granted "old" 400 100 (entry "old" held))
        else entry "old" held))
claim_effect_example = claim_effect "old" "old" 300 100 100 held held-IsTable
