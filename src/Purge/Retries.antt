-- ===== src/Purge/Retries.antt =====
-- Sweeps settle a due purge request: it is completed, or it has failed as often as is allowed.
use native.Mathlib.Decide.{dec_lt}
use monica_companion.Base.{
  ℕ, suc, ◌+◌, ◌≤◌, ◌<◌, ◌≡◌, ◌∙◌, refl, sym, subst, ap, ◌⊎◌, inl, inr, some, List, [], ◌∷◌, String,
  arith, length, All, All-weaken,
}
use monica_companion.Effects.{Outcome, ok, throws}
use monica_companion.Sql.{row, Unique}
use monica_companion.Purge.{
  pending, completed, failed, Request, Sweep, taken, concluded, delete_data, process_pending_purges,
}
use monica_companion.Purge.Rows.{
  id_of, mapped, swept, ready, attempted, row-swept, process_pending_purges-Unique,
}

-- One sweep after the other.
unfoldable pub run : List Sweep → List Request → List Request
run [] t = t
run (e ∷ es) t = run es (process_pending_purges e t)

abbrev pub IsSettled : ℕ → Request → Type 0
IsSettled m r = (r.status ≡ completed) ⊎ ((r.status ≡ failed) × (r.retry_count ≡ m))

-- A sweep with the limit m that takes a request which is due after a time.
abbrev pub IsDueSweep : ℕ → ℕ → Sweep → Type 0
IsDueSweep m after e = (e.max_purge_retries ≡ m) × (after < e.due_by)

-- Waiting for a first or a further try.
abbrev IsWaiting : ℕ → Request → Type 0
IsWaiting m r = ((r.status ≡ pending) ⊎ (r.status ≡ failed)) × (r.retry_count < m)

abbrev Tried : Request → Request → Type 0
Tried r x =
    (x.purge_after ≡ r.purge_after)
    × ((x.status ≡ completed) ⊎ ((x.status ≡ failed) × (x.retry_count ≡ suc r.retry_count)))

attempted-Tried : (e : Sweep) (r : Request) → Tried r (attempted e r)
attempted-Tried e r = go (delete_data e (taken e r))
  where
    go : (o : Outcome (Unit {0})) → Tried r (concluded (e.completes_at r.id) o (taken e r))
    go (ok v) = (refl, inl refl)
    go (throws m) = (refl, inr (refl, omega arith))

swept-Tried :
    (m : ℕ) (e : Sweep) (r : Request)
    → IsDueSweep m r.purge_after e
    → IsWaiting m r
    → Tried r (swept e r)
swept-Tried m e r due waiting =
    let same : ((ready e r).purge_after ≡ r.purge_after)
        × ((ready e r).retry_count ≡ r.retry_count) =
      ground arith in
    let taken : swept e r ≡ attempted e (ready e r) = ground (arith, due, waiting) in
    let tried = attempted-Tried e (ready e r) in
    subst (Tried r) (sym taken) (
      tried.0 ∙ same.0,
      subst
          (λ n.
            ((attempted e (ready e r)).status ≡ completed)
            ⊎ (((attempted e (ready e r)).status ≡ failed)
                × ((attempted e (ready e r)).retry_count ≡ suc n)))
          same.1 tried.1,
    )

concluded-swept :
    (m : ℕ) (e : Sweep) (r : Request) → e.max_purge_retries ≡ m → IsSettled m r → swept e r ≡ r
concluded-swept m e r h s = ground arith

-- Further sweeps leave a concluded request alone.
run-settled :
    (m : ℕ) (es : List Sweep) (t : List Request) (k : String) (r : Request)
    → Unique id_of t
    → row id_of k t ≡ some r
    → IsSettled m r
    → All (λ e. e.max_purge_retries ≡ m) es
    → row id_of k (run es t) ≡ some r
unfolding run
run-settled m [] t k r u h s all = h
run-settled m (e ∷ es) t k r u h s (limit, all) =
    run-settled m es (process_pending_purges e t) k r (process_pending_purges-Unique e t u)
      (row-swept e k t u ∙ ap (mapped (swept e)) h ∙ ap some (concluded-swept m e r limit s)) s all

-- In a table with one row for each identifier at most, a request that is pending or has failed
-- fewer than m times is settled, completed or failed m times, after any sweeps with the limit m to
-- which it is due, if its failures and the sweeps together are m at least.
pub run-IsSettled :
    (m : ℕ) (es : List Sweep) (t : List Request) (k : String) (r : Request)
    → Unique id_of t
    → row id_of k t ≡ some r
    → (r.status ≡ pending) ⊎ (r.status ≡ failed)
    → r.retry_count < m
    → All (IsDueSweep m r.purge_after) es
    → m ≤ r.retry_count + length es
    → (x : Request) × (row id_of k (run es t) ≡ some x) × IsSettled m x
unfolding run
run-IsSettled m [] t k r u h waits below all enough = absurd (omega (arith, below, enough))
run-IsSettled m (e ∷ es) t k r u h waits below (due, all) enough =
    let next : row id_of k (process_pending_purges e t) ≡ some (swept e r) =
      row-swept e k t u ∙ ap (mapped (swept e)) h in
    let u' = process_pending_purges-Unique e t u in
    let limits =
      All-weaken (IsDueSweep m r.purge_after) (λ (x : Sweep). x.max_purge_retries ≡ m) es
        (λ x d. d.0) all in
    let tried = swept-Tried m e r due (waits, below) in
    elim tried.1 [
      | inl done ↦ (
        swept e r,
        run-settled m es (process_pending_purges e t) k (swept e r) u' next (inl done) limits,
        inl done,
      )
      | inr (again, count) ↦ elim (dec_lt (swept e r).retry_count m) [
        | yes more ↦
            run-IsSettled m es (process_pending_purges e t) k (swept e r) u' next (inr again) more
              (subst (λ n. All (IsDueSweep m n) es) (sym tried.0) all)
              (omega (arith, count, enough))
        | no over ↦
            let s : IsSettled m (swept e r) = inr (again, omega (arith, count, over, below)) in
            (
              swept e r,
              run-settled m es (process_pending_purges e t) k (swept e r) u' next s limits,
              s,
            )
      ]
    ]
