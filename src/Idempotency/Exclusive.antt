-- ===== src/Idempotency/Exclusive.antt =====
-- At most one worker gets a claim, whatever the interleaving of statements.
use monica_companion.Base.{
  counted, ℕ, ◌≤◌, ◌≡◌, refl, ◌≢◌, ◌⊎◌, inl, inr, true, false, ◌&&◌, Option, none, some, List, [],
  ◌∷◌, String, str_eq, eq_iff, str_eq-ne, arith, Bool-cases, Option-cases, All, ap, text-cases,
}
use monica_companion.Idempotency.{
  completed, Entry, reclaim, insert, Op, reclaims, inserts, completes, releases, step,
}
use monica_companion.Idempotency.Laws.{
  entry, IsTable, entry-complete, entry-reclaim, reclaim-took, entry-release_ne, insert-took,
  entry-insert, entry-reclaim_ne, entry-insert_ne, step-IsTable, insert-took,
}

module _ {R : Type 0} where
  -- How many statements of a schedule hand the key to a claimant.
  abbrev pub grants : String → List (Op R) → List (Entry R) → ℕ
  grants k [] t = 0
  grants k (reclaims j x now ∷ os) t =
      let rest = grants k os (reclaim j x now t).1 in
      counted (str_eq j k && (reclaim j x now t).0) rest
  grants k (inserts j x now ∷ os) t =
      let rest = grants k os (insert j x now t).1 in
      counted (str_eq j k && (insert j x now t).0) rest
  grants k (o ∷ os) t = grants k os (step o t).1

  -- A statement that claims `k` runs no later than `deadline` and claims it at least until then;
  -- nothing releases `k`.
  abbrev pub Within : String → ℕ → Op R → Type 0
  Within k deadline (reclaims j x now) = j ≡ k → (now ≤ deadline) × (deadline ≤ x)
  Within k deadline (inserts j x now) = j ≡ k → (now ≤ deadline) × (deadline ≤ x)
  Within k deadline (completes j v now) = Unit
  Within k deadline (releases j) = j ≢ k

  abbrev pub IsHeld : ℕ → Option (Entry R) → Type 0
  IsHeld deadline none = ⊥
  IsHeld deadline (some e) = (e.status ≡ completed) ⊎ (deadline ≤ e.expires_at)

  step-IsHeld :
      (k : String) (deadline : ℕ) (o : Op R) (t : List (Entry R))
      → IsTable t
      → Within k deadline o
      → IsHeld deadline (entry k t)
      → IsHeld deadline (entry k (step o t).1)
  unfolding step
  step-IsHeld k deadline (reclaims j x now) t u w h = elim (text-cases j k) [
    | inl same ↦ ground (arith, entry-reclaim j k x now t, w same, Option-cases (entry k t))
    | inr ne ↦ rw (entry-reclaim_ne j k x now t ne) h
  ]
  step-IsHeld k deadline (inserts j x now) t u w h = elim (text-cases j k) [
    | inl same ↦ ground (arith, entry-insert j k x now t, ap (λ i. entry i t) same, eq_iff j k)
    | inr ne ↦ rw (entry-insert_ne j k x now t ne) h
  ]
  step-IsHeld k deadline (completes j v now) t u w h = elim (Option-cases (entry k t)) [
    | inl gone ↦ absurd (rw gone at h)
    | inr (x, found) ↦
        let h' : IsHeld deadline (some x) = rw found at h in
        rw (entry-complete j k v now t) (rw found (ground arith))
  ]
  step-IsHeld k deadline (releases j) t u w h = rw (entry-release_ne j k t w) h

  -- A held key is granted to nobody.
  refused :
      (k : String) (deadline : ℕ) (j : String) (x now : ℕ) (t : List (Entry R))
      → IsTable t
      → (j ≡ k → (now ≤ deadline) × (deadline ≤ x))
      → IsHeld deadline (entry k t)
      → ((str_eq j k && (reclaim j x now t).0) ≡ false)
        × ((str_eq j k && (insert j x now t).0) ≡ false)
  refused k deadline j x now t u w h = elim (text-cases j k) [
    | inl same ↦
        let here = ap (λ i. entry i t) same in
        (
          ground (arith, w same, reclaim-took j x now t u, here),
          ground (arith, insert-took j x now t, here),
        )
    | inr ne ↦ rw (str_eq-ne j k ne) (refl, refl)
  ]

  grants_held :
      (k : String) (deadline : ℕ) (os : List (Op R)) (t : List (Entry R))
      → IsTable t
      → All (Within k deadline) os
      → IsHeld deadline (entry k t)
      → grants k os t ≡ 0
  unfolding step
  grants_held k deadline [] t u w h = refl
  grants_held k deadline (reclaims j x now ∷ os) t u (w, ws) h = ground (
    arith,
    refused k deadline j x now t u w h,
    grants_held k deadline os (step (reclaims j x now) t).1 (step-IsTable (reclaims j x now) t u) ws
        (step-IsHeld k deadline (reclaims j x now) t u w h),
  )
  grants_held k deadline (inserts j x now ∷ os) t u (w, ws) h = ground (
    arith,
    refused k deadline j x now t u w h,
    grants_held k deadline os (step (inserts j x now) t).1 (step-IsTable (inserts j x now) t u) ws
        (step-IsHeld k deadline (inserts j x now) t u w h),
  )
  grants_held k deadline (completes j v now ∷ os) t u (w, ws) h =
      grants_held k deadline os (step (completes j v now) t).1
        (step-IsTable (completes j v now) t u) ws
        (step-IsHeld k deadline (completes j v now) t u w h)
  grants_held k deadline (releases j ∷ os) t u (w, ws) h =
      grants_held k deadline os (step (releases j) t).1 (step-IsTable (releases j) t u) ws
        (step-IsHeld k deadline (releases j) t u w h)

  -- A statement that grants the key leaves it held until the deadline.
  reclaim-granted :
      (k : String) (deadline : ℕ) (j : String) (x now : ℕ) (t : List (Entry R))
      → IsTable t
      → (j ≡ k → (now ≤ deadline) × (deadline ≤ x))
      → (str_eq j k && (reclaim j x now t).0) ≡ true
      → IsHeld deadline (entry k (reclaim j x now t).1)
  reclaim-granted k deadline j x now t u w g =
      let same : j ≡ k = (eq_iff j k).0 (ground arith) in
      ground (
        arith,
        w same,
        reclaim-took j x now t u,
        ap (λ i. entry i t) same,
        entry-reclaim j k x now t,
      )

  insert-granted :
      (k : String) (deadline : ℕ) (j : String) (x now : ℕ) (t : List (Entry R))
      → (j ≡ k → (now ≤ deadline) × (deadline ≤ x))
      → (str_eq j k && (insert j x now t).0) ≡ true
      → IsHeld deadline (entry k (insert j x now t).1)
  insert-granted k deadline j x now t w g =
      let same : j ≡ k = (eq_iff j k).0 (ground arith) in
      ground (arith, w same, insert-took j x now t, entry-insert j k x now t)

  -- From a table with one row for each key at most, in every interleaving of statements in which
  -- claims of the key run no later than a deadline and claim it at least until then, and in which
  -- only other keys are released, the key is granted at most once.
  pub grants-le-1 :
      (k : String) (deadline : ℕ) (os : List (Op R)) (t : List (Entry R))
      → IsTable t
      → All (Within k deadline) os
      → grants k os t ≤ 1
  unfolding step
  grants-le-1 k deadline [] t u w = omega arith
  grants-le-1 k deadline (reclaims j x now ∷ os) t u (w, ws) =
      let u' = step-IsTable (reclaims j x now) t u in
      elim (Bool-cases (str_eq j k && (reclaim j x now t).0)) [
        | inl g ↦ ground (
          arith,
          grants_held k deadline os (step (reclaims j x now) t).1 u' ws
              (reclaim-granted k deadline j x now t u w g),
        )
        | inr g ↦ ground (arith, grants-le-1 k deadline os (step (reclaims j x now) t).1 u' ws)
      ]
  grants-le-1 k deadline (inserts j x now ∷ os) t u (w, ws) =
      let u' = step-IsTable (inserts j x now) t u in
      elim (Bool-cases (str_eq j k && (insert j x now t).0)) [
        | inl g ↦ ground (
          arith,
          grants_held k deadline os (step (inserts j x now) t).1 u' ws
              (insert-granted k deadline j x now t w g),
        )
        | inr g ↦ ground (arith, grants-le-1 k deadline os (step (inserts j x now) t).1 u' ws)
      ]
  grants-le-1 k deadline (completes j v now ∷ os) t u (w, ws) =
      grants-le-1 k deadline os (step (completes j v now) t).1
        (step-IsTable (completes j v now) t u) ws
  grants-le-1 k deadline (releases j ∷ os) t u (w, ws) =
      grants-le-1 k deadline os (step (releases j) t).1 (step-IsTable (releases j) t u) ws
