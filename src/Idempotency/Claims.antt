-- ===== src/Idempotency/Claims.antt =====
-- What a claim does, and the finality of results.
use monica_companion.Base.{
  ℕ, ◌+◌, ◌≡◌, refl, ◌≢◌, inl, inr, Bool, true, ◌&&◌, Option, none, some, List, [], ◌∷◌, String,
  str_eq, eq_iff, str_eq_self, str_eq-ne, arith, if◌then◌else◌, ltb, Bool-cases, Option-cases, ap,
  ◌∙◌, text-cases,
}
use monica_companion.Sql.{row-key}
use monica_companion.Idempotency.{
  in_progress, completed, Entry, is_in_progress, key_of, CheckResult, running, done, check, lapsed,
  reclaim, claim,
}
use monica_companion.Idempotency.Laws.{
  entry, IsTable, entry-reclaim, reclaim-took, entry-insert, entry-reclaim_ne, entry-insert_ne,
  insert-took,
}

module _ {R : Type 0} where
  -- `check` reports the row of the key.
  abbrev pub seen : Option (Entry R) → Option (CheckResult R)
  seen none = none
  seen (some e) = some (elim e.status [ completed ↦ done e.result | in_progress ↦ running ])

  pub check-entry : (k : String) (t : List (Entry R)) → check k t ≡ seen (entry k t)
  unfolding check
  check-entry k [] = refl
  check-entry k (e ∷ t) = ground (arith, check-entry k t)

  -- The key holds the result `v` for good.
  abbrev pub IsDone : String → R → List (Entry R) → Type 0
  IsDone k v t = check k t ≡ some (done (some v))

  -- Who may claim: nobody holds the key, or its holder has run out of time.
  abbrev pub is_free : ℕ → Option (Entry R) → Bool
  is_free now none = true
  is_free now (some e) = is_in_progress e.status && ltb e.expires_at now

  abbrev pub granted : String → ℕ → ℕ → Option (Entry R) → Entry R
  granted k expires now none = record {
    key = k;
    status = in_progress;
    claimed_at = now;
    completed_at = none;
    result = none;
    expires_at = expires;
  }
  granted k expires now (some e) = record e {
    status = in_progress;
    claimed_at = now;
    expires_at = expires;
  }

  lapsed-is_free :
      (k : String) (now : ℕ) (e : Entry R) → key_of e ≡ k → lapsed k now e ≡ is_free now (some e)
  lapsed-is_free k now e h = ground (arith, eq_iff e.key k)

  -- What a claim does to its own key and to another one.
  pub claim_outcome :
      (k j : String) (ttl clock now : ℕ) (t : List (Entry R))
      → IsTable t
      → ((claim k ttl clock now t).0 ≡ is_free now (entry k t))
        × (entry k (claim k ttl clock now t).1 ≡ (
            if is_free now (entry k t)
            then some (granted k (clock + ttl) now (entry k t))
            else entry k t))
        × (k ≢ j → entry j (claim k ttl clock now t).1 ≡ entry j t)
  unfolding claim
  claim_outcome k j ttl clock now t u =
      let took = reclaim-took k (clock + ttl) now t u in
      let here = entry-reclaim k k (clock + ttl) now t in
      let t' = (reclaim k (clock + ttl) now t).1 in
      let put = insert-took k (clock + ttl) now t' in
      let put' = entry-insert k k (clock + ttl) now t' in
      elim (Bool-cases (reclaim k (clock + ttl) now t).0) [
        | inl e ↦ elim (Option-cases (entry k t)) [
          | inl gone ↦ absurd (ground arith)
          | inr (x, found) ↦ rw e (
            ground (arith, lapsed-is_free k now x (row-key key_of k t x found)),
            ground (arith, lapsed-is_free k now x (row-key key_of k t x found)),
            λ ne. entry-reclaim_ne k j (clock + ttl) now t ne,
          )
        ]
        | inr e ↦ elim (Option-cases (entry k t)) [
          | inl gone ↦ rw e (
            ground arith,
            ground (arith, str_eq_self k),
            λ ne.
                entry-insert_ne k j (clock + ttl) now t' ne
                ∙ entry-reclaim_ne k j (clock + ttl) now t ne,
          )
          | inr (x, found) ↦ rw e (
            ground (arith, lapsed-is_free k now x (row-key key_of k t x found)),
            ground (arith, lapsed-is_free k now x (row-key key_of k t x found)),
            λ ne.
                entry-insert_ne k j (clock + ttl) now t' ne
                ∙ entry-reclaim_ne k j (clock + ttl) now t ne,
          )
        ]
      ]

  -- In a table with one row for each key at most, a claim succeeds exactly when the key is new or
  -- its claim has run out; then the row of the key holds it until clock + ttl. A refused claim
  -- leaves the row as it was, and no other key's row changes.
  pub claim_effect :
      (k j : String) (ttl clock now : ℕ) (t : List (Entry R))
      → IsTable t
      → ((claim k ttl clock now t).0 ≡ is_free now (entry k t))
        × (entry j (claim k ttl clock now t).1 ≡ (
            if str_eq k j && is_free now (entry k t)
            then some (granted k (clock + ttl) now (entry k t))
            else entry j t))
  claim_effect k j ttl clock now t u =
      let lem = claim_outcome k j ttl clock now t u in
      (
        lem.0,
        elim (text-cases k j) [
          | inl same ↦ ground (
            arith,
            lem.1,
            eq_iff k j,
            ap (λ i. entry i t) same,
            ap (λ i. entry i (claim k ttl clock now t).1) same,
          )
          | inr ne ↦ ground (arith, lem.2 ne, str_eq-ne k j ne)
        ],
      )
