-- ===== src/Guardrails/Gate.antt =====
-- The concurrency gate holds at most its limit.
use monica_companion.Base.{
  ℕ, suc, ◌+◌, ◌*◌, ◌≤◌, ◌<◌, ◌≡◌, ◌∙◌, refl, ap, inl, inr, Bool, true, not, ◌||◌, Option, some,
  List, [], ◌∷◌, String, str_eq, arith, Bool-cases, ltb, keep, length,
}
use monica_companion.Effects.{Outcome, ok, throws}
use monica_companion.Guardrails.{
  Member, Fault, answered, dropped, unanswered, aborted, Redis, Options, World, next_fault,
  later_faults, gate_key, acquire_concurrency, release_concurrency, count_active, add_active,
  has_room, default_ttl_seconds, executed, replied, await_then, pure, admit,
}

-- The entries that have not expired.
abbrev pub live : ℕ → List Member → List Member
live now l = keep (λ e. ltb now e.score) l

length-keep : (p : Member → Bool) (l : List Member) → length (keep p l) ≤ length l
length-keep p [] = omega arith
length-keep p (e ∷ l) = ground (arith, length-keep p l)

live-keep :
    (p : Member → Bool) (now : ℕ) (l : List Member)
    → length (live now (keep p l)) ≤ length (live now l)
live-keep p now [] = omega arith
live-keep p now (e ∷ l) = ground (arith, live-keep p now l)

live-later :
    (now later : ℕ) (l : List Member) → now ≤ later → length (live later l) ≤ length (live now l)
live-later now later [] h = omega arith
live-later now later (e ∷ l) h = ground (arith, live-later now later l h)

-- Cleaning up to a moment leaves the live entries.
keep-live :
    (now : ℕ) (l : List Member) → keep (λ e. ltb e.score 0 || ltb now e.score) l ≡ live now l
keep-live now [] = refl
keep-live now (e ∷ l) = ground (arith, keep-live now l)

module _ (r : Redis) where
  -- At a moment, the user holds no more slots than the limit.
  abbrev pub IsBounded : Options → String → ℕ → World r → Type 0
  IsBounded o user now w =
      length (live now (r.entries (gate_key r o user) w.redis)) ≤ o.max_concurrency

  abbrev pub held : Options → String → r.State → List Member
  held o user s = r.entries (gate_key r o user) s

  count_active_lem :
      (key : String) (now : ℕ) (s : r.State)
      → ((count_active r key now s).0 ≡ length (live now (r.entries key s)))
        × (r.entries key (count_active r key now s).1 ≡ live now (r.entries key s))
  count_active_lem key now s =
      let cleaned = r.entries_zremrangebyscore key 0 now s ∙ keep-live now (r.entries key s) in
      (r.zcard_length key (r.zremrangebyscore key 0 now s) ∙ ap length cleaned, cleaned)

  add_active_lem :
      (key id : String) (now : ℕ) (s : r.State)
      → length (r.entries key (add_active r key now id s).1) ≤ suc (length (r.entries key s))
  add_active_lem key id now s =
      let n = now + default_ttl_seconds r * 1000 in
      let added =
        r.entries_expire key (default_ttl_seconds r) (r.zadd key n id s)
        ∙ r.entries_zadd key n id s in
      rw added (omega (arith, length-keep (λ e. not (str_eq e.member id)) (r.entries key s)))

  -- The second transaction, on a state whose entries are below the limit.
  add-IsBounded :
      (o : Options) (user id : String) (now : ℕ) (f : Fault) (w : World r)
      → length (r.entries (gate_key r o user) w.redis) < o.max_concurrency
      → IsBounded o user now (executed r f (add_active r (gate_key r o user) now id w.redis) w).1
  add-IsBounded o user id now f w h =
      let key = gate_key r o user in
      let before = length-keep (λ e. ltb now e.score) (r.entries key w.redis) in
      let after =
        length-keep (λ e. ltb now e.score) (r.entries key (add_active r key now id w.redis).1) in
      let added = add_active_lem key id now w.redis in
      go f (omega (arith, before, h)) (omega (arith, after, added, h))
    where
      go :
          (g : Fault)
          → IsBounded o user now w
          → IsBounded o user now
              (record w { redis = (add_active r (gate_key r o user) now id w.redis).1 })
          → IsBounded o user now
              (executed r g (add_active r (gate_key r o user) now id w.redis) w).1
      go answered b a = a
      go unanswered b a = a
      go dropped b a = b
      go aborted b a = b

  await_pure :
      {A B : Type 0} (x : Outcome A × World r) (b : B) → (await_then r x (λ a. pure r b)).1 ≡ x.1
  await_pure (ok a, w) b = refl
  await_pure (throws m, w) b = refl

  admit-IsBounded :
      (o : Options) (user id : String) (now : ℕ) (n : Option ℕ) (w : World r)
      → (has_room r o.max_concurrency n ≡ true
          → length (r.entries (gate_key r o user) w.redis) < o.max_concurrency)
      → IsBounded o user now w
      → IsBounded o user now (admit r o user now id n w).1
  admit-IsBounded o user id now n w room b = elim (Bool-cases (has_room r o.max_concurrency n)) [
    | inl e ↦
        let f = next_fault r w.faults in
        let w' : World r = record w { faults = later_faults r w.faults } in
        let x = executed r f (add_active r (gate_key r o user) now id w.redis) w' in
        rw (e, await_pure x true) (add-IsBounded o user id now f w' (room e))
    | inr e ↦ rw e b
  ]

  counted-IsBounded :
      (o : Options) (user id : String) (now : ℕ) (f : Fault) (w : World r)
      → IsBounded o user now w
      → IsBounded o user now
          (await_then r
            (executed r f (count_active r (gate_key r o user) now w.redis) w)
            (admit r o user now id)).1
  counted-IsBounded o user id now f w b = go f
    where
      lem :
          ((count_active r (gate_key r o user) now w.redis).0
            ≡ length (live now (r.entries (gate_key r o user) w.redis)))
          × (r.entries (gate_key r o user) (count_active r (gate_key r o user) now w.redis).1
              ≡ live now (r.entries (gate_key r o user) w.redis))
      lem = count_active_lem (gate_key r o user) now w.redis

      cleaned :
          IsBounded o user now
            (record w { redis = (count_active r (gate_key r o user) now w.redis).1 })
      cleaned = rw lem.1 (
          omega (
            arith,
            b,
            live-keep (λ e. ltb now e.score) now (r.entries (gate_key r o user) w.redis),
          ))

      room :
          has_room r o.max_concurrency (some (count_active r (gate_key r o user) now w.redis).0)
            ≡ true
          → length
              (r.entries (gate_key r o user) (count_active r (gate_key r o user) now w.redis).1)
            < o.max_concurrency
      room e = rw lem.1 (ground (arith, lem.0, e))

      go :
          (g : Fault)
          → IsBounded o user now
              (await_then r
                (executed r g (count_active r (gate_key r o user) now w.redis) w)
                (admit r o user now id)).1
      go answered =
          admit-IsBounded o user id now (some (count_active r (gate_key r o user) now w.redis).0)
            (record w { redis = (count_active r (gate_key r o user) now w.redis).1 }) (λ e. room e)
            cleaned
      go unanswered = cleaned
      go dropped = b
      go aborted = b

  pub acquire-IsBounded :
      (o : Options) (user id : String) (now later : ℕ) (w : World r)
      → now ≤ later
      → IsBounded o user now w
      → IsBounded o user later (acquire_concurrency r o user later id w).1
  unfolding acquire_concurrency
  acquire-IsBounded o user id now later w h b =
      counted-IsBounded o user id later (next_fault r w.faults)
        (record w { faults = later_faults r w.faults })
        (omega (arith, live-later now later (r.entries (gate_key r o user) w.redis) h, b))

  pub release-IsBounded :
      (o : Options) (user id : String) (now later : ℕ) (w : World r)
      → now ≤ later
      → IsBounded o user now w
      → IsBounded o user later (release_concurrency r o user id w).1
  unfolding release_concurrency
  release-IsBounded o user id now later w h b = go (next_fault r w.faults)
    where
      kept : length (live later (r.entries (gate_key r o user) w.redis)) ≤ o.max_concurrency
      kept = omega (arith, live-later now later (r.entries (gate_key r o user) w.redis) h, b)

      removed :
          length
            (live later (r.entries (gate_key r o user) (r.zrem (gate_key r o user) id w.redis)))
          ≤ o.max_concurrency
      removed = rw (r.entries_zrem (gate_key r o user) id w.redis) (
          omega (
            arith,
            kept,
            live-keep (λ e. not (str_eq e.member id)) later (r.entries (gate_key r o user) w.redis),
          ))

      go :
          (g : Fault)
          → IsBounded o user later
              (replied r g
                (tt {0}, r.zrem (gate_key r o user) id w.redis)
                (record w { faults = later_faults r w.faults })).1
      go answered = removed
      go unanswered = removed
      go dropped = kept
      go aborted = kept

-- Requests of one user come to the gate and leave it.
pub data Move : Type 0 where
  enters leaves : (id : String) (at : ℕ) → Move

abbrev pub time_of : Move → ℕ
time_of (enters id at) = at
time_of (leaves id at) = at

-- The moves are in the order of their times.
abbrev pub IsTimely : ℕ → List Move → Type 0
IsTimely now [] = Unit
IsTimely now (m ∷ ms) = (now ≤ time_of m) × IsTimely (time_of m) ms

abbrev pub last_time : ℕ → List Move → ℕ
last_time now [] = now
last_time now (m ∷ ms) = last_time (time_of m) ms

module _ (r : Redis) where
  unfoldable pub move : Options → String → Move → World r → World r
  unfolding acquire_concurrency release_concurrency
  move o user (enters id at) w = (acquire_concurrency r o user at id w).1
  move o user (leaves id at) w = (release_concurrency r o user id w).1

  unfoldable pub moves : Options → String → List Move → World r → World r
  moves o user [] w = w
  moves o user (m ∷ ms) w = moves o user ms (move o user m w)

  -- Whatever requests of a user enter and leave the concurrency gate, one after the other and at
  -- times that do not go back, and whichever calls to Redis fail before or after they take effect,
  -- the user holds no more slots that have not expired than the limit, if this was so before.
  pub moves-IsBounded :
      (o : Options) (user : String) (ms : List Move) (now : ℕ) (w : World r)
      → IsTimely now ms
      → IsBounded r o user now w
      → IsBounded r o user (last_time now ms) (moves o user ms w)
  unfolding move moves
  moves-IsBounded o user [] now w t b = b
  moves-IsBounded o user (enters id at ∷ ms) now w (h, t) b =
      moves-IsBounded o user ms at (acquire_concurrency r o user at id w).1 t
        (acquire-IsBounded r o user id now at w h b)
  moves-IsBounded o user (leaves id at ∷ ms) now w (h, t) b =
      moves-IsBounded o user ms at (release_concurrency r o user id w).1 t
        (release-IsBounded r o user id now at w h b)
