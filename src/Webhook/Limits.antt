-- ===== src/Webhook/Limits.antt =====
-- How many requests of one address the webhook lets pass.
use monica_companion.Base.{
  ℕ, ◌+◌, ◌-◌, ◌*◌, ◌≤◌, ◌<◌, ◌≡◌, refl, sym, inl, inr, Bool, true, false, Option, none, some, List,
  [], ◌∷◌, String, str_eq, str_eq_self, str_eq-ne, ◌≢◌, subst, arith, if◌then◌else◌, text-cases,
  leb, All,
}
use monica_companion.Webhook.{
  WebhookOptions, WindowEntry, Windows, unexpired, cleanup, current, incremented, ip_of,
  rate_limiter, Bridge, WebhookRequest, Answer, accepted, unauthorized, too_large,
  too_many_requests, limited, continued, World, webhook,
}

-- What happens to the webhook: the interval fires, or a request arrives.
pub data Step (U : Type 0) : Type 0 where
  cleaned : (at : ℕ) → Step U
  arrives : (at : ℕ) → WebhookRequest U → Step U

abbrev pub time_of : {U : Type 0} → Step U → ℕ
time_of (cleaned at) = at
time_of (arrives at r) = at

-- One, for an answer other than 429 to a request that counts.
abbrev pub passed : Bool → Answer → ℕ
passed false a = 0
passed true accepted = 1
passed true unauthorized = 1
passed true too_large = 1
passed true too_many_requests = 0

abbrev one_if : Bool → ℕ
one_if true = 1
one_if false = 0

passed-other : (a : Answer) → passed false a ≡ 0
passed-other a = refl

passed-le : (c : Bool) (a : Answer) → passed c a ≤ 1
passed-le false a = omega arith
passed-le true accepted = omega arith
passed-le true unauthorized = omega arith
passed-le true too_large = omega arith
passed-le true too_many_requests = omega arith

module _ (b : Bridge) where
  -- How many requests of the address are answered otherwise than by 429.
  unfoldable pub passes : WebhookOptions → String → List (Step b.Update) → World b → ℕ
  unfolding cleanup webhook
  passes o ip [] w = 0
  passes o ip (cleaned at ∷ ss) w = passes o ip ss (record w { windows = cleanup at w.windows })
  passes o ip (arrives at r ∷ ss) w =
      let x = webhook b o at r w in
      passed (str_eq (ip_of r.forwarded_for) ip) x.0 + passes o ip ss x.1

  continued-windows :
      (o : WebhookOptions) (r : WebhookRequest b.Update) (s : b.State) (x : Bool × Windows)
      → (continued b o r s x).1.windows ≡ x.1
  unfolding continued
  continued-windows o r s (true, l) = refl
  continued-windows o r s (false, l) = refl

  continued-passed :
      (o : WebhookOptions) (r : WebhookRequest b.Update) (s : b.State) (x : Bool × Windows)
      (c : Bool)
      → passed c (continued b o r s x).0 ≤ one_if x.0
  unfolding continued
  continued-passed o r s (true, l) c = passed-le c (limited b o r s).0
  continued-passed o r s (false, l) true = omega arith
  continued-passed o r s (false, l) false = omega arith

  -- What the entry of an address leaves to it until `end`.
  abbrev spare : WebhookOptions → ℕ → Option WindowEntry → ℕ
  spare o end none = o.max_requests
  spare o end (some e) =
      o.max_requests - e.count + (if leb end e.reset_at then 0 else o.max_requests)

  spare-unexpired :
      (o : WebhookOptions) (at end : ℕ) (e : Option WindowEntry)
      → at < end
      → spare o end (unexpired at e) ≤ spare o end e
  spare-unexpired o at end none h = omega arith
  spare-unexpired o at end (some e) h = ground arith

  spare-current :
      (o : WebhookOptions) (at end : ℕ) (e : Option WindowEntry)
      → at < end
      → end ≤ at + o.window_ms
      → one_if (leb (incremented (current o at e)).count o.max_requests)
          + spare o end (some (incremented (current o at e)))
        ≤ spare o end e
  unfolding current
  spare-current o at end none h k = ground arith
  spare-current o at end (some e) h k = ground arith

  spare-le :
      (o : WebhookOptions) (end : ℕ) (e : Option WindowEntry) → spare o end e ≤ 2 * o.max_requests
  spare-le o end none = omega arith
  spare-le o end (some e) = ground arith

  -- A request takes from what its address has left, and only from that.
  abbrev IsTaken :
      WebhookOptions
      → String
      → String
      → ℕ
      → ℕ
      → WebhookRequest b.Update
      → b.State
      → Windows
      → Type 0
  IsTaken o ip i at end r s l =
      passed (str_eq i ip) (continued b o r s (rate_limiter o i at l)).0
        + spare o end ((rate_limiter o i at l).1 ip)
      ≤ spare o end (l ip)

  limiter-own :
      (o : WebhookOptions) (ip : String) (at end : ℕ) (r : WebhookRequest b.Update) (s : b.State)
      (l : Windows)
      → at < end
      → end ≤ at + o.window_ms
      → IsTaken o ip ip at end r s l
  unfolding rate_limiter
  limiter-own o ip at end r s l h k = rw (str_eq_self ip) (
      omega (
        arith,
        continued-passed o r s (rate_limiter o ip at l) true,
        spare-current o at end (l ip) h k,
      ))

  limiter-other :
      (o : WebhookOptions) (ip i : String) (at end : ℕ) (r : WebhookRequest b.Update) (s : b.State)
      (l : Windows)
      → ip ≢ i
      → IsTaken o ip i at end r s l
  unfolding rate_limiter
  limiter-other o ip i at end r s l h =
      rw (str_eq-ne ip i h, str_eq-ne i ip (λ e. h (sym e))) (omega arith)

  limiter-spare :
      (o : WebhookOptions) (ip i : String) (at end : ℕ) (r : WebhookRequest b.Update) (s : b.State)
      (l : Windows)
      → at < end
      → end ≤ at + o.window_ms
      → IsTaken o ip i at end r s l
  limiter-spare o ip i at end r s l h k = elim (text-cases ip i) [
    | inl e ↦ subst (λ j. IsTaken o ip j at end r s l) e (limiter-own o ip at end r s l h k)
    | inr e ↦ limiter-other o ip i at end r s l e
  ]

  webhook-spare :
      (o : WebhookOptions) (ip : String) (at end : ℕ) (r : WebhookRequest b.Update) (w : World b)
      → at < end
      → end ≤ at + o.window_ms
      → passed (str_eq (ip_of r.forwarded_for) ip) (webhook b o at r w).0
          + spare o end ((webhook b o at r w).1.windows ip)
        ≤ spare o end (w.windows ip)
  unfolding webhook
  webhook-spare o ip at end r w h k =
      rw (continued-windows o r w.state (rate_limiter o (ip_of r.forwarded_for) at w.windows))
        (limiter-spare o ip (ip_of r.forwarded_for) at end r w.state w.windows h k)

  -- The steps happen before `end`, which no window that opens at one of them ends before.
  abbrev pub IsWithin : ℕ → ℕ → Step b.Update → Type 0
  IsWithin start end s = (start ≤ time_of s) × (time_of s < end)

  passes-spare :
      (o : WebhookOptions) (ip : String) (start : ℕ) (ss : List (Step b.Update)) (w : World b)
      → All (IsWithin start (start + o.window_ms)) ss
      → passes o ip ss w ≤ spare o (start + o.window_ms) (w.windows ip)
  unfolding passes cleanup webhook rate_limiter
  passes-spare o ip start [] w h = omega arith
  passes-spare o ip start (cleaned at ∷ ss) w ((from, before), h) = omega (
    arith,
    passes-spare o ip start ss (record w { windows = cleanup at w.windows }) h,
    spare-unexpired o at (start + o.window_ms) (w.windows ip) before,
  )
  passes-spare o ip start (arrives at r ∷ ss) w ((from, before), h) = omega (
    arith,
    passes-spare o ip start ss (webhook b o at r w).1 h,
    webhook-spare o ip at (start + o.window_ms) r w before (omega (arith, from)),
  )

  -- Whatever requests arrive at the webhook within the time of one window, in whatever order and
  -- with the expired entries deleted in between, at most two times as many of one address as a
  -- window allows are answered otherwise than by 429, whatever windows there were before.
  pub passes-IsLimited :
      (o : WebhookOptions) (ip : String) (start : ℕ) (ss : List (Step b.Update)) (w : World b)
      → All (IsWithin start (start + o.window_ms)) ss
      → passes o ip ss w ≤ 2 * o.max_requests
  passes-IsLimited o ip start ss w h =
      omega (arith, passes-spare o ip start ss w h, spare-le o (start + o.window_ms) (w.windows ip))
