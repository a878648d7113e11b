-- ===== src/Purge/Rows.antt =====
-- A sweep treats each purge request by itself.
use monica_companion.Effects.{Fetched, rejected, not_ok, garbled, answered}
use monica_companion.Base.{
  ℕ, ◌+◌, ◌-◌, ◌*◌, ◌++◌, ltb, ◌≡◌, ◌∙◌, refl, ap, inl, inr, Bool, Option, none, some, List, [],
  ◌∷◌, map, String, str_eq, eq_iff, arith, if◌then◌else◌, Bool-cases, Option-cases, keep,
}
use monica_companion.Sql.{
  row, Unique, update_where, revised, row-update_where, update_where-Unique, row-key,
}
use monica_companion.Purge.{
  Request, Sweep, Status, pending, in_progress, completed, failed, ai_router, scheduler, delivery,
  rejections, first_of, is_stale, reclaimed, is_retried, retried, is_due, taken, concluded,
  delete_data, process, process_pending_purges,
}

abbrev pub id_of : Request → String
id_of r = r.id

-- What a sweep does to one request.
abbrev pub attempted : Sweep → Request → Request
attempted e r = concluded (e.completes_at r.id) (delete_data e (taken e r)) (taken e r)

abbrev pub unstale : Sweep → Request → Request
unstale e r = if is_stale e r then reclaimed r else r

abbrev pub ready : Sweep → Request → Request
ready e r = if is_retried e (unstale e r) then retried (unstale e r) else unstale e r

abbrev pub swept : Sweep → Request → Request
swept e r = if is_due e (ready e r) then attempted e (ready e r) else ready e r

-- A function of the row, where there is one.
abbrev pub mapped : (Request → Request) → Option Request → Option Request
mapped f none = none
mapped f (some r) = some (f r)

abbrev settling : Sweep → Option Request → Option Request → Option Request
settling e none o = o
settling e (some r) o = mapped (concluded (e.completes_at r.id) (delete_data e r)) o

concluded-id :
    (e : Sweep) (r x : Request) → (concluded (e.completes_at r.id) (delete_data e r) x).id ≡ x.id
concluded-id e r x = ground arith

row-process :
    (e : Sweep) (k : String) (rs t : List Request)
    → Unique id_of rs
    → row id_of k (process e rs t) ≡ settling e (row id_of k rs) (row id_of k t)
unfolding process
row-process e k [] t u = refl
row-process e k (r ∷ rs) t (lone, u) =
    let f = concluded (e.completes_at r.id) (delete_data e r) in
    let next = update_where (λ x. str_eq x.id r.id) f t in
    let step = row-update_where id_of (λ x. str_eq x.id r.id) f k t (concluded-id e r) in
    let rest = row-process e k rs next u in
    elim (Bool-cases (str_eq r.id k)) [
      | inl same ↦
          let gone : row id_of k rs ≡ none = rw (← (eq_iff r.id k).0 same) lone in
          elim (Option-cases (row id_of k t)) [
            | inl gap ↦ ground (arith, step, rest, gone)
            | inr (x, found) ↦ ground (
              arith,
              step,
              rest,
              gone,
              row-key id_of k t x found,
              eq_iff x.id r.id,
              eq_iff r.id k,
            )
          ]
      | inr other ↦ elim (Option-cases (row id_of k t)) [
        | inl gap ↦ ground (arith, step, rest)
        | inr (x, found) ↦
            ground (arith, step, rest, row-key id_of k t x found, eq_iff x.id r.id, eq_iff r.id k)
      ]
    ]

abbrev picked : (Request → Bool) → (Request → Request) → Option Request → Option Request
picked p f none = none
picked p f (some r) = if p r then some (f r) else none

-- The taken rows, as RETURNING gives them.
row-map :
    (f : Request → Request) (p : Request → Bool) (k : String) (t : List Request)
    → ((r : Request) → (f r).id ≡ r.id)
    → Unique id_of t
    → row id_of k (map f (keep p t)) ≡ picked p f (row id_of k t)
row-map f p k [] same u = refl
row-map f p k (r ∷ t) same (lone, u) =
    let rest = row-map f p k t same u in
    elim (Bool-cases (str_eq r.id k)) [
      | inl e ↦
          let gone : row id_of k t ≡ none = rw (← (eq_iff r.id k).0 e) lone in
          ground (arith, same r, rest, gone)
      | inr e ↦ ground (arith, same r, rest)
    ]

map-Unique :
    (f : Request → Request) (p : Request → Bool) (t : List Request)
    → ((r : Request) → (f r).id ≡ r.id)
    → Unique id_of t
    → Unique id_of (map f (keep p t))
map-Unique f p [] same u = tt
map-Unique f p (r ∷ t) same (lone, u) =
    ground (arith, same r, row-map f p r.id t same u, map-Unique f p t same u)

revised-mapped :
    (p : Request → Bool) (f : Request → Request) (o : Option Request)
    → revised id_of p f o ≡ mapped (λ r. if p r then f r else r) o
revised-mapped p f none = refl
revised-mapped p f (some r) = elim (Bool-cases (p r)) [ inl e ↦ rw e refl | inr e ↦ rw e refl ]

mapped-mapped :
    (g f : Request → Request) (o : Option Request) → mapped g (mapped f o) ≡ mapped (λ r. g (f r)) o
mapped-mapped g f none = refl
mapped-mapped g f (some r) = refl

settling-picked :
    (e : Sweep) (o : Option Request)
    → settling e (picked (is_due e) (taken e) o) (revised id_of (is_due e) (taken e) o)
      ≡ mapped (λ r. if is_due e r then attempted e r else r) o
settling-picked e none = refl
settling-picked e (some r) = elim (Bool-cases (is_due e r)) [
  | inl h ↦ rw h refl
  | inr h ↦ rw h refl
]

ready-row :
    (e : Sweep) (k : String) (t : List Request)
    → row id_of k (update_where (is_retried e) retried (update_where (is_stale e) reclaimed t))
      ≡ mapped (ready e) (row id_of k t)
ready-row e k t =
    let stale = update_where (is_stale e) reclaimed t in
    let step = row-update_where id_of (is_stale e) reclaimed k t (λ r. refl) in
    let next = row-update_where id_of (is_retried e) retried k stale (λ r. refl) in
    let first = step ∙ revised-mapped (is_stale e) reclaimed (row id_of k t) in
    next
    ∙ revised-mapped (is_retried e) retried (row id_of k stale)
    ∙ ap (mapped (λ r. if is_retried e r then retried r else r)) first
    ∙ mapped-mapped (λ r. if is_retried e r then retried r else r) (unstale e) (row id_of k t)

pub row-swept :
    (e : Sweep) (k : String) (t : List Request)
    → Unique id_of t
    → row id_of k (process_pending_purges e t) ≡ mapped (swept e) (row id_of k t)
unfolding process_pending_purges
row-swept e k t u =
    let t1 = update_where (is_stale e) reclaimed t in
    let t2 = update_where (is_retried e) retried t1 in
    let u1 = update_where-Unique id_of (is_stale e) reclaimed t (λ r. refl) u in
    let u2 = update_where-Unique id_of (is_retried e) retried t1 (λ r. refl) u1 in
    let rs = map (taken e) (keep (is_due e) t2) in
    let t3 = update_where (is_due e) (taken e) t2 in
    let lone = map-Unique (taken e) (is_due e) t2 (λ r. refl) u2 in
    let picks = row-map (taken e) (is_due e) k t2 (λ r. refl) u2 in
    let claims = row-update_where id_of (is_due e) (taken e) k t2 (λ r. refl) in
    row-process e k rs t3 lone
    ∙ ap (λ o. settling e o (row id_of k t3)) picks
    ∙ ap (settling e (picked (is_due e) (taken e) (row id_of k t2))) claims
    ∙ settling-picked e (row id_of k t2)
    ∙ ap (mapped (λ r. if is_due e r then attempted e r else r)) (ready-row e k t)
    ∙ mapped-mapped (λ r. if is_due e r then attempted e r else r) (ready e) (row id_of k t)

-- The message of a request whose promise is rejected; any response resolves it.
abbrev lost : Fetched (Unit {0}) → List String
lost (rejected m) = m ∷ []
lost (not_ok status body) = []
lost (garbled m) = []
lost (answered v) = []

abbrev ending : Sweep → Request → List String → Request
ending e r [] = record r {
  status = completed;
  claimed_at = some e.claims_at;
  completed_at = some (e.completes_at r.id);
}
ending e r (m ∷ ms) = record r {
  status = failed;
  claimed_at = some e.claims_at;
  error = some (e.first m ms);
  retry_count = r.retry_count + 1;
}

-- What becomes of a pending request: it waits for its time, or the three services are asked.
abbrev pub awaiting : Sweep → Request → Request
awaiting e r =
    if ltb r.purge_after e.due_by
    then ending e r (
        lost (e.deletes ai_router r.user_id)
        ++ (lost (e.deletes scheduler r.user_id) ++ (lost (e.deletes delivery r.user_id) ++ [])))
    else r

-- What a sweep makes of a request, by its status and by the time of its claim.
abbrev pub after_sweep : Sweep → Status → Option ℕ → Request → Request
after_sweep e pending claim r = awaiting e r
after_sweep e in_progress none r = r
after_sweep e in_progress (some at) r =
    if ltb at (e.started - e.stale_claim_threshold_minutes * 60 * 1000)
    then awaiting e (record r { status = pending })
    else r
after_sweep e completed claim r = r
after_sweep e failed claim r =
    if ltb r.retry_count e.max_purge_retries
    then awaiting e (record r { status = pending; error = none })
    else r

lost-rejections :
    (x : Fetched (Unit {0})) (l : List (Fetched (Unit {0})))
    → rejections (x ∷ l) ≡ lost x ++ rejections l
lost-rejections (rejected m) l = refl
lost-rejections (not_ok status body) l = refl
lost-rejections (garbled m) l = refl
lost-rejections (answered v) l = refl

lost-three :
    (x y z : Fetched (Unit {0}))
    → rejections (x ∷ y ∷ z ∷ []) ≡ lost x ++ (lost y ++ (lost z ++ []))
lost-three x y z =
    lost-rejections x (y ∷ z ∷ [])
    ∙ ap (λ l. lost x ++ l)
        (lost-rejections y (z ∷ []) ∙ ap (λ l. lost y ++ l) (lost-rejections z []))

concluded-ending :
    (e : Sweep) (r : Request) (l : List String)
    → concluded (e.completes_at r.id) (first_of e.first l) (taken e r) ≡ ending e r l
concluded-ending e r [] = refl
concluded-ending e r (m ∷ ms) = refl

attempted-ending :
    (e : Sweep) (r : Request)
    → attempted e r
      ≡ ending e r (
          lost (e.deletes ai_router r.user_id)
          ++ (lost (e.deletes scheduler r.user_id) ++ (lost (e.deletes delivery r.user_id) ++ [])))
unfolding delete_data
attempted-ending e r =
    ap (λ l. concluded (e.completes_at r.id) (first_of e.first l) (taken e r))
      (lost-three (e.deletes ai_router r.user_id) (e.deletes scheduler r.user_id)
        (e.deletes delivery r.user_id))
    ∙ concluded-ending e r _

attempted-awaiting :
    (e : Sweep) (r : Request)
    → (if ltb r.purge_after e.due_by then attempted e r else r) ≡ awaiting e r
attempted-awaiting e r =
    ap (λ x. if ltb r.purge_after e.due_by then x else r) (attempted-ending e r)

swept-after_sweep :
    (e : Sweep) (s : Status) (claim : Option ℕ) (r : Request)
    → swept e (record r { status = s; claimed_at = claim })
      ≡ after_sweep e s claim (record r { status = s; claimed_at = claim })
swept-after_sweep e pending claim r =
    attempted-awaiting e (record r { status = pending; claimed_at = claim })
swept-after_sweep e completed claim r = refl
swept-after_sweep e in_progress none r = refl
swept-after_sweep e in_progress (some at) r =
    elim (Bool-cases (ltb at (e.started - e.stale_claim_threshold_minutes * 60 * 1000))) [
      | inl h ↦ rw h (attempted-awaiting e (record r { status = pending; claimed_at = some at }))
      | inr h ↦ rw h refl
    ]
swept-after_sweep e failed claim r = elim (Bool-cases (ltb r.retry_count e.max_purge_retries)) [
  | inl h ↦
      rw h (attempted-awaiting e (record r { status = pending; claimed_at = claim; error = none }))
  | inr h ↦ rw h refl
]

-- In a table with one row for each identifier at most, a sweep does to the row of each request what
-- its status says: a pending one waits until its time has come; then it is completed if the
-- requests to the three services resolve, whatever the statuses of their answers, and has failed
-- once more if one of them is rejected; one in progress is treated as pending if its claim is older
-- than the threshold, and one that failed if it did so fewer times than the limit; every other one
-- is left as it was.
pub row-process_pending_purges :
    (e : Sweep) (k : String) (t : List Request)
    → Unique id_of t
    → row id_of k (process_pending_purges e t)
      ≡ mapped (λ r. after_sweep e r.status r.claimed_at r) (row id_of k t)
row-process_pending_purges e k t u = row-swept e k t u ∙ each (row id_of k t)
  where
    each :
        (o : Option Request)
        → mapped (swept e) o ≡ mapped (λ r. after_sweep e r.status r.claimed_at r) o
    each none = refl
    each (some r) = ap some (swept-after_sweep e r.status r.claimed_at r)

-- A sweep keeps one row for each identifier at most.
process-Unique : (e : Sweep) (rs t : List Request) → Unique id_of t → Unique id_of (process e rs t)
unfolding process
process-Unique e [] t u = u
process-Unique e (r ∷ rs) t u =
    let f = concluded (e.completes_at r.id) (delete_data e r) in
    process-Unique e rs (update_where (λ x. str_eq x.id r.id) f t)
      (update_where-Unique id_of (λ x. str_eq x.id r.id) f t (concluded-id e r) u)

pub process_pending_purges-Unique :
    (e : Sweep) (t : List Request) → Unique id_of t → Unique id_of (process_pending_purges e t)
unfolding process_pending_purges
process_pending_purges-Unique e t u =
    let t1 = update_where (is_stale e) reclaimed t in
    let t2 = update_where (is_retried e) retried t1 in
    let u1 = update_where-Unique id_of (is_stale e) reclaimed t (λ r. refl) u in
    let u2 = update_where-Unique id_of (is_retried e) retried t1 (λ r. refl) u1 in
    process-Unique e (map (taken e) (keep (is_due e) t2)) (update_where (is_due e) (taken e) t2)
      (update_where-Unique id_of (is_due e) (taken e) t2 (λ r. refl) u2)
