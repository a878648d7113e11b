-- ===== src/Contacts/Resolve/Laws.antt =====
-- What resolveContact decides, and how many contacts a search gives.
use Prim.Native.Nat.{Ordering}
use monica_companion.Base.{
  ℕ, ◌+◌, ◌-◌, ◌≤◌, ◌≡◌, refl, ap, ◌⊎◌, inl, inr, Bool, true, false, ◌&&◌, Option, none, some, List,
  [], ◌∷◌, String, str_eq, arith, Bool-cases, leb, All, All-weaken, find-some, some_of, take,
}
use monica_companion.Base.Sorting.{is_gt, IsOrdered, sort-All}
use monica_companion.Effects.{answered, ok}
use monica_companion.Json.{ℤ, pos, negsuc, Json}
use monica_companion.Contacts.{Summary, Candidate, same_id}
use monica_companion.Contacts.Match.{Best, normalize_query, score_candidate, score_partial}
use monica_companion.Contacts.Match.Laws.{
  score_candidate-first_met, first_met, is_exact, is_full_name, is_relation, is_alias, is_prefix,
}
use monica_companion.Contacts.Rank.{compare_candidates, match_contacts, scored, with_score}
use monica_companion.Contacts.Rank.Laws.{IsAntisymmetric, match_contacts-IsOrdered}
use monica_companion.Contacts.Resolve.{
  Resolution, no_match, resolved, ambiguous, resolution, resolved_threshold,
  ambiguity_gap_threshold, max_disambiguation_candidates, summary_of, second_score, resolve_contact,
  resolve_among, validated,
}

-- A fetched summary has the identifier.
abbrev pub IsListed : List Summary → ℤ → Type 0
IsListed cs id = some_of (λ s. same_id s.contact_id id) cs ≡ true

same_id_self : (n : ℤ) → same_id n n ≡ true
same_id_self (pos n) = ground arith
same_id_self (negsuc n) = ground arith

IsListed-self : (cs : List Summary) → All (λ s. IsListed cs s.contact_id) cs
IsListed-self [] = tt
IsListed-self (c ∷ cs) = (
  rw (same_id_self c.contact_id) refl,
  All-weaken (λ s. IsListed cs s.contact_id) (λ s. IsListed (c ∷ cs) s.contact_id) cs
      (λ s h. ground (arith, h)) (IsListed-self cs),
)

-- A match: its score is not below the minimum, and its contact was fetched.
abbrev pub IsMatch : List Summary → Candidate → Type 0
IsMatch cs c = (score_partial ≤ c.score) × IsListed cs c.contact_id

abbrev IsHigh : Option Best → Type 0
IsHigh none = Unit
IsHigh (some b) = score_partial ≤ b.score

first_met-IsHigh : (lower : String → String) (e f r a p : Bool) → IsHigh (first_met lower e f r a p)
first_met-IsHigh lower true f r a p = omega arith
first_met-IsHigh lower false true r a p = omega arith
first_met-IsHigh lower false false true a p = omega arith
first_met-IsHigh lower false false false true p = omega arith
first_met-IsHigh lower false false false false true = omega arith
first_met-IsHigh lower false false false false false = tt

module _ (lower : String → String) where
  score-IsHigh : (q : String) (c : Summary) → IsHigh (score_candidate lower q c)
  score-IsHigh q c = rw (score_candidate-first_met lower q c) (
      first_met-IsHigh lower (is_exact lower q c) (is_full_name lower q c) (is_relation lower q c)
        (is_alias lower q c) (is_prefix lower q c))

  with_score-All :
      (all : List Summary) (c : Summary) (o : Option Best) (l : List Candidate)
      → IsHigh o
      → IsListed all c.contact_id
      → All (IsMatch all) l
      → All (IsMatch all) (with_score c o l)
  with_score-All all c none l high here h = h
  with_score-All all c (some b) l high here h = ((high, here), h)

  scored-All :
      (q : String) (all cs : List Summary)
      → All (λ s. IsListed all s.contact_id) cs
      → All (IsMatch all) (scored lower q cs)
  unfolding scored
  scored-All q all [] h = tt
  scored-All q all (c ∷ cs) h =
      with_score-All all c (score_candidate lower q c) (scored lower q cs) (score-IsHigh q c) h.0
        (scored-All q all cs h.1)

  pub match_contacts-All :
      (locale_compare : String → String → Ordering) (query : String) (cs : List Summary)
      → All (IsMatch cs) (match_contacts lower locale_compare query cs)
  unfolding match_contacts
  match_contacts-All locale_compare query cs =
      let q = normalize_query lower query in
      elim (Bool-cases (str_eq q "")) [
        | inl e ↦ rw (e, match_contacts) tt
        | inr e ↦
            rw (e, match_contacts)
              (sort-All (compare_candidates locale_compare cs) (IsMatch cs) (scored lower q cs)
                (scored-All q cs cs (IsListed-self cs)))
      ]

-- The scores of a ranked list descend.
compare_candidates-le :
    (locale_compare : String → String → Ordering) (cs : List Summary) (a b : Candidate)
    → is_gt (compare_candidates locale_compare cs a b) ≡ false
    → b.score ≤ a.score
unfolding compare_candidates
compare_candidates-le locale_compare cs a b h = ground arith

abbrev pub IsBelow : ℕ → Candidate → Type 0
IsBelow n c = c.score ≤ n

IsOrdered-IsBelow :
    (locale_compare : String → String → Ordering) (cs : List Summary) (top : Candidate)
    (l : List Candidate)
    → IsOrdered (compare_candidates locale_compare cs) (top ∷ l)
    → All (IsBelow top.score) l
IsOrdered-IsBelow locale_compare cs top [] h = tt
IsOrdered-IsBelow locale_compare cs top (c ∷ l) h =
    let here = compare_candidates-le locale_compare cs top c h.0 in
    (
      here,
      All-weaken (IsBelow c.score) (IsBelow top.score) l (λ x k. omega (arith, here, k))
          (IsOrdered-IsBelow locale_compare cs c l h.1),
    )

-- The top of a ranked list stands out.
abbrev pub IsAhead : ℕ → Candidate → Type 0
IsAhead n c = ambiguity_gap_threshold + c.score ≤ n

abbrev pub IsClear : Candidate → List Candidate → Type 0
IsClear top l = (l ≡ []) ⊎ ((resolved_threshold ≤ top.score) × All (IsAhead top.score) l)

-- What a resolution says of the ranked matches of a query.
pub data Decides (query : String) (cs : List Summary) : List Candidate → Resolution → Type 0 where
  nobody : Decides query cs [] (no_match query)
  one :
      (top : Candidate) (l : List Candidate) (s : Summary)
      → IsClear top l
      → summary_of cs top ≡ some s
      → same_id s.contact_id top.contact_id ≡ true
      → Decides query cs (top ∷ l) (resolved query (some s))
  several :
      (top : Candidate) (l : List Candidate)
      → (IsClear top l → ⊥)
      → Decides query cs (top ∷ l) (ambiguous query (take max_disambiguation_candidates (top ∷ l)))

-- The code's test of the second score is the test of all.
gap-All :
    (top : Candidate) (l : List Candidate) (locale_compare : String → String → Ordering)
    (cs : List Summary)
    → IsOrdered (compare_candidates locale_compare cs) (top ∷ l)
    → ambiguity_gap_threshold ≤ top.score - second_score l
    → All (IsAhead top.score) l
gap-All top [] locale_compare cs s h = tt
gap-All top (c ∷ l) locale_compare cs s h = (
  omega (arith, h),
  All-weaken (IsBelow c.score) (IsAhead top.score) l (λ x k. omega (arith, h, k))
      (IsOrdered-IsBelow locale_compare cs c l s.1),
)

resolution-one :
    (query : String) (cs : List Summary) (top : Candidate) (l : List Candidate)
    → IsMatch cs top
    → IsClear top l
    → Decides query cs (top ∷ l) (resolved query (summary_of cs top))
resolution-one query cs top l m clear =
    let (s, found, same) =
      find-some (λ (s : Summary). same_id s.contact_id top.contact_id) cs m.1 in
    rw found (one top l s clear found same)

resolution-Decides :
    (locale_compare : String → String → Ordering) (query : String) (cs : List Summary)
    (ranked : List Candidate)
    → All (IsMatch cs) ranked
    → IsOrdered (compare_candidates locale_compare cs) ranked
    → Decides query cs ranked (resolution query cs ranked)
unfolding resolution
resolution-Decides locale_compare query cs [] m s = nobody
resolution-Decides locale_compare query cs (top ∷ []) m s =
    let e : resolution query cs (top ∷ []) ≡ resolved query (summary_of cs top) =
      ground (arith, m.0.0) in
    rw e (resolution-one query cs top [] m.0 (inl refl))
resolution-Decides locale_compare query cs (top ∷ c ∷ l) m s =
    elim (Bool-cases
      (leb resolved_threshold top.score && leb ambiguity_gap_threshold (top.score - c.score))) [
        | inl e ↦
            let ahead = gap-All top (c ∷ l) locale_compare cs s (ground arith) in
            rw (e, resolution) (resolution-one query cs top (c ∷ l) m.0 (inr (ground arith, ahead)))
        | inr e ↦
            let r : resolution query cs (top ∷ c ∷ l)
                ≡ ambiguous query (take max_disambiguation_candidates (top ∷ c ∷ l)) =
              ground (arith, e, m.0.0) in
            rw r (several top (c ∷ l) (λ clear. unclear clear e))
      ]
  where
    unclear :
        IsClear top (c ∷ l)
        → (leb resolved_threshold top.score && leb ambiguity_gap_threshold (top.score - c.score))
          ≡ false
        → ⊥
    unclear (inl gone) e = cc
    unclear (inr (high, ahead)) e = ground (arith, e, ahead.0)

-- Resolving the matches of a query decides as it should.
pub resolve-Decides :
    (lower : String → String) (locale_compare : String → String → Ordering) (query : String)
    (cs : List Summary)
    → IsAntisymmetric locale_compare
    → Decides query cs
        (match_contacts lower locale_compare query cs)
        (resolution query cs (match_contacts lower locale_compare query cs))
resolve-Decides lower locale_compare query cs h =
    resolution-Decides locale_compare query cs (match_contacts lower locale_compare query cs)
      (match_contacts-All lower locale_compare query cs)
      (match_contacts-IsOrdered locale_compare lower query cs h).0

-- With a comparison of texts whose sign changes when its arguments are swapped, and summaries that
-- the schema accepts: a reference resolves to no match if no contact scores; to the fetched contact
-- with the top's identifier if it is the only one that scores, or scores at least 0.9 and every
-- other one lower by at least the threshold; and to the first five otherwise.
pub resolve_contact-Decides :
    (schema : Json → Option (List Summary)) (lower : String → String)
    (locale_compare : String → String → Ordering) (contact_ref : String) (v : Json)
    (cs : List Summary)
    → IsAntisymmetric locale_compare
    → schema v ≡ some cs
    → (r : Resolution) × (resolve_contact schema lower locale_compare contact_ref (answered v)
        ≡ ok r)
      × Decides contact_ref cs (match_contacts lower locale_compare contact_ref cs) r
resolve_contact-Decides schema lower locale_compare contact_ref v cs h valid = (
  resolution contact_ref cs (match_contacts lower locale_compare contact_ref cs),
  ap (λ o. resolve_among schema lower locale_compare contact_ref (validated schema o)) valid,
  resolve-Decides lower locale_compare contact_ref cs h,
)
