-- ===== src/Contacts/Rank/Order.antt =====
-- The order of the matches, in words of scores, dates and identifiers.
use Prim.Native.Nat.{compare, Ordering}
use mathlib.Core.List.{Perm}
use monica_companion.Base.{
  ◌≤◌, ◌<◌, ◌≡◌, ◌∙◌, refl, sym, ap, subst, ◌⊎◌, inl, inr, Bool, true, false, Option, none, some,
  List, [], ◌∷◌, map, String, str_eq, arith, if◌then◌else◌, Option-cases, keep,
}
use monica_companion.Base.Sorting.{is_gt, then_by, IsOrdered}
use monica_companion.Json.{ℤ, pos, negsuc}
use monica_companion.Contacts.{Summary, Candidate, exact_display_name, same_id, compare_ids}
use monica_companion.Contacts.Match.{Best, normalize_query, score_candidate}
use monica_companion.Contacts.Rank.{
  last_with, date_of, compare_dates, compare_candidates, scored, match_contacts,
}
use monica_companion.Contacts.Rank.Laws.{IsAntisymmetric, match_contacts-IsOrdered}

-- The date of an identifier in a map that is filled from the list: a later entry replaces an earlier
-- one.
abbrev pub date_from : ℤ → Option String → List Summary → Option String
date_from id d [] = d
date_from id d (c ∷ cs) =
    date_from id (if same_id c.contact_id id then c.last_interaction_at else d) cs

abbrev found_or : Option String → Option Summary → Option String
found_or d none = d
found_or d (some c) = c.last_interaction_at

date_from-last_with :
    (id : ℤ) (d : Option String) (cs : List Summary)
    → date_from id d cs ≡ found_or d (last_with id cs)
date_from-last_with id d [] = refl
date_from-last_with id d (c ∷ cs) =
    let rest =
      date_from-last_with id (if same_id c.contact_id id then c.last_interaction_at else d) cs in
    ground (arith, rest)

found_or-date_of : (o : Option Summary) → found_or none o ≡ date_of o
found_or-date_of none = refl
found_or-date_of (some c) = refl

abbrev pub IsAtMost : ℤ → ℤ → Type 0
IsAtMost (pos m) (pos n) = m ≤ n
IsAtMost (pos m) (negsuc n) = ⊥
IsAtMost (negsuc m) (pos n) = Unit
IsAtMost (negsuc m) (negsuc n) = n ≤ m

compare_ids-IsAtMost : (i j : ℤ) → is_gt (compare_ids i j) ≡ false → IsAtMost i j
compare_ids-IsAtMost (pos m) (pos n) h = ground (arith, h)
compare_ids-IsAtMost (pos m) (negsuc n) h = absurd (ground (arith, h))
compare_ids-IsAtMost (negsuc m) (pos n) h = tt
compare_ids-IsAtMost (negsuc m) (negsuc n) h = ground (arith, h)

then_by-cases :
    (o p : Ordering)
    → is_gt (then_by o p) ≡ false
    → (o ≡ Ordering.lt) ⊎ ((o ≡ Ordering.eq) × (is_gt p ≡ false))
then_by-cases Ordering.lt p h = inl refl
then_by-cases Ordering.eq p h = inr (refl, h)
then_by-cases Ordering.gt p h = absurd (ground arith)

module _ (locale_compare : String → String → Ordering) where
  -- The later date comes first, no date comes last, and `Even` holds of equal ones.
  abbrev pub AreDated : Option String → Option String → Type 0 → Type 0
  AreDated (some s) (some t) Even =
      (locale_compare t s ≡ Ordering.lt) ⊎ ((locale_compare t s ≡ Ordering.eq) × Even)
  AreDated (some s) none Even = Unit
  AreDated none (some t) Even = ⊥
  AreDated none none Even = Even

  -- One match may stand before another: by its score, else by its date, else by its identifier.
  abbrev pub IsBefore : List Summary → Candidate → Candidate → Type 0
  IsBefore cs a b =
      (b.score < a.score)
      ⊎ ((a.score ≡ b.score)
          × AreDated (date_from a.contact_id none cs) (date_from b.contact_id none cs)
              (IsAtMost a.contact_id b.contact_id))

  abbrev pub AreRanked : List Summary → List Candidate → Type 0
  AreRanked cs [] = Unit
  AreRanked cs (a ∷ []) = Unit
  AreRanked cs (a ∷ b ∷ l) = IsBefore cs a b × AreRanked cs (b ∷ l)

  dates-AreDated :
      (s t : Option String) (o : Ordering) (Even : Type 0)
      → is_gt (then_by (compare_dates locale_compare s t) o) ≡ false
      → (is_gt o ≡ false → Even)
      → AreDated s t Even
  dates-AreDated (some s) (some t) o Even h even = elim (then_by-cases (locale_compare t s) o h) [
    | inl e ↦ inl e
    | inr (e, k) ↦ inr (e, even k)
  ]
  dates-AreDated (some s) none o Even h even = tt
  dates-AreDated none (some t) o Even h even = absurd (ground (arith, h))
  dates-AreDated none none o Even h even = even h

  compare-IsBefore :
      (cs : List Summary) (a b : Candidate)
      → is_gt (compare_candidates locale_compare cs a b) ≡ false
      → IsBefore cs a b
  unfolding compare_candidates
  compare-IsBefore cs a b h = elim (then_by-cases (compare b.score a.score) _ h) [
    | inl e ↦ inl (ground (arith, e))
    | inr (e, k) ↦ inr (
      ground (arith, e),
      rw
          (
            date_from-last_with a.contact_id none cs,
            date_from-last_with b.contact_id none cs,
            found_or-date_of (last_with a.contact_id cs),
            found_or-date_of (last_with b.contact_id cs),
          )
          (dates-AreDated (date_of (last_with a.contact_id cs))
            (date_of (last_with b.contact_id cs)) (compare_ids a.contact_id b.contact_id)
            (IsAtMost a.contact_id b.contact_id) k
            (compare_ids-IsAtMost a.contact_id b.contact_id)),
    )
  ]

  ordered-AreRanked :
      (cs : List Summary) (l : List Candidate)
      → IsOrdered (compare_candidates locale_compare cs) l
      → AreRanked cs l
  ordered-AreRanked cs [] h = tt
  ordered-AreRanked cs (a ∷ []) h = tt
  ordered-AreRanked cs (a ∷ b ∷ l) (h, hs) =
      (compare-IsBefore cs a b h, ordered-AreRanked cs (b ∷ l) hs)

-- The contacts that score, and the candidate that a contact is.
abbrev pub scores : Option Best → Bool
scores none = false
scores (some b) = true

abbrev pub with_best : Summary → Option Best → Candidate
with_best c none = record {
  contact_id = c.contact_id;
  display_name = c.display_name;
  score = 0;
  match_reason = exact_display_name;
}
with_best c (some b) = record {
  contact_id = c.contact_id;
  display_name = c.display_name;
  score = b.score;
  match_reason = b.reason;
}

abbrev pub matching : (String → String) → String → List Summary → List Candidate
matching lower q cs =
    map (λ c. with_best c (score_candidate lower q c))
      (keep (λ c. scores (score_candidate lower q c)) cs)

scored-matching :
    (lower : String → String) (q : String) (cs : List Summary)
    → scored lower q cs ≡ matching lower q cs
unfolding scored
scored-matching lower q [] = refl
scored-matching lower q (c ∷ cs) = elim (Option-cases (score_candidate lower q c)) [
  | inl e ↦ rw e (scored-matching lower q cs)
  | inr (b, e) ↦ rw e (
      ap (λ l. with_best c (some b) ∷ l) (scored-matching lower q cs)
      ∙ ap (λ o. with_best c o ∷ matching lower q cs) (sym e))
]

-- With a comparison of texts whose sign changes when its arguments are swapped, the matches of a
-- query are the contacts that score, each once, none for a query that normalizes to nothing; and
-- each match has a higher score than the next one, or the same score and a later date of the last
-- interaction, a missing date being the earliest, or the same score and date and an identifier that
-- is not greater.
pub match_contacts-AreRanked :
    (lower : String → String) (locale_compare : String → String → Ordering) (query : String)
    (cs : List Summary)
    → IsAntisymmetric locale_compare
    → AreRanked locale_compare cs (match_contacts lower locale_compare query cs)
      × Perm (match_contacts lower locale_compare query cs) (
          if str_eq (normalize_query lower query) ""
          then []
          else matching lower (normalize_query lower query) cs)
match_contacts-AreRanked lower locale_compare query cs h =
    let (ordered, content) = match_contacts-IsOrdered locale_compare lower query cs h in
    (
      ordered-AreRanked locale_compare cs (match_contacts lower locale_compare query cs) ordered,
      subst
          (λ l.
            Perm (match_contacts lower locale_compare query cs)
              (if str_eq (normalize_query lower query) "" then [] else l))
          (scored-matching lower (normalize_query lower query) cs) content,
    )
