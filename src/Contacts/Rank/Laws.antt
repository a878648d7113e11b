-- ===== src/Contacts/Rank/Laws.antt =====
-- What matchContacts returns: the contacts that score, in the order of its comparison.
use Prim.Native.Nat.{compare, Ordering}
use mathlib.Core.List.{Perm}
use mathlib.Core.List.Perm
use monica_companion.Base.{
  ℕ, ◌≡◌, refl, inl, inr, Option, none, some, List, [], String, str_eq, arith, if◌then◌else◌,
  Bool-cases,
}
use monica_companion.Base.Sorting.{
  flip, then_by, flip-then_by, IsFair, IsOrdered, sort-Perm, sort-IsOrdered,
}
use monica_companion.Json.{ℤ, pos, negsuc}
use monica_companion.Contacts.{Summary, compare_ids}
use monica_companion.Contacts.Match.{normalize_query}
use monica_companion.Contacts.Rank.{
  compare_candidates, compare_dates, match_contacts, scored, last_with, date_of,
}

pub compare-flip : (m n : ℕ) → compare n m ≡ flip (compare m n)
compare-flip m n = ground arith

ids-flip : (m n : ℤ) → compare_ids n m ≡ flip (compare_ids m n)
ids-flip (pos m) (pos n) = compare-flip m n
ids-flip (pos m) (negsuc n) = refl
ids-flip (negsuc m) (pos n) = refl
ids-flip (negsuc m) (negsuc n) = compare-flip n m

module _ (locale_compare : String → String → Ordering) where
  -- What is documented of localeCompare.
  abbrev pub IsAntisymmetric : Type 0
  IsAntisymmetric = (s t : String) → locale_compare t s ≡ flip (locale_compare s t)

  dates-flip :
      (a b : Option String)
      → IsAntisymmetric
      → compare_dates locale_compare b a ≡ flip (compare_dates locale_compare a b)
  dates-flip none none h = refl
  dates-flip none (some b) h = refl
  dates-flip (some a) none h = refl
  dates-flip (some a) (some b) h = h b a

  candidates-IsFair :
      (cs : List Summary) → IsAntisymmetric → IsFair (compare_candidates locale_compare cs)
  unfolding compare_candidates
  candidates-IsFair cs h a b =
      let c = date_of (last_with a.contact_id cs) in
      let d = date_of (last_with b.contact_id cs) in
      let dates = compare_dates locale_compare c d in
      let ids = compare_ids a.contact_id b.contact_id in
      rw
        (
          flip-then_by (compare b.score a.score) (then_by dates ids),
          flip-then_by dates ids,
          ← (dates-flip c d h),
          ← (ids-flip a.contact_id b.contact_id),
          ← (compare-flip b.score a.score),
          compare_candidates,
        )
        refl

  -- With a comparison of texts whose sign changes when its arguments are swapped, the matches of a
  -- query are the contacts that score, each once, none for a query that normalizes to nothing, and
  -- no match comes after the next one in the order by score, last interaction and identifier.
  pub match_contacts-IsOrdered :
      (lower : String → String) (query : String) (cs : List Summary)
      → IsAntisymmetric
      → IsOrdered
          (compare_candidates locale_compare cs)
          (match_contacts lower locale_compare query cs)
        × Perm (match_contacts lower locale_compare query cs) (
            if str_eq (normalize_query lower query) ""
            then []
            else scored lower (normalize_query lower query) cs)
  unfolding match_contacts
  match_contacts-IsOrdered lower query cs h =
      let q = normalize_query lower query in
      let cmp = compare_candidates locale_compare cs in
      elim (Bool-cases (str_eq q "")) [
        | inl e ↦ rw (e, match_contacts) (tt, Perm.rfl)
        | inr e ↦
            rw (e, match_contacts)
              (
                sort-IsOrdered cmp (scored lower q cs) (candidates-IsFair cs h),
                sort-Perm cmp (scored lower q cs),
              )
      ]
