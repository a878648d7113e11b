-- ===== src/Contacts/Rank.antt =====
-- matchContacts of services/ai-router/src/contact-resolution/matcher.ts: the candidates that score,
-- in order.
use Prim.Native.Nat.{compare, Ordering}
use monica_companion.Base.{
  ℕ, Bool, true, false, Option, none, some, List, [], ◌∷◌, String, str_eq, if◌then◌else◌,
}
use monica_companion.Base.Sorting.{sort, then_by}
use monica_companion.Json.{ℤ}
use monica_companion.Contacts.{Summary, Candidate, same_id, compare_ids}
use monica_companion.Contacts.Match.{Best, normalize_query, score_candidate}
pub mod Laws
pub mod Order

-- map.get(id), in a map made from the list: the last entry with the key.
abbrev pub last_with : ℤ → List Summary → Option Summary
last_with id [] = none
last_with id (c ∷ cs) = elim (last_with id cs) [
  | some d ↦ some d
  | none ↦ if same_id c.contact_id id then some c else none
]

abbrev pub date_of : Option Summary → Option String
date_of none = none
date_of (some c) = c.last_interaction_at

-- lastInteractionAt descending, nulls last.
abbrev pub compare_dates : (String → String → Ordering) → Option String → Option String → Ordering
compare_dates locale_compare (some a) (some b) = locale_compare b a
compare_dates locale_compare (some a) none = Ordering.lt
compare_dates locale_compare none (some b) = Ordering.gt
compare_dates locale_compare none none = Ordering.eq

-- The comparison that matchContacts sorts by, with `localeCompare` of the language: its sign.
unfoldable pub compare_candidates :
    (String → String → Ordering) → List Summary → Candidate → Candidate → Ordering
compare_candidates locale_compare cs a b =
    let earlier = date_of (last_with a.contact_id cs) in
    let later = date_of (last_with b.contact_id cs) in
    then_by (compare b.score a.score)
      (then_by (compare_dates locale_compare earlier later) (compare_ids a.contact_id b.contact_id))

abbrev pub with_score : Summary → Option Best → List Candidate → List Candidate
with_score c none rest = rest
with_score c (some b) rest =
    record {
      contact_id = c.contact_id;
      display_name = c.display_name;
      score = b.score;
      match_reason = b.reason;
    }
    ∷ rest

-- `toLowerCase` and `localeCompare` of the language.
module _ (lower : String → String) where
  -- The loop that scores the candidates.
  unfoldable pub scored : String → List Summary → List Candidate
  scored q [] = []
  scored q (c ∷ cs) = with_score c (score_candidate lower q c) (scored q cs)

  unfoldable pub match_contacts :
      (locale_compare : String → String → Ordering) → String → List Summary → List Candidate
  unfolding scored
  match_contacts locale_compare query cs =
      let q = normalize_query lower query in
      if str_eq q "" then [] else sort (compare_candidates locale_compare cs) (scored q cs)
