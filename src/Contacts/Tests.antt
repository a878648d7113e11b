-- ===== src/Contacts/Tests.antt =====
-- Runs of the contact resolution, and its theorems at concrete contacts.
use Prim.Native.Nat.{compare, Ordering}
use mathlib.Core.List.{Perm}
use monica_companion.Base.{
  ◌≡◌, ℕ, refl, Option, none, some, List, [], ◌∷◌, String, str_eq, if◌then◌else◌,
}
use monica_companion.Base.Sorting.{sort, place}
use monica_companion.Effects.{answered, ok}
use monica_companion.Json.{pos, Json, null}
use monica_companion.Contacts.{Summary, exact_display_name, alias_match, relationship_label_match}
use monica_companion.Contacts.Words.{
  is_space, is_line_end, skip_spaces, trim_end, trim, strip_possessive, strip_my, closes, opens,
  cut_parenthetical, starts_with_space, put, split_spaces, units, starts_with,
}
use monica_companion.Contacts.Match.{
  normalize_query, score_candidate, score_exact, score_alias, score_relationship,
}
use monica_companion.Contacts.Match.Kinship.{kinship}
use monica_companion.Contacts.Match.Laws.{score_candidate-first_met}
use monica_companion.Contacts.Rank.{compare_candidates, scored, match_contacts}
use monica_companion.Contacts.Rank.Laws.{compare-flip}
use monica_companion.Contacts.Rank.Order.{AreRanked, matching, match_contacts-AreRanked}
use monica_companion.Contacts.Resolve.{
  Resolution, no_match, resolved, ambiguous, resolution, resolve_contact, handle_search_contacts,
}
use monica_companion.Contacts.Resolve.Search.{Searched, handle_search_contacts-Searched}
use monica_companion.Contacts.Resolve.Laws.{Decides, resolve_contact-Decides}

contacts : Unit {0}
unfolding is_space is_line_end skip_spaces trim_end trim strip_possessive strip_my closes opens
    cut_parenthetical starts_with_space put split_spaces units starts_with score_candidate kinship
    compare_candidates scored match_contacts resolution sort place
contacts = tt

-- Texts that are in lower case.
abbrev lower : String → String
lower s = s

-- Texts by their length.
abbrev by_length : String → String → Ordering
by_length s t = compare (units s) (units t)

abbrev person : ℕ → String → List String → List String → Summary
person id name aliases labels = record {
  contact_id = pos id;
  display_name = name;
  aliases = aliases;
  relationship_labels = labels;
  important_dates = [];
  last_interaction_at = none;
}

abbrev people : List Summary
people =
    person 1 "ann lee (annie)" ("ann" ∷ "lee" ∷ []) ("friend" ∷ [])
    ∷ person 2 "bea" ("bea" ∷ []) ("parent" ∷ [])
    ∷ person 3 "mom" ("annika" ∷ []) []
    ∷ person 4 "ann" ("ann" ∷ []) []
    ∷ []

-- A response that is read as the four.
abbrev four_people : Json → Option (List Summary)
four_people v = some people

word_tests :
    (normalize_query lower "  my  mom's " ≡ "mom")
    × (cut_parenthetical "ann (b) lee (annie) " ≡ "ann")
    × (cut_parenthetical "ann lee (annie) " ≡ "ann lee")
    × (split_spaces "ann  b lee" ≡ "ann" ∷ "b" ∷ "lee" ∷ [])
unfolding contacts
word_tests = (refl, refl, refl, refl)

-- An exact name does not stand out from a relationship: as doubles, 1.0 - 0.9 is less than 0.1.
resolve_tests :
    (resolution "lee" people (match_contacts lower by_length "lee" people)
      ≡ resolved "lee" (some (person 1 "ann lee (annie)" ("ann" ∷ "lee" ∷ []) ("friend" ∷ []))))
    × (resolution "zoe" people (match_contacts lower by_length "zoe" people) ≡ no_match "zoe")
    × (resolution "mom" people (match_contacts lower by_length "mom" people)
        ≡ ambiguous "mom" (
            record {
              contact_id = pos 3;
              display_name = "mom";
              score = score_exact;
              match_reason = exact_display_name;
            }
            ∷ record {
              contact_id = pos 2;
              display_name = "bea";
              score = score_relationship;
              match_reason = relationship_label_match;
            }
            ∷ []))
unfolding contacts
resolve_tests = (refl, refl, refl)

match_contacts-AreRanked_example :
    AreRanked by_length people (match_contacts lower by_length "ann" people)
    × Perm (match_contacts lower by_length "ann" people) (
        if str_eq (normalize_query lower "ann") ""
        then []
        else matching lower (normalize_query lower "ann") people)
match_contacts-AreRanked_example =
    match_contacts-AreRanked lower by_length "ann" people (λ s t. compare-flip (units s) (units t))

score_candidate-first_met_example :
    score_candidate lower "my ann" (person 1 "ann lee (annie)" ("ann" ∷ "lee" ∷ []) ("friend" ∷ []))
    ≡ some (record { score = score_alias; reason = alias_match })
unfolding contacts
score_candidate-first_met_example =
    score_candidate-first_met lower "my ann"
      (person 1 "ann lee (annie)" ("ann" ∷ "lee" ∷ []) ("friend" ∷ []))

resolve_contact-Decides_example :
    (r : Resolution) × (resolve_contact four_people lower by_length "mom" (answered null) ≡ ok r)
    × Decides "mom" people (match_contacts lower by_length "mom" people) r
resolve_contact-Decides_example =
    resolve_contact-Decides four_people lower by_length "mom" null people
      (λ s t. compare-flip (units s) (units t)) refl

handle_search_contacts-Searched_example :
    Searched lower
      (match_contacts lower by_length "ann" people)
      (ok people)
      (handle_search_contacts four_people lower by_length "ann" (answered null))
handle_search_contacts-Searched_example =
    handle_search_contacts-Searched four_people lower by_length "ann" (answered null)
