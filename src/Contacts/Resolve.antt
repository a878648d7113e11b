-- ===== src/Contacts/Resolve.antt =====
-- resolveContact (services/ai-router/src/contact-resolution/resolver.ts), fetchContactSummaries
-- (client.ts beside it) and handleSearchContacts
-- (services/ai-router/src/agent/tool-handlers/search-contacts.ts).
use Prim.Native.Nat.{Ordering}
use monica_companion.Base.{
  ℕ, ◌-◌, Bool, true, false, ◌&&◌, Option, none, some, List, [], ◌∷◌, map, String, str_eq,
  if◌then◌else◌, leb, ◌==◌, length, take, find,
}
use monica_companion.Effects.{Fetched, rejected, not_ok, garbled, answered, Outcome, ok, throws}
use monica_companion.Json.{ℤ, Json, ◌+++◌, decimal}
use monica_companion.Contacts.{ImportantDate, Summary, MatchReason, Candidate, same_id}
use monica_companion.Contacts.Match.{score_relationship, score_partial}
use monica_companion.Contacts.Rank.{last_with, match_contacts}
pub mod Laws
pub mod Search

-- The thresholds, in the unit of the scores.
abbrev pub resolved_threshold : ℕ
resolved_threshold = score_relationship

abbrev pub ambiguity_gap_threshold : ℕ
ambiguity_gap_threshold = 3602879701896397

abbrev pub minimum_match_threshold : ℕ
minimum_match_threshold = score_partial

abbrev pub max_disambiguation_candidates : ℕ
max_disambiguation_candidates = 5

-- ContactResolutionResult, by its outcome; `null` is the summary that was not found.
pub data Resolution : Type 0 where
  no_match : (query : String) → Resolution
  resolved : (query : String) → Option Summary → Resolution
  ambiguous : (query : String) → List Candidate → Resolution

abbrev pub summary_of : List Summary → Candidate → Option Summary
summary_of cs c = find (λ s. same_id s.contact_id c.contact_id) cs

-- candidates[1].score, or 0.
abbrev pub second_score : List Candidate → ℕ
second_score [] = 0
second_score (c ∷ l) = c.score

-- What resolveContact returns for the ranked candidates. The scores descend, so that the difference
-- of the first two is exact in doubles and does not go below 0.
unfoldable pub resolution : String → List Summary → List Candidate → Resolution
resolution query cs [] = no_match query
resolution query cs (top ∷ l) =
    if leb resolved_threshold top.score && leb ambiguity_gap_threshold (top.score - second_score l)
    then resolved query (summary_of cs top)
    else if length (top ∷ l) == 1 && leb minimum_match_threshold top.score
    then resolved query (summary_of cs top)
    else if leb minimum_match_threshold top.score
    then ambiguous query (take max_disambiguation_candidates (top ∷ l))
    else no_match query

-- SearchContactResult.
pub record SearchContactResult : Type 0 where
  pub contact_id : ℤ
  pub display_name : String
  pub aliases : List String
  pub relationship_labels : List String
  pub birthdate : Option String
  pub match_reason : MatchReason

-- SearchContactsResponse.
pub data SearchContactsResponse : Type 0 where
  contacts : List SearchContactResult → SearchContactsResponse
  search_error : (message : String) → SearchContactsResponse

abbrev pub max_results : ℕ
max_results = 10

-- The schema of the response (of the validation library).
module _ (schema : Json → Option (List Summary)) where
  abbrev pub validated : Option (List Summary) → Outcome (List Summary)
  validated none = throws "Response from monica-integration does not match expected schema"
  validated (some cs) = ok cs

  -- fetchContactSummaries, for what the request to monica-integration comes to.
  abbrev pub fetch_contact_summaries : Fetched Json → Outcome (List Summary)
  fetch_contact_summaries (rejected e) = throws ("Failed to reach monica-integration: " +++ e)
  fetch_contact_summaries (not_ok status body) =
      throws ("monica-integration returned status " +++ decimal status)
  fetch_contact_summaries (garbled e) = throws "Invalid JSON response from monica-integration"
  fetch_contact_summaries (answered v) = validated (schema v)

-- `toLowerCase` of the language.
module _ (lower : String → String) where
  -- extractBirthdate.
  abbrev pub date_in : Option ImportantDate → Option String
  date_in none = none
  date_in (some d) = some d.date

  abbrev pub extract_birthdate : Summary → Option String
  extract_birthdate s = date_in (find (λ d. str_eq (lower d.label) "birthdate") s.important_dates)

  abbrev pub search_result : Candidate → Option Summary → SearchContactResult
  search_result c none = record {
    contact_id = c.contact_id;
    display_name = c.display_name;
    aliases = [];
    relationship_labels = [];
    birthdate = none;
    match_reason = c.match_reason;
  }
  search_result c (some s) = record {
    contact_id = c.contact_id;
    display_name = c.display_name;
    aliases = s.aliases;
    relationship_labels = s.relationship_labels;
    birthdate = extract_birthdate s;
    match_reason = c.match_reason;
  }

module _ (schema : Json → Option (List Summary)) (lower : String → String)
    (locale_compare : String → String → Ordering) where
  abbrev pub resolve_among : String → Outcome (List Summary) → Outcome Resolution
  resolve_among contact_ref (throws e) = throws e
  resolve_among contact_ref (ok cs) =
      ok (resolution contact_ref cs (match_contacts lower locale_compare contact_ref cs))

  -- resolveContact, for what the request to monica-integration comes to.
  abbrev pub resolve_contact : String → Fetched Json → Outcome Resolution
  resolve_contact contact_ref answer =
      resolve_among contact_ref (fetch_contact_summaries schema answer)

  abbrev pub search_among : String → Outcome (List Summary) → SearchContactsResponse
  search_among query (throws e) =
      search_error "Unable to complete contact search. Please try again later."
  search_among query (ok cs) = contacts (
      map (λ c. search_result lower c (last_with c.contact_id cs))
        (take max_results (match_contacts lower locale_compare query cs)))

  -- handleSearchContacts.
  abbrev pub handle_search_contacts : String → Fetched Json → SearchContactsResponse
  handle_search_contacts query answer = search_among query (fetch_contact_summaries schema answer)
