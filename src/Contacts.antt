-- ===== src/Contacts.antt =====
-- Contact resolution (services/ai-router/src/contact-resolution and the search tool
-- services/ai-router/src/agent/tool-handlers/search-contacts.ts): the summaries of contacts and the
-- candidates that match (packages/types/src/contact-resolution.ts).
use Prim.Native.Nat.{compare, Ordering}
use monica_companion.Base.{ℕ, Bool, false, Option, List, String, ◌==◌}
use monica_companion.Json.{ℤ, pos, negsuc}
pub mod Words
pub mod Match
pub mod Rank
pub mod Resolve
mod Tests

-- ImportantDate.
pub record ImportantDate : Type 0 where
  pub label : String
  pub date : String
  pub is_year_unknown : Bool

-- ContactResolutionSummary.
pub record Summary : Type 0 where
  pub contact_id : ℤ
  pub display_name : String
  pub aliases : List String
  pub relationship_labels : List String
  pub important_dates : List ImportantDate
  pub last_interaction_at : Option String

-- MatchReason.
pub data MatchReason : Type 0 where
  exact_display_name exact_first_name alias_match relationship_label_match : MatchReason
  partial_match : MatchReason

-- ContactMatchCandidate. A score is a double, here the multiple of 2 ^ -55 that it is.
pub record Candidate : Type 0 where
  pub contact_id : ℤ
  pub display_name : String
  pub score : ℕ
  pub match_reason : MatchReason

-- m === n of integers.
abbrev pub same_id : ℤ → ℤ → Bool
same_id (pos m) (pos n) = m == n
same_id (negsuc m) (negsuc n) = m == n
same_id _ _ = false

-- The sign of m - n.
abbrev pub compare_ids : ℤ → ℤ → Ordering
compare_ids (pos m) (pos n) = compare m n
compare_ids (pos m) (negsuc n) = Ordering.gt
compare_ids (negsuc m) (pos n) = Ordering.lt
compare_ids (negsuc m) (negsuc n) = compare n m
