-- ===== src/Contacts/Match.antt =====
-- How a contact scores against a query (services/ai-router/src/contact-resolution/matcher.ts). The
-- scores are the doubles 1.0, 0.95, 0.9, 0.8 and 0.6 in units of 2 ^ -55, which hold them exactly.
use monica_companion.Base.{
  ℕ, Bool, true, false, not, ◌&&◌, ◌||◌, Option, none, some, List, [], ◌∷◌, map, String, str_eq,
  if◌then◌else◌, ltb, leb, ◌==◌, length, some_of,
}
use monica_companion.Contacts.{
  Summary, MatchReason, exact_display_name, exact_first_name, alias_match, relationship_label_match,
  partial_match,
}
use monica_companion.Contacts.Words.{
  trim, strip_possessive, strip_my, cut_parenthetical, split_spaces, units, starts_with,
}
pub mod Kinship
pub mod Laws
use monica_companion.Contacts.Match.Kinship.{kinship}

abbrev pub score_exact : ℕ
score_exact = 36028797018963968

abbrev pub score_full_name : ℕ
score_full_name = 34227357168015768

abbrev pub score_relationship : ℕ
score_relationship = 32425917317067572

abbrev pub score_alias : ℕ
score_alias = 28823037615171176

abbrev pub score_partial : ℕ
score_partial = 21617278211378380

-- l.includes(s).
abbrev pub includes : List String → String → Bool
includes l s = some_of (λ t. str_eq t s) l

-- The score and the reason so far.
pub record Best : Type 0 where
  pub score : ℕ
  pub reason : MatchReason

-- if (score > bestScore) { bestScore = score; bestReason = reason }.
abbrev pub raise : ℕ → MatchReason → Best → Best
raise s r b = if ltb b.score s then record { score = s; reason = r } else b

-- The last of a list of words.
abbrev last : String → List String → String
last w [] = w
last w (v ∷ vs) = last v vs

-- The first and the last word are aliases.
abbrev pub names_both : List String → List String → Bool
names_both aliases [] = false
names_both aliases (w ∷ ws) = includes aliases w && includes aliases (last w ws)

-- `toLowerCase` of the language.
module _ (lower : String → String) where
  abbrev pub min_prefix_length : ℕ
  min_prefix_length = 2

  -- normalizeQuery.
  abbrev pub normalize_query : String → String
  normalize_query raw = trim (strip_my (strip_possessive (trim (lower raw))))

  -- stripParenthetical.
  abbrev pub strip_parenthetical : String → String
  strip_parenthetical name = trim (cut_parenthetical name)

  -- scoreRelationship(term, labels) > 0.
  abbrev pub is_related : List String → String → Bool
  is_related [] term = false
  is_related (l ∷ ls) term =
      let labels = map lower (l ∷ ls) in
      if includes labels term then true else some_of (includes labels) (kinship term)

  -- The loops over the parts of a query of several words, and over the aliases.
  abbrev pub score_parts : List String → List String → Best → Best
  score_parts labels [] b = b
  score_parts labels (part ∷ ps) b =
      score_parts labels ps
        (if is_related labels part then raise score_relationship relationship_label_match b else b)

  abbrev pub score_part_aliases : List String → List String → Best → Best
  score_part_aliases aliases [] b = b
  score_part_aliases aliases (part ∷ ps) b = score_part_aliases aliases ps (
      if leb min_prefix_length (units part) && includes aliases part
      then raise score_alias alias_match b
      else b)

  abbrev pub score_prefixes : String → List String → Best → Best
  score_prefixes q [] b = b
  score_prefixes q (alias ∷ as') b = score_prefixes q as' (
      if starts_with alias q && not (str_eq alias q)
      then raise score_partial partial_match b
      else b)

  -- Priorities 2 to 5, one after the other.
  abbrev pub score_names : List String → List String → Best → Best
  score_names aliases parts b =
      if leb 2 (length parts) && names_both aliases parts
      then raise score_full_name exact_first_name b
      else b

  abbrev pub score_labels : String → List String → List String → Best → Best
  score_labels q parts labels b =
      let whole =
        if is_related labels q then raise score_relationship relationship_label_match b else b in
      if leb 2 (length parts) then score_parts labels parts whole else whole

  abbrev pub score_aliases : String → List String → List String → Best → Best
  score_aliases q parts aliases b =
      let whole = if includes aliases q then raise score_alias alias_match b else b in
      if leb 2 (length parts) then score_part_aliases aliases parts whole else whole

  abbrev pub score_prefix : String → String → List String → Best → Best
  score_prefix q name aliases b =
      let tried = score_prefixes q aliases b in
      if leb min_prefix_length (units q)
      then if starts_with name q && not (str_eq name q)
        then raise score_partial partial_match tried
        else tried
      else b

  -- scoreCandidate.
  unfoldable pub score_candidate : String → Summary → Option Best
  score_candidate q c =
      let name = lower c.display_name in
      let stripped = lower (strip_parenthetical c.display_name) in
      let aliases = map lower c.aliases in
      let parts = split_spaces q in
      let start : Best = record { score = 0; reason = partial_match } in
      let best = score_prefix q stripped aliases (
        score_aliases q parts aliases
          (score_labels q parts c.relationship_labels (score_names aliases parts start))) in
      if str_eq q name || str_eq q stripped
      then some (record { score = score_exact; reason = exact_display_name })
      else if best.score == 0
      then none
      else some best
