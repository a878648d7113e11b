-- ===== src/Contacts/Match/Laws.antt =====
-- The score of a contact is that of the first of five criteria that it meets.
use monica_companion.Base.{
  ℕ, ◌≡◌, ◌∙◌, refl, inl, inr, Bool, true, false, not, ◌&&◌, ◌||◌, Option, none, some, List, [],
  ◌∷◌, map, String, str_eq, arith, if◌then◌else◌, Bool-cases, leb, ◌==◌, length, some_of, ap,
}
use monica_companion.Contacts.{
  Summary, MatchReason, exact_display_name, exact_first_name, alias_match, relationship_label_match,
  partial_match,
}
use monica_companion.Contacts.Words.{split_spaces, units, starts_with}
use monica_companion.Contacts.Match.{
  Best, raise, includes, is_related, names_both, score_parts, score_part_aliases, score_prefixes,
  score_candidate, score_exact, score_full_name, score_relationship, score_alias, score_partial,
  strip_parenthetical, score_names, score_labels, score_aliases, score_prefix,
}

raise-raise : (s : ℕ) (r : MatchReason) (b : Best) → raise s r (raise s r b) ≡ raise s r b
raise-raise s r b = ground arith

-- `raise` under a test.
abbrev raise_if : Bool → ℕ → MatchReason → Best → Best
raise_if p s r b = if p then raise s r b else b

raise_if-or :
    (p q : Bool) (s : ℕ) (r : MatchReason) (b : Best)
    → raise_if q s r (raise_if p s r b) ≡ raise_if (if p then true else q) s r b
raise_if-or true true s r b = raise-raise s r b
raise_if-or true false s r b = refl
raise_if-or false q s r b = refl

-- A part of a query that is long enough, and an alias.
abbrev pub is_named : List String → String → Bool
is_named aliases part = leb 2 (units part) && includes aliases part

-- An alias that goes on after the query.
abbrev pub goes_on : String → String → Bool
goes_on q name = starts_with name q && not (str_eq name q)

-- The criteria, in the order of their scores.
module _ (lower : String → String) where
  abbrev pub is_exact : String → Summary → Bool
  is_exact q c =
      str_eq q (lower c.display_name) || str_eq q (lower (strip_parenthetical lower c.display_name))

  abbrev pub is_full_name : String → Summary → Bool
  is_full_name q c =
      leb 2 (length (split_spaces q)) && names_both (map lower c.aliases) (split_spaces q)

  abbrev pub is_relation : String → Summary → Bool
  is_relation q c =
      if is_related lower c.relationship_labels q
      then true
      else leb 2 (length (split_spaces q))
        && some_of (is_related lower c.relationship_labels) (split_spaces q)

  abbrev pub is_alias : String → Summary → Bool
  is_alias q c =
      if includes (map lower c.aliases) q
      then true
      else leb 2 (length (split_spaces q))
        && some_of (is_named (map lower c.aliases)) (split_spaces q)

  abbrev pub is_prefix : String → Summary → Bool
  is_prefix q c =
      leb 2 (units q)
      && (if some_of (goes_on q) (map lower c.aliases)
          then true
          else goes_on q (lower (strip_parenthetical lower c.display_name)))

  parts_lem :
      (labels ps : List String) (b : Best)
      → score_parts lower labels ps b
        ≡ raise_if
            (some_of (is_related lower labels) ps)
            score_relationship
            relationship_label_match
            b
  parts_lem labels [] b = refl
  parts_lem labels (p ∷ ps) b =
      let first =
        raise_if (is_related lower labels p) score_relationship relationship_label_match b in
      parts_lem labels ps first
      ∙ raise_if-or (is_related lower labels p) (some_of (is_related lower labels) ps)
          score_relationship relationship_label_match b

  part_aliases_lem :
      (aliases ps : List String) (b : Best)
      → score_part_aliases lower aliases ps b
        ≡ raise_if (some_of (is_named aliases) ps) score_alias alias_match b
  part_aliases_lem aliases [] b = refl
  part_aliases_lem aliases (p ∷ ps) b =
      let first = raise_if (is_named aliases p) score_alias alias_match b in
      part_aliases_lem aliases ps first
      ∙ raise_if-or (is_named aliases p) (some_of (is_named aliases) ps) score_alias alias_match b

  prefixes_lem :
      (q : String) (l : List String) (b : Best)
      → score_prefixes lower q l b ≡ raise_if (some_of (goes_on q) l) score_partial partial_match b
  prefixes_lem q [] b = refl
  prefixes_lem q (a ∷ l) b =
      let first = raise_if (goes_on q a) score_partial partial_match b in
      prefixes_lem q l first
      ∙ raise_if-or (goes_on q a) (some_of (goes_on q) l) score_partial partial_match b

  under :
      (two p q : Bool) (s : ℕ) (r : MatchReason) (b : Best) (looped : Best)
      → looped ≡ raise_if q s r (raise_if p s r b)
      → (if two then looped else raise_if p s r b) ≡ raise_if (if p then true else two && q) s r b
  under true p q s r b looped h = h ∙ raise_if-or p q s r b
  under false true q s r b looped h = refl
  under false false q s r b looped h = refl

  labels_lem :
      (q : String) (c : Summary) (b : Best)
      → score_labels lower q (split_spaces q) c.relationship_labels b
        ≡ raise_if (is_relation q c) score_relationship relationship_label_match b
  labels_lem q c b =
      let labels = c.relationship_labels in
      let whole =
        raise_if (is_related lower labels q) score_relationship relationship_label_match b in
      under (leb 2 (length (split_spaces q))) (is_related lower labels q)
        (some_of (is_related lower labels) (split_spaces q)) score_relationship
        relationship_label_match b (score_parts lower labels (split_spaces q) whole)
        (parts_lem labels (split_spaces q) whole)

  aliases_lem :
      (q : String) (c : Summary) (b : Best)
      → score_aliases lower q (split_spaces q) (map lower c.aliases) b
        ≡ raise_if (is_alias q c) score_alias alias_match b
  aliases_lem q c b =
      let aliases = map lower c.aliases in
      let whole = raise_if (includes aliases q) score_alias alias_match b in
      under (leb 2 (length (split_spaces q))) (includes aliases q)
        (some_of (is_named aliases) (split_spaces q)) score_alias alias_match b
        (score_part_aliases lower aliases (split_spaces q) whole)
        (part_aliases_lem aliases (split_spaces q) whole)

  prefix_lem :
      (q : String) (c : Summary) (b : Best)
      → score_prefix lower q
          (lower (strip_parenthetical lower c.display_name))
          (map lower c.aliases)
          b
        ≡ raise_if (is_prefix q c) score_partial partial_match b
  prefix_lem q c b =
      let name = lower (strip_parenthetical lower c.display_name) in
      let l = map lower c.aliases in
      let tried = prefixes_lem q l b in
      let both =
        raise_if-or (some_of (goes_on q) l) (goes_on q name) score_partial partial_match b in
      elim (Bool-cases (leb 2 (units q))) [ inl e ↦ rw (e, tried) both | inr e ↦ rw e refl ]

  -- The best score of the criteria, the first of which is the highest.
  abbrev pub first_met : Bool → Bool → Bool → Bool → Bool → Option Best
  first_met true full relation aliased prefixed =
      some (record { score = score_exact; reason = exact_display_name })
  first_met false true relation aliased prefixed =
      some (record { score = score_full_name; reason = exact_first_name })
  first_met false false true aliased prefixed =
      some (record { score = score_relationship; reason = relationship_label_match })
  first_met false false false true prefixed =
      some (record { score = score_alias; reason = alias_match })
  first_met false false false false true =
      some (record { score = score_partial; reason = partial_match })
  first_met false false false false false = none

  chain :
      (exact full relation aliased prefixed : Bool) (best : Best)
      → best
        ≡ raise_if prefixed score_partial partial_match (
            raise_if aliased score_alias alias_match (
              raise_if relation score_relationship relationship_label_match (
                raise_if full score_full_name exact_first_name
                  (record { score = 0; reason = partial_match }))))
      → (if exact
          then some (record { score = score_exact; reason = exact_display_name })
          else if best.score == 0
          then none
          else some best)
        ≡ first_met exact full relation aliased prefixed
  chain true f r a p best h = refl
  chain false true true true true best h = rw h refl
  chain false true true true false best h = rw h refl
  chain false true true false true best h = rw h refl
  chain false true true false false best h = rw h refl
  chain false true false true true best h = rw h refl
  chain false true false true false best h = rw h refl
  chain false true false false true best h = rw h refl
  chain false true false false false best h = rw h refl
  chain false false true true true best h = rw h refl
  chain false false true true false best h = rw h refl
  chain false false true false true best h = rw h refl
  chain false false true false false best h = rw h refl
  chain false false false true true best h = rw h refl
  chain false false false true false best h = rw h refl
  chain false false false false true best h = rw h refl
  chain false false false false false best h = rw h refl

  -- The score and the reason of a contact are those of the first criterion that it meets, of five
  -- in the order of their scores: its exact name, first and last word both aliases, a relationship,
  -- an alias, a prefix; and there is none if it meets none.
  pub score_candidate-first_met :
      (q : String) (c : Summary)
      → score_candidate lower q c
        ≡ first_met
            (is_exact q c)
            (is_full_name q c)
            (is_relation q c)
            (is_alias q c)
            (is_prefix q c)
  unfolding score_candidate
  score_candidate-first_met q c =
      let aliases = map lower c.aliases in
      let parts = split_spaces q in
      let none_yet : Best = record { score = 0; reason = partial_match } in
      let named = score_names lower aliases parts none_yet in
      let labelled = score_labels lower q parts c.relationship_labels named in
      let aliased = score_aliases lower q parts aliases labelled in
      chain (is_exact q c) (is_full_name q c) (is_relation q c) (is_alias q c) (is_prefix q c)
        (score_prefix lower q (lower (strip_parenthetical lower c.display_name)) aliases aliased)
        (prefix_lem q c aliased
          ∙ ap (raise_if (is_prefix q c) score_partial partial_match) (
              aliases_lem q c labelled
              ∙ ap (raise_if (is_alias q c) score_alias alias_match) (labels_lem q c named)))
