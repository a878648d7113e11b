-- ===== src/Contacts/Resolve/Search.antt =====
-- What the search tool gives for the summaries that it fetched.
use Prim.Native.Nat.{Ordering}
use monica_companion.Base.{
  ℕ, zero, suc, ◌≤◌, ◌≡◌, ◌≢◌, refl, sym, subst, inl, inr, true, Option, none, some, List, [], ◌∷◌,
  map, String, arith, Option-cases, All, length, take, ap,
}
use monica_companion.Effects.{Fetched, Outcome, ok, throws}
use monica_companion.Json.{ℤ, Json}
use monica_companion.Contacts.{Summary, Candidate, same_id}
use monica_companion.Contacts.Rank.{last_with, match_contacts}
use monica_companion.Contacts.Resolve.{
  SearchContactResult, SearchContactsResponse, contacts, search_error, search_result, search_among,
  max_results, handle_search_contacts, fetch_contact_summaries, extract_birthdate,
}
use monica_companion.Contacts.Resolve.Laws.{IsListed, IsMatch, match_contacts-All}

last_with-same :
    (id : ℤ) (cs : List Summary) (s : Summary)
    → last_with id cs ≡ some s
    → same_id s.contact_id id ≡ true
last_with-same id [] s h = absurd (ground arith)
last_with-same id (c ∷ cs) s h = elim (Option-cases (last_with id cs)) [
  | inl gone ↦ ground (arith, gone, h)
  | inr (d, found) ↦ ground (arith, found, h, last_with-same id cs d found)
]

last_with-listed : (id : ℤ) (cs : List Summary) → IsListed cs id → last_with id cs ≢ none
last_with-listed id [] h gone = absurd (ground arith)
last_with-listed id (c ∷ cs) h gone = ground (arith, h, gone, last_with-listed id cs)

-- A result for a match shows what the fetched summary with its identifier says.
module _ (lower : String → String) where
  abbrev pub Shows : List Summary → SearchContactResult → Type 0
  Shows cs r =
      (s : Summary) × (same_id s.contact_id r.contact_id ≡ true)
      × (last_with r.contact_id cs ≡ some s)
      × (r.aliases ≡ s.aliases)
      × (r.relationship_labels ≡ s.relationship_labels)
      × (r.birthdate ≡ extract_birthdate lower s)

  results : List Summary → List Candidate → List SearchContactResult
  results cs l = map (λ c. search_result lower c (last_with c.contact_id cs)) l

  result-Shows :
      (cs : List Summary) (c : Candidate)
      → IsListed cs c.contact_id
      → Shows cs (search_result lower c (last_with c.contact_id cs))
  result-Shows cs c h = elim (Option-cases (last_with c.contact_id cs)) [
    | inl gone ↦ absurd (last_with-listed c.contact_id cs h gone)
    | inr (s, found) ↦
        subst (λ o. Shows cs (search_result lower c o)) (sym found)
          (s, last_with-same c.contact_id cs s found, found, refl, refl, refl)
  ]

  results-Shows :
      (n : ℕ) (cs : List Summary) (l : List Candidate)
      → All (IsMatch cs) l
      → All (Shows cs) (results cs (take n l))
  unfolding results
  results-Shows zero cs l h = tt
  results-Shows (suc n) cs [] h = tt
  results-Shows (suc n) cs (c ∷ l) h = (result-Shows cs c h.0.1, results-Shows n cs l h.1)

  results-ids :
      (n : ℕ) (cs : List Summary) (l : List Candidate)
      → map (λ (r : SearchContactResult). r.contact_id) (results cs (take n l))
        ≡ take n (map (λ (c : Candidate). c.contact_id) l)
  unfolding results
  results-ids zero cs l = refl
  results-ids (suc n) cs [] = refl
  results-ids (suc n) cs (c ∷ l) = elim (Option-cases (last_with c.contact_id cs)) [
    | inl gone ↦ rw (gone) (ap (◌∷◌ c.contact_id) (results-ids n cs l))
    | inr (s, found) ↦ rw (found) (ap (◌∷◌ c.contact_id) (results-ids n cs l))
  ]

  length-results :
      (n : ℕ) (cs : List Summary) (l : List Candidate) → length (results cs (take n l)) ≤ n
  unfolding results
  length-results zero cs l = omega arith
  length-results (suc n) cs [] = omega arith
  length-results (suc n) cs (c ∷ l) = omega (arith, length-results n cs l)

  -- What a search gives for what the fetch comes to.
  abbrev pub Searched : List Candidate → Outcome (List Summary) → SearchContactsResponse → Type 0
  Searched ms (throws e) r =
      r ≡ search_error "Unable to complete contact search. Please try again later."
  Searched ms (ok cs) r =
      (l : List SearchContactResult) × (r ≡ contacts l)
      × (length l ≤ 10)
      × (map (λ (x : SearchContactResult). x.contact_id) l
          ≡ take 10 (map (λ (c : Candidate). c.contact_id) ms))
      × All (Shows cs) l

abbrev pub fetched : Outcome (List Summary) → List Summary
fetched (throws e) = []
fetched (ok cs) = cs

-- A search whose fetch fails answers with an error; any other gives ten contacts at most, the first
-- of the matches in their order, each with the aliases, the relationships and the birthdate of a
-- fetched summary with its identifier.
pub handle_search_contacts-Searched :
    (schema : Json → Option (List Summary)) (lower : String → String)
    (locale_compare : String → String → Ordering) (query : String) (answer : Fetched Json)
    → Searched lower
        (match_contacts lower locale_compare query
          (fetched (fetch_contact_summaries schema answer)))
        (fetch_contact_summaries schema answer)
        (handle_search_contacts schema lower locale_compare query answer)
unfolding results
handle_search_contacts-Searched schema lower locale_compare query answer =
    go (fetch_contact_summaries schema answer)
  where
    go :
        (o : Outcome (List Summary))
        → Searched lower
            (match_contacts lower locale_compare query (fetched o))
            o
            (search_among schema lower locale_compare query o)
    go (throws e) = refl
    go (ok cs) =
        let ms = match_contacts lower locale_compare query cs in
        (
          results lower cs (take max_results ms),
          refl,
          length-results lower 10 cs ms,
          results-ids lower 10 cs ms,
          results-Shows lower 10 cs ms (match_contacts-All lower locale_compare query cs),
        )
