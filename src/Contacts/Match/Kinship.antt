-- ===== src/Contacts/Match/Kinship.antt =====
-- KINSHIP_MAP of services/ai-router/src/contact-resolution/matcher.ts.
use monica_companion.Base.{List, [], ◌∷◌, String, str_eq, if◌then◌else◌}

-- The entries of the map, in the source's order.
abbrev pub kinship_map : List (String × List String)
kinship_map =
    ("mom", "parent" ∷ "child" ∷ [])
    ∷ ("mother", "parent" ∷ "child" ∷ [])
    ∷ ("mama", "parent" ∷ "child" ∷ [])
    ∷ ("mum", "parent" ∷ "child" ∷ [])
    ∷ ("dad", "parent" ∷ "child" ∷ [])
    ∷ ("father", "parent" ∷ "child" ∷ [])
    ∷ ("papa", "parent" ∷ "child" ∷ [])
    ∷ ("son", "child" ∷ "parent" ∷ [])
    ∷ ("daughter", "child" ∷ "parent" ∷ [])
    ∷ ("brother", "sibling" ∷ [])
    ∷ ("bro", "sibling" ∷ [])
    ∷ ("sister", "sibling" ∷ [])
    ∷ ("sis", "sibling" ∷ [])
    ∷ ("grandma", "grandparent" ∷ "grandchild" ∷ [])
    ∷ ("grandmother", "grandparent" ∷ "grandchild" ∷ [])
    ∷ ("nana", "grandparent" ∷ "grandchild" ∷ [])
    ∷ ("grandpa", "grandparent" ∷ "grandchild" ∷ [])
    ∷ ("grandfather", "grandparent" ∷ "grandchild" ∷ [])
    ∷ ("uncle", "uncle" ∷ "nephew" ∷ [])
    ∷ ("aunt", "uncle" ∷ "nephew" ∷ [])
    ∷ ("auntie", "uncle" ∷ "nephew" ∷ [])
    ∷ ("nephew", "nephew" ∷ "uncle" ∷ [])
    ∷ ("niece", "nephew" ∷ "uncle" ∷ [])
    ∷ ("cousin", "cousin" ∷ [])
    ∷ ("wife", "spouse" ∷ [])
    ∷ ("husband", "spouse" ∷ [])
    ∷ ("partner", "partner" ∷ [])
    ∷ ("boyfriend", "partner" ∷ [])
    ∷ ("girlfriend", "partner" ∷ [])
    ∷ ("boss", "boss" ∷ "subordinate" ∷ [])
    ∷ ("subordinate", "subordinate" ∷ "boss" ∷ [])
    ∷ ("colleague", "colleague" ∷ [])
    ∷ ("coworker", "colleague" ∷ [])
    ∷ ("friend", "friend" ∷ [])
    ∷ ("buddy", "friend" ∷ [])
    ∷ ("pal", "friend" ∷ [])
    ∷ ("best friend", "bestfriend" ∷ [])
    ∷ ("bestfriend", "bestfriend" ∷ [])
    ∷ ("bff", "bestfriend" ∷ [])
    ∷ ("mentor", "mentor" ∷ "protege" ∷ [])
    ∷ ("protege", "protege" ∷ "mentor" ∷ [])
    ∷ ("godfather", "godparent" ∷ "godchild" ∷ [])
    ∷ ("godmother", "godparent" ∷ "godchild" ∷ [])
    ∷ ("godson", "godchild" ∷ "godparent" ∷ [])
    ∷ ("goddaughter", "godchild" ∷ "godparent" ∷ [])
    ∷ ("stepmom", "stepparent" ∷ "stepchild" ∷ [])
    ∷ ("stepmother", "stepparent" ∷ "stepchild" ∷ [])
    ∷ ("stepdad", "stepparent" ∷ "stepchild" ∷ [])
    ∷ ("stepfather", "stepparent" ∷ "stepchild" ∷ [])
    ∷ ("stepson", "stepchild" ∷ "stepparent" ∷ [])
    ∷ ("stepdaughter", "stepchild" ∷ "stepparent" ∷ [])
    ∷ []

abbrev pub labels_of : List (String × List String) → String → List String
labels_of [] term = []
labels_of ((k, labels) ∷ entries) term = if str_eq k term then labels else labels_of entries term

-- KINSHIP_MAP.get(term): no labels where the map has no entry.
unfoldable pub kinship : String → List String
kinship term = labels_of kinship_map term
