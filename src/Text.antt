-- ===== src/Text.antt =====
-- Operations of the language on texts that several parts of the program use.
use Prim.Native.Char.{code}
use monica_companion.Base.{ℕ, zero, suc, List, [], ◌∷◌, String, if◌then◌else◌, ◌==◌}
use monica_companion.Json.{◌+++◌}

-- The letters of a word go before the first of the words.
abbrev pub put : String → List String → List String
put c [] = c ∷ []
put c (w ∷ ws) = (c +++ w) ∷ ws

-- s.split(c), for a separator of one character.
unfoldable pub split_on : ℕ → String → List String
split_on c String.[] = "" ∷ []
split_on c (String.◌∷◌ d s) =
    let rest = split_on c s in if code d == c then "" ∷ rest else put (String.◌∷◌ d "") rest

-- The number of characters, the first `n` of them, and the others.
unfoldable pub count : String → ℕ
count String.[] = 0
count (String.◌∷◌ c s) = suc (count s)

unfoldable pub take_text : ℕ → String → String
take_text zero s = ""
take_text (suc n) String.[] = ""
take_text (suc n) (String.◌∷◌ c s) = String.◌∷◌ c (take_text n s)

unfoldable pub drop_text : ℕ → String → String
drop_text zero s = s
drop_text (suc n) String.[] = ""
drop_text (suc n) (String.◌∷◌ c s) = drop_text n s
