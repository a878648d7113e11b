-- ===== src/Contacts/Words.antt =====
-- The text operations of services/ai-router/src/contact-resolution/matcher.ts: trim, the regular
-- expressions, split and length. A text is its code points; `length` counts UTF-16 units.
use Prim.Native.Char.{Char, code}
use monica_companion.Base.{
  ℕ, ◌+◌, Bool, true, false, ◌&&◌, ◌||◌, List, [], ◌∷◌, String, str_eq, if◌then◌else◌, ltb, leb,
  ◌==◌,
}

-- \s, and what trim removes.
unfoldable pub is_space : Char → Bool
is_space c =
    let n = code c in
    (leb 9 n && leb n 13)
    || n == 32
    || n == 160
    || n == 5760
    || (leb 8192 n && leb n 8202)
    || n == 8232
    || n == 8233
    || n == 8239
    || n == 8287
    || n == 12288
    || n == 65279

-- What `.` does not match.
unfoldable pub is_line_end : Char → Bool
is_line_end c = let n = code c in n == 10 || n == 13 || n == 8232 || n == 8233

unfoldable pub skip_spaces : String → String
unfolding is_space
skip_spaces String.[] = ""
skip_spaces (String.◌∷◌ c s) =
    let rest = skip_spaces s in if is_space c then rest else String.◌∷◌ c s

unfoldable pub trim_end : String → String
unfolding is_space
trim_end String.[] = ""
trim_end (String.◌∷◌ c s) =
    let rest = trim_end s in if is_space c && str_eq rest "" then "" else String.◌∷◌ c rest

unfoldable pub trim : String → String
unfolding skip_spaces trim_end
trim s = trim_end (skip_spaces s)

-- s.replace(/'s$/i, "").
unfoldable pub strip_possessive : String → String
strip_possessive String.[] = ""
strip_possessive (String.◌∷◌ c s) =
    let rest = strip_possessive s in
    if code c == 39 && (str_eq s "s" || str_eq s "S") then "" else String.◌∷◌ c rest

-- s.replace(/^my\s+/, "").
unfoldable pub strip_my : String → String
unfolding is_space skip_spaces
strip_my (String.◌∷◌ m (String.◌∷◌ y (String.◌∷◌ c s))) =
    if code m == b'm' && code y == b'y' && is_space c
    then skip_spaces s
    else String.◌∷◌ m (String.◌∷◌ y (String.◌∷◌ c s))
strip_my s = s

-- Whether ".*?)" and spaces match up to the end.
unfoldable pub closes : String → Bool
unfolding is_line_end skip_spaces
closes String.[] = false
closes (String.◌∷◌ c s) =
    let rest = closes s in
    if code c == b')' && str_eq (skip_spaces s) ""
    then true
    else if is_line_end c
    then false
    else rest

unfoldable pub opens : String → Bool
unfolding closes
opens String.[] = false
opens (String.◌∷◌ c s) = if code c == b'(' then closes s else false

-- s.replace(/\s*\(.*?\)\s*$/, ""): the first position where the expression matches.
unfoldable pub cut_parenthetical : String → String
unfolding opens skip_spaces
cut_parenthetical String.[] = ""
cut_parenthetical (String.◌∷◌ c s) =
    let rest = cut_parenthetical s in
    if opens (skip_spaces (String.◌∷◌ c s)) then "" else String.◌∷◌ c rest

unfoldable pub starts_with_space : String → Bool
unfolding is_space
starts_with_space String.[] = false
starts_with_space (String.◌∷◌ c s) = is_space c

unfoldable pub put : Char → List String → List String
put c [] = String.◌∷◌ c "" ∷ []
put c (w ∷ ws) = String.◌∷◌ c w ∷ ws

-- s.split(/\s+/).
unfoldable pub split_spaces : String → List String
unfolding is_space starts_with_space put
split_spaces String.[] = "" ∷ []
split_spaces (String.◌∷◌ c s) =
    let rest = split_spaces s in
    if is_space c then if starts_with_space s then rest else "" ∷ rest else put c rest

-- s.length.
unfoldable pub units : String → ℕ
units String.[] = 0
units (String.◌∷◌ c s) = (if ltb (code c) 65536 then 1 else 2) + units s

-- s.startsWith(t).
unfoldable pub starts_with : String → String → Bool
starts_with s String.[] = true
starts_with String.[] (String.◌∷◌ d t) = false
starts_with (String.◌∷◌ c s) (String.◌∷◌ d t) =
    let rest = starts_with s t in if code c == code d then rest else false
