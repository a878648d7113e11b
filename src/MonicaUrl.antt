-- ===== src/MonicaUrl.antt =====
-- Base URLs of Monica (packages/monica-api-lib/src/url-validation.ts): their canonical form, the
-- blocked addresses, and the check before a request is sent to one.
use Prim.Native.Nat.{Ordering}
use Prim.Native.Char.{Char, code}
use Prim.Native.String.{compare}
use monica_companion.Base.{
  ℕ, ◌-◌, Bool, true, false, not, ◌&&◌, ◌||◌, Option, none, some, List, [], ◌∷◌, map, String,
  str_eq, if◌then◌else◌, ltb, leb, ◌==◌, length, some_of, keep,
}
use monica_companion.Effects.{Outcome, ok, throws}
use monica_companion.Json.{◌+++◌}
use monica_companion.Text.{split_on, count, take_text, drop_text}
pub mod Laws
mod Tests

-- MonicaUrlValidationErrorCode.
pub data ErrorCode : Type 0 where
  invalid_url userinfo_not_allowed fragment_not_allowed http_not_allowed blocked_ip : ErrorCode
  dns_resolution_failed : ErrorCode

-- A value, or a MonicaUrlValidationError.
pub data Checked {ℓ} (A : Type ℓ) : Type ℓ where
  accepted : A → Checked A
  refused : ErrorCode → Checked A

-- What the URL constructor gives.
pub record Url : Type 0 where
  pub protocol : String
  pub username : String
  pub password : String
  pub hostname : String
  pub port : String
  pub pathname : String
  pub hash : String

-- Of the language and of node: `new URL`, toLowerCase, Number (none for NaN), isIPv4 and isIPv6.
pub record Platform : Type 0 where
  pub url : String → Option Url
  pub lower : String → String
  pub number : String → Option ℕ
  pub is_ipv4 : String → Bool
  pub is_ipv6 : String → Bool

abbrev pub is_empty : String → Bool
is_empty s = str_eq s ""

-- s.replace(/\/+$/, "").
unfoldable pub strip_slashes : String → String
strip_slashes String.[] = ""
strip_slashes (String.◌∷◌ c s) =
    let rest = strip_slashes s in if code c == b'/' && is_empty rest then "" else String.◌∷◌ c rest

-- A port that the canonical form keeps.
abbrev pub host_of : Url → String
host_of u =
    let is_default =
      str_eq u.protocol "https:" && str_eq u.port "443"
      || str_eq u.protocol "http:" && str_eq u.port "80" in
    if is_empty u.port || is_default then u.hostname else u.hostname +++ (":" +++ u.port)

-- s.endsWith(t).
abbrev pub ends_with : String → String → Bool
ends_with s t = leb (count t) (count s) && str_eq (drop_text (count s - count t) s) t

-- Dotted decimal parts.
abbrev pub is_nan : Option ℕ → Bool
is_nan none = true
is_nan (some n) = false

abbrev pub all_zero : List (Option ℕ) → Bool
all_zero [] = true
all_zero (none ∷ l) = false
all_zero (some n ∷ l) = n == 0 && all_zero l

-- The tests of isBlockedIpv4 on the parts.
abbrev pub blocked_parts : List (Option ℕ) → Bool
blocked_parts (some a ∷ some b ∷ some c ∷ some d ∷ []) =
    if all_zero (some a ∷ some b ∷ some c ∷ some d ∷ [])
    then true
    else if a == 127
    then true
    else if a == 10
    then true
    else if a == 172 && leb 16 b && leb b 31
    then true
    else if a == 192 && b == 168
    then true
    else a == 169 && b == 254
blocked_parts l = false

abbrev pub is_digit : Char → Bool
is_digit c = leb b'0' (code c) && leb (code c) b'9'

unfoldable pub all_digits : String → Bool
all_digits String.[] = true
all_digits (String.◌∷◌ c s) = is_digit c && all_digits s

-- \d+\.\d+\.\d+\.\d+ up to the end.
abbrev pub is_run : String → Bool
is_run s = not (is_empty s) && all_digits s

abbrev pub are_dotted : List String → Bool
are_dotted (a ∷ b ∷ c ∷ d ∷ []) = is_run a && is_run b && is_run c && is_run d
are_dotted l = false

-- s >= t and s <= t of texts.
abbrev pub text_le : String → String → Bool
text_le s t = elim (compare s t) [ Ordering.gt ↦ false | _ ↦ true ]

abbrev pub starts : String → String → Bool
starts s t = str_eq (take_text (count t) s) t

module _ (on : Platform) where
  -- The checks of normalizeMonicaUrl after the URL is parsed, and the canonical form.
  unfoldable pub normalize_path : String → String
  unfolding strip_slashes
  normalize_path pathname =
      let path = strip_slashes pathname in
      if ends_with (on.lower path) "/api"
      then take_text (count path - 4) path +++ "/api"
      else path +++ "/api"

  abbrev pub normalize_parsed : Option Url → Checked String
  normalize_parsed none = refused invalid_url
  normalize_parsed (some u) =
      if not (is_empty u.username) || not (is_empty u.password)
      then refused userinfo_not_allowed
      else if not (is_empty u.hash)
      then refused fragment_not_allowed
      else if not (str_eq u.protocol "https:") && not (str_eq u.protocol "http:")
      then refused invalid_url
      else accepted (u.protocol +++ ("//" +++ (host_of u +++ normalize_path u.pathname)))

  -- normalizeMonicaUrl.
  unfoldable pub normalize_monica_url : String → Checked String
  unfolding normalize_path
  normalize_monica_url raw = normalize_parsed (on.url raw)

  -- isBlockedIpv4: parts that are no numbers, or not four, are not blocked.
  unfoldable pub is_blocked_ipv4 : String → Bool
  is_blocked_ipv4 ip = blocked_parts (map on.number (split_on b'.' ip))

  -- The address in the text of an IPv4-mapped address, if its text has that form.
  abbrev pub is_mapped : String → Bool
  is_mapped ip = starts ip "::ffff:" && are_dotted (split_on b'.' (drop_text 7 ip))

  abbrev pub is_link_local : String → Bool
  is_link_local ip =
      (starts ip "fe80:"
        || starts ip "fe8"
        || starts ip "fe9"
        || starts ip "fea"
        || starts ip "feb")
      && text_le "fe80" (take_text 4 ip)
      && text_le (take_text 4 ip) "febf"

  -- isBlockedIpv6.
  unfoldable pub is_blocked_ipv6 : String → Bool
  unfolding is_blocked_ipv4
  is_blocked_ipv6 ip =
      let lower = on.lower ip in
      if str_eq lower "::"
      then true
      else if str_eq lower "::1"
      then true
      else if is_link_local lower
      then true
      else if is_mapped lower
      then is_blocked_ipv4 (drop_text 7 lower)
      else false

  -- isBlockedIp.
  unfoldable pub is_blocked_ip : String → Bool
  unfolding is_blocked_ipv4 is_blocked_ipv6
  is_blocked_ip ip =
      if on.is_ipv4 ip
      then is_blocked_ipv4 ip
      else if on.is_ipv6 ip
      then is_blocked_ipv6 ip
      else false

  -- The host name with no brackets.
  abbrev pub bare_host : String → String
  bare_host h =
      if starts h "[" && ends_with h "]" then take_text (count h - 2) (drop_text 1 h) else h

  abbrev pub check_all : List String → Checked (Unit {0})
  check_all [] = accepted tt
  check_all (a ∷ l) = if is_blocked_ip a then refused blocked_ip else check_all l

  -- isIP(hostname) > 0.
  abbrev pub is_ip : String → Bool
  is_ip h = on.is_ipv4 h || on.is_ipv6 h

  abbrev pub check_resolved : Bool → Outcome (List String) → Checked (Unit {0})
  check_resolved allows (throws m) = refused dns_resolution_failed
  check_resolved true (ok l) = accepted tt
  check_resolved false (ok l) = check_all l

  -- validateMonicaUrl of a parsed URL; `lookup` resolves a host name to its addresses.
  abbrev pub validate_host : Bool → (String → Outcome (List String)) → String → Checked (Unit {0})
  validate_host allows lookup h =
      if is_ip h
      then if not allows && is_blocked_ip h then refused blocked_ip else accepted tt
      else check_resolved allows (lookup h)

  unfoldable pub validate_monica_url :
      (allow_private_network_targets : Bool)
      → (String → Outcome (List String))
      → Url
      → Checked (Unit {0})
  unfolding is_blocked_ip
  validate_monica_url allows lookup u =
      if str_eq u.protocol "http:" && not allows
      then refused http_not_allowed
      else validate_host allows lookup (bare_host u.hostname)
