-- ===== src/MonicaUrl/Tests.antt =====
-- Addresses and URLs of Monica, and the theorems at concrete ones.
use Prim.Native.Char.{code}
use monica_companion.Base.{
  ℕ, ◌+◌, ◌-◌, ◌*◌, ◌≡◌, ◌↔◌, refl, true, false, ◌||◌, Option, none, some, List, [], ◌∷◌, String,
  str_eq, arith, if◌then◌else◌,
}
use monica_companion.Effects.{Outcome, ok}
use monica_companion.Text.{split_on, count, take_text, drop_text}
use monica_companion.MonicaUrl.{
  accepted, refused, invalid_url, blocked_ip, Url, Platform, is_digit, all_digits, strip_slashes,
  normalize_path, normalize_monica_url, is_blocked_ipv4, is_blocked_ipv6, is_blocked_ip,
  validate_monica_url,
}
use monica_companion.MonicaUrl.Laws.{
  IsSafe, in_blocks, is_blocked_ipv4-in_blocks, validate_monica_url-IsSafe,
}

urls : Unit {0}
unfolding all_digits strip_slashes normalize_path normalize_monica_url is_blocked_ipv4
    is_blocked_ipv6 is_blocked_ip validate_monica_url split_on count take_text drop_text
urls = tt

-- Numerals only.
number_from : ℕ → String → Option ℕ
number_from n String.[] = some n
number_from n (String.◌∷◌ c s) =
    let rest = number_from (n * 10 + (code c - 48)) s in if is_digit c then rest else none

abbrev url : String → String → Url
url protocol host = record {
  protocol = protocol;
  username = "";
  password = "";
  hostname = host;
  port = "8443";
  pathname = "/monica/API//";
  hash = "";
}

abbrev platform : Platform
platform = record {
  url = (λ s. if str_eq s "" then none else some (url "https:" s));
  lower = (λ s. if str_eq s "/monica/API" then "/monica/api" else s);
  number = number_from 0;
  is_ipv4 = (λ s. str_eq s "10.1.2.3" || str_eq s "8.8.8.8");
  is_ipv6 = (λ s. str_eq s "::ffff:7f00:1" || str_eq s "::ffff:127.0.0.1");
}

-- Every name resolves to two addresses.
abbrev lookup : String → Outcome (List String)
lookup h = ok ("8.8.8.8" ∷ (if str_eq h "inside" then "10.1.2.3" else "8.8.8.8") ∷ [])

-- The mapped form of 127.0.0.1 that the URL parser writes is not blocked.
url_tests :
    (normalize_monica_url platform "m.example" ≡ accepted "https://m.example:8443/monica/api")
    × (normalize_monica_url platform "" ≡ refused invalid_url)
    × (validate_monica_url platform false lookup (url "https:" "inside") ≡ refused blocked_ip)
    × (validate_monica_url platform true lookup (url "https:" "inside") ≡ accepted tt)
    × (validate_monica_url platform false lookup (url "https:" "[::ffff:127.0.0.1]")
        ≡ refused blocked_ip)
    × (validate_monica_url platform false lookup (url "https:" "[::ffff:7f00:1]") ≡ accepted tt)
unfolding urls number_from
url_tests = (refl, refl, refl, refl, refl, refl)

is_blocked_ipv4-in_blocks_example :
    is_blocked_ipv4 platform "10.1.2.3" ≡ in_blocks (10 * 16777216 + 1 * 65536 + 2 * 256 + 3)
unfolding urls number_from
is_blocked_ipv4-in_blocks_example =
    is_blocked_ipv4-in_blocks platform "10.1.2.3" 10 1 2 3 refl (omega arith) (omega arith)
      (omega arith)

validate_monica_url-IsSafe_example :
    (validate_monica_url platform false lookup (url "https:" "m.example") ≡ accepted tt)
    ↔ IsSafe platform lookup (url "https:" "m.example")
validate_monica_url-IsSafe_example =
    validate_monica_url-IsSafe platform lookup (url "https:" "m.example")
