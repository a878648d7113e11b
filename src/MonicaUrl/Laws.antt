-- ===== src/MonicaUrl/Laws.antt =====
-- Which addresses are blocked, and which URLs are accepted in hosted mode.
use monica_companion.Base.{
  ℕ, ◌+◌, ◌*◌, ◌/◌, ◌<◌, ◌≡◌, ◌≢◌, ◌↔◌, ◌∙◌, ap, refl, inl, inr, Bool, true, false, ◌&&◌, ◌||◌,
  some, List, [], ◌∷◌, map, String, str_eq, str_eq-ne, eq_iff, arith, if◌then◌else◌, Bool-cases,
  ◌==◌, leb, All,
}
use monica_companion.Effects.{Outcome, ok, throws}
use monica_companion.Text.{split_on}
use monica_companion.MonicaUrl.{
  accepted, Url, Platform, all_zero, blocked_parts, is_blocked_ipv4, is_blocked_ip, check_all,
  check_resolved, is_ip, bare_host, validate_host, validate_monica_url,
}

-- A block of addresses: those that agree with the base up to the last bits, of which there are
-- 2 ^ bits.
abbrev pub in_block : (base size address : ℕ) → Bool
in_block base size address = address / size == base / size

-- 0.0.0.0/32, 127.0.0.0/8, 10.0.0.0/8, 172.16.0.0/12, 192.168.0.0/16 and 169.254.0.0/16.
abbrev pub in_blocks : ℕ → Bool
in_blocks address =
    in_block 0 1 address
    || in_block 2130706432 16777216 address
    || in_block 167772160 16777216 address
    || in_block 2886729728 1048576 address
    || in_block 3232235520 65536 address
    || in_block 2851995648 65536 address

zero_block :
    (a b c d : ℕ)
    → in_block 0 1 (a * 16777216 + b * 65536 + c * 256 + d)
      ≡ all_zero (some a ∷ some b ∷ some c ∷ some d ∷ [])
zero_block a b c d = ground arith

-- The blocks of eight, twelve and sixteen leading bits.
eight_block :
    (m a b c d : ℕ)
    → b < 256
    → c < 256
    → d < 256
    → in_block (m * 16777216) 16777216 (a * 16777216 + b * 65536 + c * 256 + d) ≡ (a == m)
eight_block m a b c d hb hc hd =
    let q : (a * 16777216 + b * 65536 + c * 256 + d) / 16777216 ≡ a = omega arith in
    let q' : (m * 16777216) / 16777216 ≡ m = omega arith in rw (q, q') refl

sixteen_block :
    (m n a b c d : ℕ)
    → n < 256
    → b < 256
    → c < 256
    → d < 256
    → in_block (m * 16777216 + n * 65536) 65536 (a * 16777216 + b * 65536 + c * 256 + d)
      ≡ (a == m && b == n)
sixteen_block m n a b c d hn hb hc hd =
    let q : (a * 16777216 + b * 65536 + c * 256 + d) / 65536 ≡ a * 256 + b = omega arith in
    let q' : (m * 16777216 + n * 65536) / 65536 ≡ m * 256 + n = omega arith in
    rw (q, q') (ground arith)

twelve_block :
    (a b c d : ℕ)
    → b < 256
    → c < 256
    → d < 256
    → in_block 2886729728 1048576 (a * 16777216 + b * 65536 + c * 256 + d)
      ≡ (a == 172 && leb 16 b && leb b 31)
twelve_block a b c d hb hc hd =
    let q : (a * 16777216 + b * 65536 + c * 256 + d) / 1048576 ≡ a * 16 + b / 16 = omega arith in
    rw q (ground arith)

any_of :
    (p q r s t u : Bool)
    → (if p
        then true
        else if q
        then true
        else if r
        then true
        else if s
        then true
        else if t
        then true
        else u)
      ≡ (p || q || r || s || t || u)
any_of true q r s t u = refl
any_of false true r s t u = refl
any_of false false true s t u = refl
any_of false false false true t u = refl
any_of false false false false true u = refl
any_of false false false false false u = refl

parts_in_blocks :
    (a b c d : ℕ)
    → b < 256
    → c < 256
    → d < 256
    → blocked_parts (some a ∷ some b ∷ some c ∷ some d ∷ [])
      ≡ in_blocks (a * 16777216 + b * 65536 + c * 256 + d)
parts_in_blocks a b c d hb hc hd =
    rw
      (
        zero_block a b c d,
        eight_block 127 a b c d hb hc hd,
        eight_block 10 a b c d hb hc hd,
        twelve_block a b c d hb hc hd,
        sixteen_block 192 168 a b c d (omega arith) hb hc hd,
        sixteen_block 169 254 a b c d (omega arith) hb hc hd,
      )
      (any_of (all_zero (some a ∷ some b ∷ some c ∷ some d ∷ [])) (a == 127) (a == 10)
        (a == 172 && leb 16 b && leb b 31) (a == 192 && b == 168) (a == 169 && b == 254))

-- If the dotted parts of a text read as four numbers, the last three below 256, the tests of the
-- parts block it exactly when the 32-bit address lies in 0.0.0.0/32, 127.0.0.0/8, 10.0.0.0/8,
-- 172.16.0.0/12, 192.168.0.0/16 or 169.254.0.0/16.
pub is_blocked_ipv4-in_blocks :
    (on : Platform) (ip : String) (a b c d : ℕ)
    → map on.number (split_on b'.' ip) ≡ some a ∷ some b ∷ some c ∷ some d ∷ []
    → b < 256
    → c < 256
    → d < 256
    → is_blocked_ipv4 on ip ≡ in_blocks (a * 16777216 + b * 65536 + c * 256 + d)
unfolding is_blocked_ipv4
is_blocked_ipv4-in_blocks on ip a b c d parts hb hc hd =
    ap blocked_parts parts ∙ parts_in_blocks a b c d hb hc hd

-- The addresses that a request to a URL may reach.
abbrev pub addresses : Platform → (String → Outcome (List String)) → Url → Outcome (List String)
addresses on lookup u =
    if is_ip on (bare_host on u.hostname)
    then ok (bare_host on u.hostname ∷ [])
    else lookup (bare_host on u.hostname)

abbrev pub IsPublic : Platform → String → Type 0
IsPublic on a = is_blocked_ip on a ≡ false

-- What acceptance in hosted mode means.
abbrev pub IsSafe : Platform → (String → Outcome (List String)) → Url → Type 0
IsSafe on lookup u =
    (u.protocol ≢ "http:")
    × (l : List String) × (addresses on lookup u ≡ ok l)
    × All (IsPublic on) l

-- The loop over the addresses passes exactly public ones.
check_all-IsPublic :
    (on : Platform) (l : List String) → check_all on l ≡ accepted tt → All (IsPublic on) l
check_all-IsPublic on [] h = tt
check_all-IsPublic on (a ∷ l) h = elim (Bool-cases (is_blocked_ip on a)) [
  | inl e ↦ absurd (ground (arith, e, h))
  | inr e ↦ (e, check_all-IsPublic on l (rw e at h))
]

public-check_all :
    (on : Platform) (l : List String) → All (IsPublic on) l → check_all on l ≡ accepted tt
public-check_all on [] h = refl
public-check_all on (a ∷ l) h = rw h.0 (public-check_all on l h.1)

resolved-IsPublic :
    (on : Platform) (o : Outcome (List String))
    → check_resolved on false o ≡ accepted tt
    → (l : List String) × (o ≡ ok l) × All (IsPublic on) l
resolved-IsPublic on (ok l) h = (l, refl, check_all-IsPublic on l h)
resolved-IsPublic on (throws m) h = absurd (ground (arith, h))

host-IsPublic :
    (on : Platform) (lookup : String → Outcome (List String)) (u : Url)
    → validate_host on false lookup (bare_host on u.hostname) ≡ accepted tt
    → (l : List String) × (addresses on lookup u ≡ ok l) × All (IsPublic on) l
host-IsPublic on lookup u h = elim (Bool-cases (is_ip on (bare_host on u.hostname))) [
  | inl e ↦ elim (Bool-cases (is_blocked_ip on (bare_host on u.hostname))) [
    | inl f ↦ absurd (let h' = rw (e, f) at h in ground (arith, h'))
    | inr f ↦ (bare_host on u.hostname ∷ [], rw e refl, (f, tt))
  ]
  | inr e ↦ rw e (resolved-IsPublic on (lookup (bare_host on u.hostname)) (rw e at h))
]

public-host :
    (on : Platform) (lookup : String → Outcome (List String)) (u : Url) (l : List String)
    → addresses on lookup u ≡ ok l
    → All (IsPublic on) l
    → validate_host on false lookup (bare_host on u.hostname) ≡ accepted tt
public-host on lookup u l found h = elim (Bool-cases (is_ip on (bare_host on u.hostname))) [
  | inl e ↦
      let found' : ok (bare_host on u.hostname ∷ []) ≡ ok l = rw e at found in
      let clear : is_blocked_ip on (bare_host on u.hostname) ≡ false = go l found' h in
      rw (e, clear) refl
  | inr e ↦
      let found' : lookup (bare_host on u.hostname) ≡ ok l = rw e at found in
      rw (e, found') (public-check_all on l h)
]
  where
    go :
        (k : List String)
        → ok (bare_host on u.hostname ∷ []) ≡ ok k
        → All (IsPublic on) k
        → is_blocked_ip on (bare_host on u.hostname) ≡ false
    go [] f g = absurd (ground (arith, f))
    go (x ∷ xs) f g = let same : bare_host on u.hostname ≡ x = ground (arith, f) in rw same g.0

-- In hosted mode a URL is accepted exactly when its protocol is not http: and its host, an address
-- or a name that is resolved, has no blocked address.
pub validate_monica_url-IsSafe :
    (on : Platform) (lookup : String → Outcome (List String)) (u : Url)
    → (validate_monica_url on false lookup u ≡ accepted tt) ↔ IsSafe on lookup u
unfolding validate_monica_url
validate_monica_url-IsSafe on lookup u = (sound, safe)
  where
    sound : validate_monica_url on false lookup u ≡ accepted tt → IsSafe on lookup u
    sound h = elim (Bool-cases (str_eq u.protocol "http:")) [
      | inl e ↦ absurd (let h' = rw (e, validate_monica_url) at h in ground (arith, h'))
      | inr e ↦
          let (l, found, public) = host-IsPublic on lookup u (rw (e, validate_monica_url) at h) in
          ((λ same. ground (arith, e, same, eq_iff u.protocol "http:")), l, found, public)
    ]

    safe : IsSafe on lookup u → validate_monica_url on false lookup u ≡ accepted tt
    safe (secure, l, found, h) =
        rw (str_eq-ne u.protocol "http:" secure, validate_monica_url)
          (public-host on lookup u l found h)
