-- ===== src/Telegram/Laws.antt =====
-- The data of a button survives the way through Telegram to the agent.
use Prim.Native.Char.{Char, code}
use text.Mathlib.TextEquality.{Char-path}
use text.Mathlib.TextLemmas.{nil-append, cons-append}
use monica_companion.Base.{
  ℕ, zero, suc, ◌/◌, ◌%◌, ◌≡◌, ◌≢◌, ◌∙◌, refl, ap, inl, inr, Bool, true, false, Option, none, some,
  List, [], ◌∷◌, ◌++◌, String, str_eq-ne, arith, if◌then◌else◌, ltb, ◌==◌, Bool-cases,
}
use monica_companion.Effects.{ok}
use monica_companion.Json.{Json, ◌+++◌, decimal, digit, decimal_from}
use monica_companion.Text.{split_on, put}
use monica_companion.Agent.World.{Outside}
use monica_companion.Agent.Callback.{
  callback_action, split_last, prepended, parsed, identified, parse_callback_data,
}
use monica_companion.Telegram.{
  callback_text, encode_callback_data, callback_data_max_bytes, bytes, inner, final, join, decoded,
  decode_parts, decode_callback_data, event_of, pressed,
}

-- Whether a text has a colon.
abbrev pub has_colon : String → Bool
has_colon String.[] = false
has_colon (String.◌∷◌ c s) = if code c == b':' then true else has_colon s

abbrev colon : Char
colon = ":"

colon_append : (t : String) → ":" +++ t ≡ String.◌∷◌ colon t
colon_append t = cons-append colon "" t ∙ ap (String.◌∷◌ colon) (nil-append t)

-- Prepending a text with no colon to a text that starts with one.
split_word :
    (s t : String) → has_colon s ≡ false → split_on b':' (s +++ (":" +++ t)) ≡ s ∷ split_on b':' t
unfolding split_on
split_word String.[] t h = rw (nil-append (":" +++ t), colon_append t) refl
split_word (String.◌∷◌ c s) t h = elim (Bool-cases (code c == b':')) [
  | inl e ↦ absurd (ground (arith, e, h))
  | inr e ↦
      rw
        (
          cons-append c s (":" +++ t),
          e,
          split_word s t (rw e at h),
          cons-append c "" s,
          nil-append s,
        )
        refl
]

split_none : (s : String) → has_colon s ≡ false → split_on b':' s ≡ s ∷ []
unfolding split_on
split_none String.[] h = refl
split_none (String.◌∷◌ c s) h = elim (Bool-cases (code c == b':')) [
  | inl e ↦ absurd (ground (arith, e, h))
  | inr e ↦ rw (e, split_none s (rw e at h), cons-append c "" s, nil-append s) refl
]

put-ne : (p : String) (l : List String) → put p l ≢ []
put-ne p [] e = absurd (ground (arith, e))
put-ne p (x ∷ l) e = absurd (ground (arith, e))

split-ne : (u : String) → split_on b':' u ≢ []
unfolding split_on
split-ne String.[] e = absurd (ground (arith, e))
split-ne (String.◌∷◌ c s) e = elim (Bool-cases (code c == b':')) [
  | inl h ↦ absurd (let e' = rw h at e in ground (arith, e'))
  | inr h ↦ put-ne (String.◌∷◌ c "") (split_on b':' s) (rw h at e)
]

-- A text that ends in a word with no colon, split at its colons.
split_last_word :
    (s t : String)
    → has_colon t ≡ false
    → split_on b':' (s +++ (":" +++ t)) ≡ split_on b':' s ++ (t ∷ [])
unfolding split_on
split_last_word String.[] t h = rw (nil-append (":" +++ t), colon_append t, split_none t h) refl
split_last_word (String.◌∷◌ c s) t h = elim (Bool-cases (code c == b':')) [
  | inl e ↦ rw (cons-append c s (":" +++ t), e, split_last_word s t h) refl
  | inr e ↦
      rw (cons-append c s (":" +++ t), e, split_last_word s t h)
        (put-append (String.◌∷◌ c "") (split_on b':' s) t (split-ne s))
]
  where
    put-append :
        (p : String) (l : List String) (w : String)
        → l ≢ []
        → put p (l ++ (w ∷ [])) ≡ put p l ++ (w ∷ [])
    put-append p [] w ne = absurd (ne refl)
    put-append p (x ∷ l) w ne = refl

join-cons : (l : List String) → l ≢ [] → join ("" ∷ l) ≡ ":" +++ join l
join-cons [] ne = absurd (ne refl)
join-cons (x ∷ l) ne = nil-append (":" +++ join (x ∷ l))

join-put :
    (c : Char) (l : List String) → l ≢ [] → join (put (String.◌∷◌ c "") l) ≡ String.◌∷◌ c (join l)
join-put c [] ne = absurd (ne refl)
join-put c (x ∷ []) ne = cons-append c "" x ∙ ap (String.◌∷◌ c) (nil-append x)
join-put c (x ∷ y ∷ l) ne =
    rw (cons-append c "" x, nil-append x) (cons-append c x (":" +++ join (y ∷ l)))

join_split : (s : String) → join (split_on b':' s) ≡ s
unfolding split_on
join_split String.[] = refl
join_split (String.◌∷◌ c s) = elim (Bool-cases (code c == b':')) [
  | inl e ↦
      let same : c ≡ colon = Char-path c colon (ground (arith, e)) in
      rw (e, join-cons (split_on b':' s) (split-ne s), join_split s, colon_append s, same) refl
  | inr e ↦ rw (e, join-put c (split_on b':' s) (split-ne s), join_split s) refl
]

-- The parts between the first and the last.
inner-append : (p w : String) (l : List String) → inner p (l ++ (w ∷ [])) ≡ p ∷ l
inner-append p w [] = refl
inner-append p w (q ∷ l) = ap (◌∷◌ p) (inner-append q w l)

final-append : (p w : String) (l : List String) → final p (l ++ (w ∷ [])) ≡ w
final-append p w [] = refl
final-append p w (q ∷ l) = final-append q w l

decode_parts-append :
    (number : String → Option ℕ) (a w : String) (l : List String)
    → l ≢ []
    → decode_parts number (a ∷ (l ++ (w ∷ []))) ≡ decoded a (join l) (number w)
decode_parts-append number a w [] ne = absurd (ne refl)
decode_parts-append number a w (p ∷ []) ne = refl
decode_parts-append number a w (p ∷ q ∷ l) ne =
    ap (λ x. decoded a (join x) (number (final p ((q ∷ l) ++ (w ∷ []))))) (inner-append p w (q ∷ l))
    ∙ ap (λ x. decoded a (join (p ∷ q ∷ l)) (number x)) (final-append p w (q ∷ l))

-- The digits have no colon.
if-colon :
    (b : Bool) (s t : String)
    → has_colon s ≡ false
    → has_colon t ≡ false
    → has_colon (if b then s else t) ≡ false
if-colon true s t hs ht = hs
if-colon false s t hs ht = ht

digit-colon : (n : ℕ) → has_colon (digit n) ≡ false
unfolding digit
digit-colon n = if-colon (n == 0) "0" _ refl (
    if-colon (n == 1) "1" _ refl (
      if-colon (n == 2) "2" _ refl (
        if-colon (n == 3) "3" _ refl (
          if-colon (n == 4) "4" _ refl (
            if-colon (n == 5) "5" _ refl (
              if-colon (n == 6) "6" _ refl
                (if-colon (n == 7) "7" _ refl (if-colon (n == 8) "8" "9" refl refl))))))))

append-colon :
    (s t : String) → has_colon s ≡ false → has_colon t ≡ false → has_colon (s +++ t) ≡ false
append-colon String.[] t hs ht = rw (nil-append t) ht
append-colon (String.◌∷◌ c s) t hs ht = elim (Bool-cases (code c == b':')) [
  | inl e ↦ absurd (ground (arith, e, hs))
  | inr e ↦ rw (cons-append c s t, e) (append-colon s t (rw e at hs) ht)
]

decimal_from-colon : (fuel n : ℕ) → has_colon (decimal_from fuel n) ≡ false
unfolding decimal_from
decimal_from-colon zero n = refl
decimal_from-colon (suc fuel) n = elim (Bool-cases (ltb n 10)) [
  | inl e ↦ rw e (digit-colon n)
  | inr e ↦ rw e (
      append-colon (decimal_from fuel (n / 10)) (digit (n % 10)) (decimal_from-colon fuel (n / 10))
        (digit-colon (n % 10)))
]

decimal-colon : (n : ℕ) → has_colon (decimal n) ≡ false
unfolding decimal
decimal-colon n = decimal_from-colon (suc n) n

-- What is encoded is decoded.
decode_callback_text :
    (number : String → Option ℕ) (action id : String) (version : ℕ)
    → has_colon action ≡ false
    → action ≢ ""
    → id ≢ ""
    → number (decimal version) ≡ some version
    → decode_callback_data number (callback_text action id version)
      ≡ some (record { action = action; pending_command_id = id; version = version })
unfolding decode_callback_data
decode_callback_text number action id version plain named given digits =
    let inside = split_last_word id (decimal version) (decimal-colon version) in
    let whole =
      split_word action (id +++ (":" +++ decimal version)) plain ∙ ap (◌∷◌ action) inside in
    ap (decode_parts number) whole
    ∙ decode_parts-append number action (decimal version) (split_on b':' id) (split-ne id)
    ∙ rw (join_split id, digits, str_eq-ne action "" named, str_eq-ne id "" given) refl

pub decode_callback_data-encode :
    (number : String → Option ℕ) (action id s : String) (version : ℕ)
    → has_colon action ≡ false
    → action ≢ ""
    → id ≢ ""
    → number (decimal version) ≡ some version
    → encode_callback_data action id version ≡ ok s
    → decode_callback_data number s
      ≡ some (record { action = action; pending_command_id = id; version = version })
unfolding encode_callback_data
decode_callback_data-encode number action id s version plain named given digits sent =
    elim (Bool-cases (ltb callback_data_max_bytes (bytes (callback_text action id version)))) [
      | inl e ↦ absurd (let sent' = rw (e, encode_callback_data) at sent in ground (arith, sent'))
      | inr e ↦
          let sent' : ok (callback_text action id version) ≡ ok s =
            rw (e, encode_callback_data) at sent in
          let same : callback_text action id version ≡ s = ground (arith, sent') in
          rw (← same) (decode_callback_text number action id version plain named given digits)
    ]

-- The agent's reading of the event.
split_last-none : (s : String) → has_colon s ≡ false → split_last s ≡ none
unfolding split_last
split_last-none String.[] h = refl
split_last-none (String.◌∷◌ c s) h = elim (Bool-cases (code c == b':')) [
  | inl e ↦ absurd (ground (arith, e, h))
  | inr e ↦ rw (split_last-none s (rw e at h), e) refl
]

split_last_text :
    (s t : String) → has_colon t ≡ false → split_last (s +++ (":" +++ t)) ≡ some (s, t)
unfolding split_last
split_last_text String.[] t h =
    rw (nil-append (":" +++ t), colon_append t, split_last-none t h) refl
split_last_text (String.◌∷◌ c s) t h =
    ap split_last (cons-append c s (":" +++ t))
    ∙ ap (prepended c (s +++ (":" +++ t))) (split_last_text s t h)

-- A pressed button of a prompt reaches the agent with the identifier of the prompt.
pub pressed-encode :
    (number : String → Option ℕ) (out : Outside) (text action id s : String) (version : ℕ)
    (n : Json)
    → has_colon action ≡ false
    → action ≢ ""
    → id ≢ ""
    → number (decimal version) ≡ some version
    → out.number (decimal version) ≡ some n
    → encode_callback_data action id version ≡ ok s
    → (callback : String) × (pressed number (record { text = text; callback_data = s })
        ≡ some (callback_action action callback))
      × (parse_callback_data out callback ≡ some id)
unfolding pressed parse_callback_data
pressed-encode number out text action id s version n plain named given digits digits' sent = (
  id +++ (":" +++ decimal version),
  ap event_of
      (decode_callback_data-encode number action id s version plain named given digits sent),
  ap (parsed out) (split_last_text id (decimal version) (decimal-colon version))
      ∙ ap (identified out id) digits'
      ∙ rw (str_eq-ne id "" given) refl,
)
