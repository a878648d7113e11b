-- ===== src/Telegram/Prompt.antt =====
-- Each button under a confirmation prompt brings the agent the pending command of the prompt.
use monica_companion.Base.{
  ℕ, ◌≡◌, ◌≢◌, ◌∙◌, refl, ap, subst, false, Option, some, List, [], ◌∷◌, String, eq_iff, arith,
}
use monica_companion.Effects.{Outcome, ok, throws}
use monica_companion.Json.{Json, decimal}
use monica_companion.Agent.World.{Outside}
use monica_companion.Agent.Callback.{callback_action, parse_callback_data}
use monica_companion.Telegram.{
  encode_callback_data, confirmation_prompt, Button, button, beside, buttons_of, pressed,
}
use monica_companion.Telegram.Laws.{has_colon, pressed-encode}

-- What a button does when it is pressed.
abbrev pub Reaches : (String → Option ℕ) → Outside → String → String → Button → Type 0
Reaches number out id action b =
    (callback : String) × (pressed number b ≡ some (callback_action action callback))
    × (parse_callback_data out callback ≡ some id)

beside_ok :
    (x : Outcome Button) (y : Outcome (List Button)) (bs : List Button)
    → beside x y ≡ ok bs
    → (b : Button) × (l : List Button) × (x ≡ ok b) × (y ≡ ok l) × (bs ≡ b ∷ l)
beside_ok (throws m) y bs h = absurd (ground (arith, h))
beside_ok (ok b) (throws m) bs h = absurd (ground (arith, h))
beside_ok (ok b) (ok l) bs h = (b, l, refl, refl, ground (arith, h))

module _ (number : String → Option ℕ) (out : Outside) (id : String) (version : ℕ) (n : Json) where
  button-Reaches :
      (text action : String) (o : Outcome String) (b : Button)
      → encode_callback_data action id version ≡ o
      → has_colon action ≡ false
      → action ≢ ""
      → id ≢ ""
      → number (decimal version) ≡ some version
      → out.number (decimal version) ≡ some n
      → button text o ≡ ok b
      → Reaches number out id action b
  button-Reaches text action (throws m) b e plain named given digits digits' h =
      absurd (ground (arith, h))
  button-Reaches text action (ok s) b e plain named given digits digits' h =
      let same : record { text = text; callback_data = s } ≡ b = ground (arith, h) in
      subst (Reaches number out id action) same
        (pressed-encode number out text action id s version n plain named given digits digits' e)

  -- If a confirmation prompt with a nonempty identifier is rendered, and the version reads back as
  -- the number that was printed, then its three buttons, when pressed, are forwarded as the actions
  -- confirm, edit and cancel with callback data that the agent reads as this identifier.
  pub buttons_of-Reaches :
      (text : String) (bs : List Button)
      → id ≢ ""
      → number (decimal version) ≡ some version
      → out.number (decimal version) ≡ some n
      → buttons_of (confirmation_prompt text (some id) (some version)) ≡ ok bs
      → (yes_button edit_button cancel_button : Button) × (bs
          ≡ yes_button ∷ edit_button ∷ cancel_button ∷ [])
        × Reaches number out id "confirm" yes_button
        × Reaches number out id "edit" edit_button
        × Reaches number out id "cancel" cancel_button
  unfolding buttons_of
  buttons_of-Reaches text bs given digits digits' h =
      let press = λ (action : String). encode_callback_data action id version in
      let cancels = beside (button "Cancel" (press "cancel")) (ok []) in
      let edits = beside (button "Edit" (press "edit")) cancels in
      let (b, l, yes_ok, rest, all) = beside_ok (button "Yes" (press "confirm")) edits bs h in
      let (b', l', edit_ok, rest', all') =
        beside_ok (button "Edit" (press "edit")) cancels l rest in
      let (b'', l'', cancel_ok, rest'', all'') =
        beside_ok (button "Cancel" (press "cancel")) (ok []) l' rest' in
      (
        b,
        b',
        b'',
        all ∙ ap (◌∷◌ b) (all' ∙ ap (◌∷◌ b') (all'' ∙ ap (◌∷◌ b'') (ground (arith, rest'')))),
        button-Reaches "Yes" "confirm" (press "confirm") b refl refl
            (λ e. ground (arith, e, eq_iff "confirm" "")) given digits digits' yes_ok,
        button-Reaches "Edit" "edit" (press "edit") b' refl refl
            (λ e. ground (arith, e, eq_iff "edit" "")) given digits digits' edit_ok,
        button-Reaches "Cancel" "cancel" (press "cancel") b'' refl refl
            (λ e. ground (arith, e, eq_iff "cancel" "")) given digits digits' cancel_ok,
      )
