-- ===== src/Agent/History/Laws.antt =====
-- What the history store keeps: one row for each user, a window of the newest messages in it.
use monica_companion.Base.{
  ℕ, ◌≤◌, ◌-◌, zero, suc, ◌≡◌, refl, inl, inr, Option, none, some, List, [], ◌∷◌, ◌++◌, String,
  arith, ap, ◌∙◌, Option-cases, str_eq, eq_iff, All, if◌then◌else◌, length, drop, take, ltb,
  length-drop,
}
use monica_companion.Sql.{Unique, row-upsert, row-delete_where, row-key, upsert-All}
use monica_companion.Agent.Messages.{Message}
use monica_companion.Agent.History.{
  Row, Pending, sliding_window_size, truncated, user_of, get_history, save_history,
  clear_stale_histories,
}

take-drop : {A : Type 0} (n : ℕ) (xs : List A) → take n xs ++ drop n xs ≡ xs
take-drop zero xs = refl
take-drop (suc n) [] = refl
take-drop (suc n) (x ∷ xs) = ap (λ l. x ∷ l) (take-drop n xs)

-- The window is the end of the messages, all of them if there are at most 40, and never longer.
pub truncated_lem :
    (ms : List Message)
    → (take (length ms - sliding_window_size) ms ++ truncated ms ≡ ms)
      × (length (truncated ms) ≤ sliding_window_size)
truncated_lem ms = (
  take-drop (length ms - sliding_window_size) ms,
  omega (arith, length-drop (length ms - sliding_window_size) ms),
)

-- No stored history is longer than the window.
abbrev pub AreShort : List Row → Type 0
AreShort rows = All (λ r. length r.messages ≤ sliding_window_size) rows

pub save-AreShort :
    (u : String) (ms : List Message) (p : Pending) (now : ℕ) (rows : List Row)
    → AreShort rows
    → AreShort (save_history u ms p now rows)
unfolding save_history
save-AreShort u ms p now rows h =
    upsert-All (λ r. length r.messages ≤ sliding_window_size) user_of _ _ rows (truncated_lem ms).1
      (λ r k. (truncated_lem ms).1) h

-- The row that a save stores.
abbrev pub saved : String → List Message → Pending → ℕ → Row
saved u ms p now = record {
  user_id = u;
  messages = truncated ms;
  pending_tool_call = p;
  updated_at = now;
}

-- After a save the history of that user is the window of the saved messages with the saved pending
-- call, whether or not there was a row before; the history of any other user is what it was.
pub get_history-save_history :
    (u v : String) (ms : List Message) (p : Pending) (now : ℕ) (rows : List Row)
    → get_history v (save_history u ms p now rows)
      ≡ (if str_eq u v then some (saved u ms p now) else get_history v rows)
unfolding get_history save_history
get_history-save_history u v ms p now rows =
    row-upsert user_of (saved u ms p now)
      (λ r. record r { messages = truncated ms; pending_tool_call = p; updated_at = now }) v rows
      (λ r. refl)
    ∙ elim (Option-cases (get_history v rows)) [
      | inl gone ↦ ground arith
      | inr (r, found) ↦ ground (arith, row-key user_of v rows r found, eq_iff u v)
    ]

abbrev pub still_fresh : ℕ → Option Row → Option Row
still_fresh cutoff none = none
still_fresh cutoff (some r) = if ltb r.updated_at cutoff then none else some r

-- In a table with one row for each user at most, clearing stale histories removes a user's history
-- if it was last saved before the cutoff, and leaves it otherwise.
pub get_history-clear_stale :
    (u : String) (cutoff : ℕ) (rows : List Row)
    → Unique user_of rows
    → get_history u (clear_stale_histories cutoff rows) ≡ still_fresh cutoff (get_history u rows)
unfolding get_history clear_stale_histories
get_history-clear_stale u cutoff rows h =
    row-delete_where user_of (λ r. ltb r.updated_at cutoff) u rows h
    ∙ elim (Option-cases (get_history u rows)) [
      | inl gone ↦ ground arith
      | inr (r, found) ↦ ground arith
    ]
