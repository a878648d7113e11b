-- ===== src/Users/Laws.antt =====
-- What consuming a token creates, and what disconnecting leaves.
use monica_companion.Base.{
  ℕ, ◌<◌, ◌≡◌, ◌≢◌, ◌∙◌, refl, sym, ap, subst, true, Option, none, some, String, eq_iff, arith,
}
use monica_companion.Effects.{ok, throws}
use monica_companion.Sql.{row, row-key, some_of-row, upsert, merged, row-upsert_self, row-upsert_ne}
use monica_companion.SetupToken as SetupToken
use monica_companion.SetupToken.{
  Token, Consumed, consumed_for, active, consume_token, usable, consume_after, use_token,
}
use monica_companion.SetupToken.Laws.{IsTable}
use monica_companion.SetupToken.Once.{IsUsedUp, after-won, is_won}
use monica_companion.Users.{
  User, Preferences, Database, Onboarding, Outside, consumes, invalid_url, telegram_of, user_of,
  new_user, renewed, chosen, create_or_update, consume_route, consume_for, created,
  find_user_by_telegram_id, get_user_preferences, create_consumed,
}

-- A token that is active and has not expired is consumed.
consume_token_usable :
    (id : String) (now : ℕ) (w : SetupToken.World) (t : Token)
    → IsTable w
    → row SetupToken.id_of id w.tokens ≡ some t
    → t.status ≡ active
    → now < t.expires_at
    → ((consume_token id now now w).0 ≡ consumed_for t.telegram_user_id)
      × IsUsedUp id (consume_token id now now w).1
unfolding consume_token consume_after
consume_token_usable id now w t u found is_active later =
    let won : (consume_after (some t) id now now w).0 ≡ consumed_for t.telegram_user_id = ground (
      arith,
      is_active,
      later,
      found,
      eq_iff t.id id,
      row-key SetupToken.id_of id w.tokens t found,
      some_of-row SetupToken.id_of (usable id now) id w.tokens
          (λ x h. (eq_iff x.id id).0 (ground arith)) u,
    ) in
    rw (found, consume_token) (won, after-won (some t) id now now w u (ap is_won won))

-- The row of a user and the preferences hold what onboarding said.
module _ (out : Outside) (u url : String) (o : Onboarding) where
  abbrev pub IsOnboarded : User → Type 0
  IsOnboarded x =
      (x.telegram_user_id ≡ u)
      × (x.monica_base_url ≡ url)
      × (x.monica_api_token_encrypted ≡ out.encrypt o.monica_api_key)
      × (x.encryption_key_id ≡ out.key_id)

  abbrev pub IsChosen : Preferences → Type 0
  IsChosen p =
      (p.connector_type ≡ "telegram")
      × (p.connector_routing_id ≡ u)
      × (p.language ≡ o.language)
      × (p.confirmation_mode ≡ o.confirmation_mode)
      × (p.timezone ≡ o.timezone)
      × (p.reminder_cadence ≡ o.reminder_cadence)
      × (p.reminder_time ≡ o.reminder_time)

  -- A database has the user, and the preferences of that row.
  abbrev pub HasUser : Database → Type 0
  HasUser db =
      (x : User) × (find_user_by_telegram_id db u ≡ some x)
      × IsOnboarded x
      × (p : Preferences) × (get_user_preferences db x.id ≡ some p)
      × IsChosen p

  merged-IsOnboarded :
      (id : String) (now : ℕ) (r : Option User)
      → ((y : User) → r ≡ some y → y.telegram_user_id ≡ u)
      → IsOnboarded (merged telegram_of (new_user out u url o now id) (renewed out u url o now) r)
  merged-IsOnboarded id now none h = (refl, refl, refl, refl)
  merged-IsOnboarded id now (some y) h = (h y refl, refl, refl, refl)

  merged-IsChosen :
      (now : ℕ) (id : String) (r : Option Preferences)
      → IsChosen (
          merged user_of
            (chosen out u url o now id)
            (λ (p : Preferences). chosen out u url o now p.user_id)
            r)
  merged-IsChosen now id none = (refl, refl, refl, refl, refl, refl, refl)
  merged-IsChosen now id (some y) = (refl, refl, refl, refl, refl, refl, refl)

  create_or_update-HasUser :
      (id : String) (now : ℕ) (db : Database) → HasUser (create_or_update out u url o now id db)
  unfolding create_or_update
  create_or_update-HasUser id now db =
      let users =
        upsert telegram_of (new_user out u url o now id) (renewed out u url o now) db.users in
      let x =
        merged telegram_of (new_user out u url o now id) (renewed out u url o now)
          (row telegram_of u db.users) in
      let found : row telegram_of u users ≡ some x =
        row-upsert_self telegram_of (new_user out u url o now id) (renewed out u url o now) db.users
          (λ y. refl) in
      let change = λ (p : Preferences). chosen out u url o now p.user_id in
      let p =
        merged user_of (chosen out u url o now x.id) change (row user_of x.id db.preferences) in
      let named : row user_of x.id
            (upsert user_of (chosen out u url o now x.id) change db.preferences)
          ≡ some p =
        row-upsert_self user_of (chosen out u url o now x.id) change db.preferences (λ y. refl) in
      (
        x,
        found,
        merged-IsOnboarded id now (row telegram_of u db.users)
            (λ y h. row-key telegram_of u db.users y h),
        p,
        rw found named,
        merged-IsChosen now x.id (row user_of x.id db.preferences),
      )

-- Onboarding leaves the tokens and the other users.
create_or_update-tokens :
    (out : Outside) (u url : String) (o : Onboarding) (now : ℕ) (id : String) (db : Database)
    → db.tokens ≡ (create_or_update out u url o now id db).tokens
unfolding create_or_update
create_or_update-tokens out u url o now id db = refl

create_or_update-others :
    (out : Outside) (u v url : String) (o : Onboarding) (now : ℕ) (id : String) (db : Database)
    → v ≢ u
    → find_user_by_telegram_id (create_or_update out u url o now id db) v
      ≡ find_user_by_telegram_id db v
unfolding create_or_update
create_or_update-others out u v url o now id db ne =
    row-upsert_ne telegram_of (new_user out u url o now id) (renewed out u url o now) v db.users
      (λ y. refl) (λ e. ne (sym e))

-- The route with data that pass the checks, up to the normalization of the URL.
consume_route_accepted :
    (out : Outside) (id token_id sig : String) (seen : Token) (o : Onboarding) (now : ℕ)
    (db : Database)
    → row SetupToken.id_of token_id db.tokens.tokens ≡ some seen
    → out.verifies seen sig ≡ true
    → out.is_timezone o.timezone ≡ true
    → out.protocol o.monica_base_url ≡ ok "https:"
    → (consume_token token_id now now db.tokens).0 ≡ consumed_for seen.telegram_user_id
    → consume_route out id token_id sig (some o) now db
      ≡ created out id seen o now
          (consumed_for seen.telegram_user_id)
          (out.normalize o.monica_base_url)
          (record db { tokens = (consume_token token_id now now db.tokens).1 })
unfolding consume_route
consume_route_accepted out id token_id sig seen o now db found signed zoned https won =
    let tokens = (consume_token token_id now now db.tokens).1 in
    ap (λ r. consume_for out id r token_id sig (some o) now db) found
    ∙ rw (signed, zoned, https) (ap (λ c. create_consumed out id seen o now (c, tokens) db) won)

-- If the tokens have one row for each identifier at most, an active token that has not expired is
-- consumed with a valid signature, and the time zone, the protocol and the normalization of the URL
-- pass, then the route answers that the token is consumed, the user of the token has a row with the
-- normalized URL and the encrypted key and preferences as chosen, the token is used up, and no
-- other user's row has changed.
pub consume_route-HasUser :
    (out : Outside) (id token_id sig v url : String) (seen : Token) (o : Onboarding) (now : ℕ)
    (db : Database)
    → IsTable db.tokens
    → row SetupToken.id_of token_id db.tokens.tokens ≡ some seen
    → seen.status ≡ active
    → now < seen.expires_at
    → out.verifies seen sig ≡ true
    → out.is_timezone o.timezone ≡ true
    → out.protocol o.monica_base_url ≡ ok "https:"
    → out.normalize o.monica_base_url ≡ ok url
    → v ≢ seen.telegram_user_id
    → ((consume_route out id token_id sig (some o) now db).0
        ≡ consumes (consumed_for seen.telegram_user_id))
      × HasUser out seen.telegram_user_id url o
          (consume_route out id token_id sig (some o) now db).1
      × IsUsedUp token_id (consume_route out id token_id sig (some o) now db).1.tokens
      × (find_user_by_telegram_id (consume_route out id token_id sig (some o) now db).1 v
          ≡ find_user_by_telegram_id db v)
unfolding consume_route
consume_route-HasUser out id token_id sig v url seen o now db u found is_active later signed zoned
      https normal ne =
    let spent = consume_token_usable token_id now db.tokens seen u found is_active later in
    let tokens = (consume_token token_id now now db.tokens).1 in
    let u' = seen.telegram_user_id in
    let spent_db : Database = record db { tokens = tokens } in
    let e : consume_route out id token_id sig (some o) now db ≡ (
      consumes (consumed_for seen.telegram_user_id),
      create_or_update out seen.telegram_user_id url o now id spent_db,
    ) =
      consume_route_accepted out id token_id sig seen o now db found signed zoned https spent.0
      ∙ ap (λ n. created out id seen o now (consumed_for seen.telegram_user_id) n spent_db)
          normal in
    rw e (
      refl,
      create_or_update-HasUser out seen.telegram_user_id url o id now spent_db,
      subst (IsUsedUp token_id) (create_or_update-tokens out u' url o now id spent_db) spent.1,
      create_or_update-others out u' v url o now id spent_db ne,
    )

-- If the tokens have one row for each identifier at most, an active token that has not expired is
-- consumed with a valid signature, the time zone and the protocol pass, and the URL cannot be
-- normalized, the route answers invalid_url and leaves the users and the preferences as they were,
-- and yet the token is used up.
pub consume_route-IsUsedUp :
    (out : Outside) (id token_id sig message : String) (seen : Token) (o : Onboarding) (now : ℕ)
    (db : Database)
    → IsTable db.tokens
    → row SetupToken.id_of token_id db.tokens.tokens ≡ some seen
    → seen.status ≡ active
    → now < seen.expires_at
    → out.verifies seen sig ≡ true
    → out.is_timezone o.timezone ≡ true
    → out.protocol o.monica_base_url ≡ ok "https:"
    → out.normalize o.monica_base_url ≡ throws message
    → ((consume_route out id token_id sig (some o) now db).0 ≡ invalid_url)
      × IsUsedUp token_id (consume_route out id token_id sig (some o) now db).1.tokens
      × ((consume_route out id token_id sig (some o) now db).1.users ≡ db.users)
      × ((consume_route out id token_id sig (some o) now db).1.preferences ≡ db.preferences)
consume_route-IsUsedUp out id token_id sig message seen o now db u found is_active later signed
      zoned https bad =
    let spent = consume_token_usable token_id now db.tokens seen u found is_active later in
    let spent_db : Database = record db { tokens = (consume_token token_id now now db.tokens).1 } in
    let e : consume_route out id token_id sig (some o) now db ≡ (invalid_url, spent_db) =
      consume_route_accepted out id token_id sig seen o now db found signed zoned https spent.0
      ∙ ap (λ n. created out id seen o now (consumed_for seen.telegram_user_id) n spent_db) bad in
    rw e (refl, spent.1, refl, refl)
