-- ===== src/Users/Leaving.antt =====
-- Disconnecting revokes the credentials at once, and the sweeps purge the data.
use monica_companion.Base.{
  ℕ, ◌+◌, ◌≤◌, ◌<◌, ◌≡◌, ◌≢◌, ◌∙◌, refl, sym, inl, Option, none, some, List, [], ◌∷◌, String, arith,
  str_eq, eq_iff, keep, length, All, str_eq_self,
}
use monica_companion.Sql.{row, Unique, row-update_where, row-update_where_ne, row-key}
use monica_companion.SetupToken.{active_for, invalidated}
use monica_companion.SetupToken.Active.{keep-invalidating}
use monica_companion.Purge as Purge
use monica_companion.Purge.{Sweep}
use monica_companion.Purge.Rows as Rows
use monica_companion.Purge.Retries.{run, IsDueSweep, IsSettled, run-IsSettled}
use monica_companion.Users.{
  User, Database, id_of, find_user_by_id, revoked, purge_request, disconnect_user,
}

-- Disconnecting a user who exists schedules the purge for thirty days later: the credentials in the
-- user's row are revoked, no setup token of the user is active, a pending purge request is added,
-- and the row of any other identifier is what it was.
pub disconnect_user_lem :
    (id user_id actor v : String) (cid : Option String) (now : ℕ) (db : Database) (user : User)
    → find_user_by_id db user_id ≡ some user
    → v ≢ user_id
    → ((disconnect_user id user_id actor cid now db).0 ≡ some (now + 2592000000))
      × (find_user_by_id (disconnect_user id user_id actor cid now db).1 user_id
          ≡ some (record user {
            monica_api_token_encrypted = "";
            encryption_key_id = "revoked";
            monica_base_url = "revoked";
            updated_at = now;
          }))
      × (find_user_by_id (disconnect_user id user_id actor cid now db).1 v ≡ find_user_by_id db v)
      × (keep
            (active_for user.telegram_user_id)
            (disconnect_user id user_id actor cid now db).1.tokens.tokens
          ≡ [])
      × ((disconnect_user id user_id actor cid now db).1.purges
          ≡ record {
            id = id;
            user_id = user_id;
            status = Purge.pending;
            reason = "account_disconnection";
            requested_at = now;
            purge_after = now + 2592000000;
            claimed_at = none;
            completed_at = none;
            retry_count = 0;
            error = none;
          }
            ∷ db.purges)
unfolding disconnect_user
disconnect_user_lem id user_id actor v cid now db user found ne =
    rw (found, disconnect_user)
      (
        refl,
        ground (
          arith,
          found,
          row-update_where id_of (λ u. str_eq u.id user_id) (revoked now) user_id db.users
              (λ u. refl),
          row-key id_of user_id db.users user found,
          eq_iff user.id user_id,
        ),
        row-update_where_ne id_of (λ u. str_eq u.id user_id) (revoked now) user_id v db.users
            (λ u. refl) (λ u h. (eq_iff u.id user_id).0 h) (λ e. ne (sym e)),
        keep-invalidating user.telegram_user_id user.telegram_user_id invalidated now
              db.tokens.tokens refl
            ∙ rw (str_eq_self user.telegram_user_id) refl,
        refl,
      )

-- After a user disconnects, under a new identifier for the purge request and with one row for each
-- identifier at most, sweeps with the limit m that see the clock beyond thirty days later settle
-- the purge once there are m of them, m being positive: it is completed, or it has failed m times.
pub disconnect_user-IsSettled :
    (id user_id actor : String) (cid : Option String) (now m : ℕ) (es : List Sweep) (db : Database)
    (user : User)
    → find_user_by_id db user_id ≡ some user
    → Unique Rows.id_of db.purges
    → row Rows.id_of id db.purges ≡ none
    → 0 < m
    → m ≤ length es
    → All (IsDueSweep m (now + 2592000000)) es
    → (x : Purge.Request) × (row Rows.id_of id
          (run es (disconnect_user id user_id actor cid now db).1.purges)
        ≡ some x)
      × IsSettled m x
unfolding disconnect_user
disconnect_user-IsSettled id user_id actor cid now m es db user found u lone some_tries enough due =
    let first = purge_request id user_id now in
    let here : row Rows.id_of id (first ∷ db.purges) ≡ some first = rw (str_eq_self id) refl in
    rw (found, disconnect_user)
      (run-IsSettled m es (first ∷ db.purges) id first (lone, u) here (inl refl) some_tries due
        (omega (arith, enough)))
