-- ===== src/Sql.antt =====
-- The SQL statements of the services, read over a table as the list of its rows. A WHERE clause is
-- a Boolean test of a row, and RETURNING gives the rows that a statement touched.
use monica_companion.Base.{
  All, ◌≡◌, refl, ◌≢◌, Bool, true, false, Option, none, some, List, [], ◌∷◌, String, str_eq, eq_iff,
  arith, if◌then◌else◌, keep, find, some_of, Bool-cases, Option-cases, inl, inr, ap,
}

module _ {Row : Type 0} where
  -- SELECT * FROM t WHERE p.
  abbrev pub select_where : (Row → Bool) → List Row → List Row
  select_where p t = keep p t

  -- UPDATE t SET f WHERE p.
  unfoldable pub update_where : (Row → Bool) → (Row → Row) → List Row → List Row
  update_where p f [] = []
  update_where p f (r ∷ t) = if p r then f r ∷ update_where p f t else r ∷ update_where p f t

  -- DELETE FROM t WHERE p.
  unfoldable pub delete_where : (Row → Bool) → List Row → List Row
  delete_where p [] = []
  delete_where p (r ∷ t) = if p r then delete_where p t else r ∷ delete_where p t

-- A table whose primary key is a text.
module _ {Row : Type 0} (key : Row → String) where
  -- The row of a key.
  abbrev pub row : String → List Row → Option Row
  row k t = find (λ r. str_eq (key r) k) t

  abbrev pub Unique : List Row → Type 0
  Unique [] = Unit
  Unique (r ∷ t) = (row (key r) t ≡ none) × Unique t

  abbrev pub holds : (Row → Bool) → Option Row → Bool
  holds p none = false
  holds p (some r) = p r

  abbrev pub revised : (Row → Bool) → (Row → Row) → Option Row → Option Row
  revised p f none = none
  revised p f (some r) = if p r then some (f r) else some r

  -- A statement on one key looks at the row of that key alone.
  pub some_of-row :
      (p : Row → Bool) (k : String) (t : List Row)
      → ((r : Row) → p r ≡ true → key r ≡ k)
      → Unique t
      → some_of p t ≡ holds p (row k t)
  some_of-row p k [] only u = refl
  some_of-row p k (r ∷ t) only (fresh, u) = elim (Bool-cases (str_eq (key r) k)) [
    | inl e ↦
        let here : row k t ≡ none = rw (← (eq_iff (key r) k).0 e) fresh in
        ground (arith, here, some_of-row p k t only u)
    | inr e ↦ ground (arith, only r, eq_iff (key r) k, some_of-row p k t only u)
  ]

  pub row-update_where :
      (p : Row → Bool) (f : Row → Row) (k : String) (t : List Row)
      → ((r : Row) → key (f r) ≡ key r)
      → row k (update_where p f t) ≡ revised p f (row k t)
  unfolding update_where
  row-update_where p f k [] same = refl
  row-update_where p f k (r ∷ t) same = ground (arith, same r, row-update_where p f k t same)

  -- An update that names one key leaves the rows of every other key.
  pub row-update_where_ne :
      (p : Row → Bool) (f : Row → Row) (j k : String) (t : List Row)
      → ((r : Row) → key (f r) ≡ key r)
      → ((r : Row) → p r ≡ true → key r ≡ j)
      → j ≢ k
      → row k (update_where p f t) ≡ row k t
  unfolding update_where
  row-update_where_ne p f j k [] same only ne = refl
  row-update_where_ne p f j k (r ∷ t) same only ne =
      ground (arith, same r, only r, eq_iff (key r) k, row-update_where_ne p f j k t same only ne)

  pub update_where-Unique :
      (p : Row → Bool) (f : Row → Row) (t : List Row)
      → ((r : Row) → key (f r) ≡ key r)
      → Unique t
      → Unique (update_where p f t)
  unfolding update_where
  update_where-Unique p f [] same u = tt
  update_where-Unique p f (r ∷ t) same (fresh, u) =
      ground (arith, same r, row-update_where p f (key r) t same, update_where-Unique p f t same u)

  -- A deletion that names one key leaves the rows of every other key.
  pub row-delete_where_ne :
      (p : Row → Bool) (j k : String) (t : List Row)
      → ((r : Row) → p r ≡ true → key r ≡ j)
      → j ≢ k
      → row k (delete_where p t) ≡ row k t
  unfolding delete_where
  row-delete_where_ne p j k [] only ne = refl
  row-delete_where_ne p j k (r ∷ t) only ne =
      ground (arith, only r, eq_iff (key r) k, row-delete_where_ne p j k t only ne)

  abbrev pub unless : (Row → Bool) → Option Row → Option Row
  unless p none = none
  unless p (some r) = if p r then none else some r

  row-delete_where-none :
      (p : Row → Bool) (k : String) (t : List Row)
      → row k t ≡ none
      → row k (delete_where p t) ≡ none
  unfolding delete_where
  row-delete_where-none p k [] h = refl
  row-delete_where-none p k (r ∷ t) h = ground (arith, row-delete_where-none p k t)

  pub row-delete_where :
      (p : Row → Bool) (k : String) (t : List Row)
      → Unique t
      → row k (delete_where p t) ≡ unless p (row k t)
  unfolding delete_where
  row-delete_where p k [] u = refl
  row-delete_where p k (r ∷ t) (fresh, u) = elim (Bool-cases (str_eq (key r) k)) [
    | inl e ↦
        let here : row k t ≡ none = rw (← (eq_iff (key r) k).0 e) fresh in
        ground (arith, row-delete_where-none p k t here)
    | inr e ↦ ground (arith, row-delete_where p k t u)
  ]

  pub delete_where-Unique : (p : Row → Bool) (t : List Row) → Unique t → Unique (delete_where p t)
  unfolding delete_where
  delete_where-Unique p [] u = tt
  delete_where-Unique p (r ∷ t) (fresh, u) =
      ground (arith, row-delete_where-none p (key r) t fresh, delete_where-Unique p t u)

  -- INSERT ... ON CONFLICT (key) DO NOTHING RETURNING: the table, and whether a row was inserted.
  unfoldable pub insert_new : Row → List Row → Bool × List Row
  insert_new r t = elim (row (key r) t) [ none ↦ (true, r ∷ t) | some _ ↦ (false, t) ]

  pub insert_new-Unique : (r : Row) (t : List Row) → Unique t → Unique (insert_new r t).1
  unfolding insert_new
  insert_new-Unique r t u = ground arith

  pub row-key : (k : String) (t : List Row) (x : Row) → row k t ≡ some x → key x ≡ k
  row-key k [] x h = absurd (ground arith)
  row-key k (r ∷ t) x h = ground (arith, eq_iff (key r) k, row-key k t x)

  -- INSERT ... ON CONFLICT (key) DO UPDATE SET f.
  unfoldable pub upsert : Row → (Row → Row) → List Row → List Row
  unfolding update_where
  upsert r f t = elim (row (key r) t) [
    | none ↦ r ∷ t
    | some _ ↦ update_where (λ x. str_eq (key x) (key r)) f t
  ]

  pub row-upsert :
      (r : Row) (f : Row → Row) (k : String) (t : List Row)
      → ((x : Row) → key (f x) ≡ key x)
      → row k (upsert r f t) ≡ (
          if str_eq (key r) k
          then elim (row k t) [ none ↦ some r | some x ↦ some (f x) ]
          else row k t)
  unfolding upsert
  row-upsert r f k t same = elim (Bool-cases (str_eq (key r) k)) [
    | inl e ↦
        let here : row (key r) t ≡ row k t = ap (λ j. row j t) ((eq_iff (key r) k).0 e) in
        elim (Option-cases (row k t)) [
          | inl gone ↦ ground (arith, here, eq_iff (key r) k)
          | inr (x, found) ↦ ground (
            arith,
            here,
            eq_iff (key r) k,
            eq_iff (key x) (key r),
            row-key k t x found,
            row-update_where (λ x. str_eq (key x) (key r)) f k t same,
          )
        ]
    | inr e ↦ elim (Option-cases (row (key r) t)) [
      | inl gone ↦ ground arith
      | inr (x, found) ↦ elim (Option-cases (row k t)) [
        | inl lost ↦ ground (arith, row-update_where (λ x. str_eq (key x) (key r)) f k t same)
        | inr (y, kept) ↦ ground (
          arith,
          eq_iff (key r) k,
          eq_iff (key y) (key r),
          row-key k t y kept,
          row-update_where (λ x. str_eq (key x) (key r)) f k t same,
        )
      ]
    ]
  ]

  -- The row of an upsert's key.
  abbrev pub merged : Row → (Row → Row) → Option Row → Row
  merged r f none = r
  merged r f (some x) = f x

  pub row-upsert_self :
      (r : Row) (f : Row → Row) (t : List Row)
      → ((x : Row) → key (f x) ≡ key x)
      → row (key r) (upsert r f t) ≡ some (merged r f (row (key r) t))
  row-upsert_self r f t same = elim (Option-cases (row (key r) t)) [
    | inl gone ↦ ground (arith, row-upsert r f (key r) t same, gone, eq_iff (key r) (key r))
    | inr (x, found) ↦ ground (arith, row-upsert r f (key r) t same, found, eq_iff (key r) (key r))
  ]

  pub row-upsert_ne :
      (r : Row) (f : Row → Row) (k : String) (t : List Row)
      → ((x : Row) → key (f x) ≡ key x)
      → key r ≢ k
      → row k (upsert r f t) ≡ row k t
  row-upsert_ne r f k t same ne = ground (arith, row-upsert r f k t same, eq_iff (key r) k)

  pub upsert-Unique :
      (r : Row) (f : Row → Row) (t : List Row)
      → ((x : Row) → key (f x) ≡ key x)
      → Unique t
      → Unique (upsert r f t)
  unfolding upsert
  upsert-Unique r f t same u =
      ground (arith, update_where-Unique (λ x. str_eq (key x) (key r)) f t same u)

-- A predicate on every row, kept by the statements.
module _ {Row : Type 0} (P : Row → Type 0) where
  pub update_where-All :
      (p : Row → Bool) (f : Row → Row) (t : List Row)
      → ((r : Row) → P r → P (f r))
      → All P t
      → All P (update_where p f t)
  unfolding update_where
  update_where-All p f [] keeps h = tt
  update_where-All p f (r ∷ t) keeps (h, hs) = elim (Bool-cases (p r)) [
    | inl e ↦ rw (e, update_where) (keeps r h, update_where-All p f t keeps hs)
    | inr e ↦ rw (e, update_where) (h, update_where-All p f t keeps hs)
  ]

  pub upsert-All :
      (key : Row → String) (r : Row) (f : Row → Row) (t : List Row)
      → P r
      → ((x : Row) → P x → P (f x))
      → All P t
      → All P (upsert key r f t)
  unfolding upsert
  upsert-All key r f t new keeps h = elim (Option-cases (row key (key r) t)) [
    | inl e ↦ rw (e, upsert) (new, h)
    | inr (x, e) ↦ rw (e, upsert) (update_where-All (λ y. str_eq (key y) (key r)) f t keeps h)
  ]
