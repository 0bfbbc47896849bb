-- ===== src/Store/Sql.antt =====
-- The shapes of the SQL in src/store-d1.ts, over one table: SELECT ... WHERE as the first row,
-- UPDATE ... WHERE over all rows, and INSERT ... ON CONFLICT DO UPDATE.
use prism_control_plane.Prelude.{
  ◌≡◌, refl, Bool, true, false, Option, none, some, List, [], ◌∷◌, arith, All, if◌then◌else◌,
  Bool-cases, inl, inr,
}

module _ {R : Type 0} where
  -- `SELECT ... WHERE p` then `.first()`
  unfoldable pub first_where : (R → Bool) → List R → Option R
  first_where p [] = none
  first_where p (r ∷ t) = if p r then some r else first_where p t

  -- `UPDATE ... SET f WHERE p`
  unfoldable pub update_where : (R → Bool) → (R → R) → List R → List R
  update_where p f [] = []
  update_where p f (r ∷ t) = (if p r then f r else r) ∷ update_where p f t

  -- `INSERT ... ON CONFLICT DO UPDATE SET f`: the first row in conflict changes, or `new` is added.
  unfoldable pub upsert : (R → Bool) → (R → R) → R → List R → List R
  upsert p f new [] = new ∷ []
  upsert p f new (r ∷ t) = if p r then f r ∷ t else r ∷ upsert p f new t

  pub first_where-holds :
      (p : R → Bool) (t : List R) (r : R) → first_where p t ≡ some r → p r ≡ true
  unfolding first_where
  first_where-holds p [] r h = cc
  first_where-holds p (x ∷ t) r h = elim (Bool-cases (p x)) [
    | inl e ↦ let same : x ≡ r = ground arith in rw (← same) e
    | inr e ↦ first_where-holds p t r (ground arith)
  ]

  pub first_where-All {κ} :
      (P : R → Type κ) (p : R → Bool) (t : List R) (r : R)
      → All P t
      → first_where p t ≡ some r
      → P r
  unfolding first_where
  first_where-All P p [] r a h = absurd (cc)
  first_where-All P p (x ∷ t) r (y, ys) h = elim (Bool-cases (p x)) [
    | inl e ↦ let same : x ≡ r = ground arith in rw (← same) y
    | inr e ↦ first_where-All P p t r ys (ground arith)
  ]

  -- An update that keeps what the query looks at changes the row that is found.
  pub first_where-update_where :
      (p q : R → Bool) (f : R → R) (t : List R)
      → ((r : R) → q (f r) ≡ q r)
      → first_where q (update_where p f t)
        ≡ elim (first_where q t) [ none ↦ none | some r ↦ some (if p r then f r else r) ]
  unfolding first_where update_where
  first_where-update_where p q f [] h = refl
  first_where-update_where p q f (r ∷ t) h = ground (arith, h r, first_where-update_where p q f t h)

  -- An invariant of all rows is kept if it is on the rows that the update changes and on those
  -- that it leaves.
  pub All-update_where {κ} :
      (P Q : R → Type κ) (p : R → Bool) (f : R → R) (t : List R)
      → ((r : R) → p r ≡ true → P r → Q (f r))
      → ((r : R) → p r ≡ false → P r → Q r)
      → All P t
      → All Q (update_where p f t)
  unfolding update_where
  All-update_where P Q p f [] h k a = tt
  All-update_where P Q p f (r ∷ t) h k (x, xs) =
      let rest = All-update_where P Q p f t h k xs in
      elim (Bool-cases (p r)) [ inl e ↦ rw e (h r e x, rest) | inr e ↦ rw e (k r e x, rest) ]

  -- What a query finds after an upsert at a key: `q` looks for one key, `same` says whether it is
  -- the key of the upsert.
  pub first_where-upsert :
      (p q : R → Bool) (f : R → R) (new : R) (t : List R) (same : Bool)
      → ((r : R) → p r ≡ true → (q r ≡ same) × (q (f r) ≡ same))
      → ((r : R) → p r ≡ false → same ≡ true → q r ≡ false)
      → q new ≡ same
      → first_where q (upsert p f new t) ≡ (
          if same
          then some (elim (first_where q t) [ none ↦ new | some r ↦ f r ])
          else first_where q t)
  unfolding first_where upsert
  first_where-upsert p q f new [] same h k e = ground arith
  first_where-upsert p q f new (r ∷ t) same h k e =
      ground (arith, h r, k r, first_where-upsert p q f new t same h k e)
