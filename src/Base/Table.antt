-- ===== src/Base/Table.antt =====
-- A database table: its rows under a text primary key, read and written one row at a time.
use family_assistant.Base.Tests.{if◌then◌else◌, Option-cases}
use family_assistant.Base.Text.{◌=ₛ◌}
use Prim.Native.String.{String}
use mathlib.Core.Bool.{Bool, true}
use mathlib.Core.List.{List, [], ◌∷◌, ◌++◌, map}
use mathlib.Core.Logic.{inl, inr}
use mathlib.Core.Option
use mathlib.Core.Option.{Option, none, some}
use mathlib.Core.Path.{◌≡◌, refl}
use native.Mathlib.Omega.{arith}
use text.Mathlib.TextEquality.{eq_iff}

module _ {ℓ} {R : Type ℓ} (key : R → String) where
  -- `WHERE id = k`, the first row.
  unfoldable pub get : String → List R → Option R
  get k [] = none
  get k (r ∷ rs) = if key r =ₛ k then some r else get k rs

  -- The row of that key replaced by `f` of it.
  unfoldable pub modify : String → (R → R) → List R → List R
  modify k f [] = []
  modify k f (r ∷ rs) = if key r =ₛ k then f r ∷ rs else r ∷ modify k f rs

  abbrev touch : (R → Bool) → (R → R) → String → List R → Option R → Option (List R)
  touch p f k rs none = none
  touch p f k rs (some r) = if p r then some (modify k f rs) else none

  -- `UPDATE … WHERE id = k AND p`: `none` when no row is affected.
  unfoldable pub update_where : String → (R → Bool) → (R → R) → List R → Option (List R)
  update_where k p f rs = touch p f k rs (get k rs)

  -- `SELECT … WHERE id = k AND p`.
  unfoldable pub find_where : String → (R → Bool) → List R → Option R
  find_where k p rs = elim (get k rs) [ none ↦ none | some r ↦ if p r then some r else none ]

  pub key-get : (k : String) (rs : List R) (r : R) → get k rs ≡ some r → key r ≡ k
  unfolding get
  key-get k [] r h = ground arith
  key-get k (x ∷ rs) r h = ground (arith, eq_iff (key x) k, key-get k rs r)

  pub get-modify :
      (k j : String) (f : R → R) (rs : List R)
      → ((r : R) → key (f r) ≡ key r)
      → get j (modify k f rs) ≡ (if k =ₛ j then Option.map f (get j rs) else get j rs)
  unfolding get modify
  get-modify k j f [] keep = ground arith
  get-modify k j f (x ∷ rs) keep = ground (
    arith,
    keep x,
    eq_iff (key x) k,
    eq_iff (key x) j,
    eq_iff (key (f x)) j,
    eq_iff k j,
    get-modify k j f rs keep,
  )

  -- A successful update found a row that passes its test, and wrote that row alone.
  pub update_where-some :
      (k : String) (p : R → Bool) (f : R → R) (rs rs' : List R)
      → ((r : R) → key (f r) ≡ key r)
      → update_where k p f rs ≡ some rs'
      → (r : R) × (get k rs ≡ some r)
        × (p r ≡ true)
        × (rs' ≡ modify k f rs)
        × ((j : String) → get j rs' ≡ (if k =ₛ j then some (f r) else get j rs))
  unfolding update_where
  update_where-some k p f rs rs' keep h = elim (Option-cases (get k rs)) [
    | inl e ↦ absurd (ground arith)
    | inr (r, e) ↦ (
      r,
      e,
      ground arith,
      ground arith,
      λ j. ground (arith, get-modify k j f rs keep, eq_iff k j),
    )
  ]

  abbrev pub or_else : Option R → Option R → Option R
  or_else none b = b
  or_else (some a) b = some a

  pub get-append :
      (rs : List R) (r : R) (i : String)
      → get i (rs ++ r ∷ []) ≡ or_else (get i rs) (if key r =ₛ i then some r else none)
  unfolding get
  get-append [] r i = refl
  get-append (x ∷ rs) r i = ground (arith, eq_iff (key x) i, get-append rs r i)

  -- `INSERT`: `none` when the primary key is taken.
  unfoldable pub insert : R → List R → Option (List R)
  insert r rs = elim (get (key r) rs) [ none ↦ some (rs ++ r ∷ []) | some _ ↦ none ]

  -- A successful insert took a free key, and added that row alone.
  pub insert-some :
      (r : R) (rs rs' : List R)
      → insert r rs ≡ some rs'
      → (get (key r) rs ≡ none)
        × ((j : String) → get j rs' ≡ (if key r =ₛ j then some r else get j rs))
  unfolding insert
  insert-some r rs rs' h = (ground arith, λ j. ground (arith, get-append rs r j, eq_iff (key r) j))

  pub find_where_ok :
      (k : String) (p : R → Bool) (rs : List R) (r : R)
      → find_where k p rs ≡ some r
      → (get k rs ≡ some r) × (p r ≡ true) × (key r ≡ k)
  unfolding find_where
  find_where_ok k p rs r h =
      let at : get k rs ≡ some r = ground arith in (at, ground arith, key-get k rs r at)

  -- An update of all rows that keeps the keys.
  pub get-map :
      (k : String) (f : R → R) (rs : List R)
      → ((r : R) → key (f r) ≡ key r)
      → get k (map f rs) ≡ Option.map f (get k rs)
  unfolding get
  get-map k f [] keep = refl
  get-map k f (x ∷ rs) keep =
      ground (arith, keep x, eq_iff (key x) k, eq_iff (key (f x)) k, get-map k f rs keep)

  -- The keys of the rows are distinct (a primary key).
  abbrev pub HasKeys : List R → Type ℓ
  HasKeys [] = Unit
  HasKeys (r ∷ rs) = (get (key r) rs ≡ none) × HasKeys rs
