-- ===== src/Activity/Store/Laws.antt =====
-- What the transactions on activities write.

use family_assistant.Base.{
  inl, inr, String, Option, none, some, Bool, true, false, List, [], ◌∷◌, ◌≡◌, refl, arith,
  Option-cases, Bool-cases, All, sym, subst,
}
use family_assistant.Base.Result.{ok}
use family_assistant.Base.Text.{◌=ₛ◌}
use family_assistant.Base.Table.{get, modify, update_where, update_where-some, find_where}
use family_assistant.Activity.Model.{Activity}
use family_assistant.Activity.Store.{ActivityError, fail_if, or_fail, key}

pub or_fail_ok {ℓ} :
    {A : Type ℓ} (e : ActivityError) (o : Option A) (a : A) → or_fail e o ≡ ok a → o ≡ some a
or_fail_ok e none a h = absurd (ground arith)
or_fail_ok e (some x) a h = ground arith

pub fail_if_ok : (b : Bool) (e : ActivityError) (u : Unit {0}) → fail_if b e ≡ ok u → b ≡ false
fail_if_ok true e u h = absurd (ground arith)
fail_if_ok false e u h = refl

pub find_where-get :
    (k : String) (p : Activity → Bool) (rows : List Activity) (a : Activity)
    → find_where key k p rows ≡ some a
    → (get key k rows ≡ some a) × (p a ≡ true)
unfolding find_where
find_where-get k p rows a h = elim (Option-cases (get key k rows)) [
  | inl e ↦ absurd (ground arith)
  | inr (r, e) ↦ (ground arith, ground arith)
]

-- What holds of all rows still does after one of them was replaced by a row of which it holds.
pub All-modify {ℓ} :
    (P : Activity → Type ℓ) (k : String) (f : Activity → Activity) (rows : List Activity)
    → All P rows
    → ((a : Activity) → get key k rows ≡ some a → P a → P (f a))
    → All P (modify key k f rows)
unfolding get modify
All-modify P k f [] h keep = tt
All-modify P k f (a ∷ rows) (p, h) keep = elim (Bool-cases (a.id =ₛ k)) [
  | inl q ↦ rw q (keep a (rw q refl) p, h)
  | inr q ↦ rw q (p, All-modify P k f rows h (λ b g. keep b (rw q g)))
]

pub All-get {ℓ} :
    (P : Activity → Type ℓ) (k : String) (rows : List Activity) (a : Activity)
    → All P rows
    → get key k rows ≡ some a
    → P a
unfolding get
All-get P k [] a h e = absurd (ground arith)
All-get P k (b ∷ rows) a (p, h) e = elim (Bool-cases (b.id =ₛ k)) [
  | inl q ↦ let same : b ≡ a = ground arith in subst P same p
  | inr q ↦ All-get P k rows a h (ground arith)
]

-- A successful UPDATE of one row.
pub update_where-All {ℓ} :
    (P : Activity → Type ℓ) (k : String) (p : Activity → Bool) (f : Activity → Activity)
    (rows rows' : List Activity)
    → ((a : Activity) → (f a).id ≡ a.id)
    → update_where key k p f rows ≡ some rows'
    → All P rows
    → ((a : Activity) → get key k rows ≡ some a → P a → P (f a))
    → All P rows'
update_where-All P k p f rows rows' same h all keep =
    let (r, e, q, m, g) = update_where-some key k p f rows rows' same h in
    subst (All P) (sym m) (All-modify P k f rows all keep)
