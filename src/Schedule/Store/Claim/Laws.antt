-- ===== src/Schedule/Store/Claim/Laws.antt =====
-- What a claim gives its worker, and to whom it is refused.
use family_assistant.Base.{
  ℕ, suc, ◌+◌, ◌<◌, ◌≤◌, String, some, Bool, true, false, List, [], ◌∷◌, ◌≡◌, inl, inr, refl, ap,
  arith, eq_iff, Bool-cases, length, length-take, All, ◌&&◌,
}
use family_assistant.Base.Result.{Result, ok, bind_ok}
use family_assistant.Base.Table.{get}
use family_assistant.Base.Text.{◌=ₛ◌}
use family_assistant.Schedule.Model.{Time, Delivery, is_pending}
use family_assistant.Schedule.Store.Rows.{
  StoreError, Store, Directory, delivery_key, update_delivery, until_after, claim_conflict,
}
use family_assistant.Schedule.Store.Claim.{
  is_open, is_claimable, leased_row, claim_delivery, claim_all, claim_due, batch_limit,
  due_deliveries,
}
use family_assistant.Schedule.Store.Invariant.{Inv, update_delivery_ok}
use family_assistant.Schedule.Store.Invariant.Writes.{update_delivery-Inv}

-- The write of a claim.
abbrev claim_write : Directory → Store → Delivery → String → Time → Time → Result StoreError Store
claim_write dir st d token now until =
    update_delivery st d.id (λ row. is_open now row && is_claimable dir st row.scheduled_message_id)
      (leased_row token until now) claim_conflict

claim_delivery_ok :
    (dir : Directory) (st st' : Store) (d d' : Delivery) (token : String) (now until : Time)
    → claim_delivery dir st d token now until ≡ ok (d', st')
    → (claim_write dir st d token now until ≡ ok st') × (d' ≡ leased_row token until now d)
unfolding claim_delivery
claim_delivery_ok dir st st' d d' token now until h =
    let (s, e, q) = bind_ok (claim_write dir st d token now until) _ h in
    (ground (arith, e), ground arith)

open_pending :
    (now : Time) (r : Delivery) (b : Bool)
    → (is_open now r && b) ≡ true
    → is_pending r.status ≡ true
unfolding is_open
open_pending now r b h = ground arith

claim_delivery-Inv :
    (dir : Directory) (st st' : Store) (d d' : Delivery) (token : String) (now until : Time)
    → claim_delivery dir st d token now until ≡ ok (d', st')
    → Inv st
    → Inv st'
claim_delivery-Inv dir st st' d d' token now until h v =
    let (e, _) = claim_delivery_ok dir st st' d d' token now until h in
    update_delivery-Inv st st' d.id _ (leased_row token until now) claim_conflict (λ r. refl)
      (λ r. refl) (λ r t. open_pending now r _ t) e v
      (λ r t off. absurd (ground (arith, open_pending now r _ t)))

open_free :
    (now : Time) (r : Delivery) (b : Bool)
    → (is_open now r && b) ≡ true
    → until_after r.lease_expires_at now ≡ false
unfolding is_open
open_free now r b h = ground arith

-- A row under a live lease is not the row that a claim writes, and stays as it is.
claim_delivery_skips :
    (dir : Directory) (st st' : Store) (d d' : Delivery) (token : String) (now until : Time)
    (j : String) (x : Delivery)
    → claim_delivery dir st d token now until ≡ ok (d', st')
    → get delivery_key j st.deliveries ≡ some x
    → until_after x.lease_expires_at now ≡ true
    → (get delivery_key j st'.deliveries ≡ some x) × ((d'.id =ₛ j) ≡ false)
claim_delivery_skips dir st st' d d' token now until j x h at live =
    let (e, same) = claim_delivery_ok dir st st' d d' token now until h in
    let (r, found, holds, _, law) =
      update_delivery_ok st st' d.id _ (leased_row token until now) claim_conflict (λ r. refl) e in
    elim (Bool-cases (d.id =ₛ j)) [
      | inl hit ↦ absurd (ground (arith, eq_iff d.id j, open_free now r _ holds))
      | inr miss ↦ (ground (arith, law j), ground (arith, same))
    ]

-- The row of a claimed delivery carries its lease, up to `until`.
abbrev pub Granted : Store → Time → Delivery → Type 0
Granted st until d =
    (row : Delivery) × (get delivery_key d.id st.deliveries ≡ some row)
    × (row.lease_token ≡ d.lease_token)
    × (row.lease_expires_at ≡ some until)
    × (is_pending row.status ≡ true)

claim_delivery-Granted :
    (dir : Directory) (st st' : Store) (d d' : Delivery) (token : String) (now until : Time)
    → claim_delivery dir st d token now until ≡ ok (d', st')
    → Granted st' until d'
claim_delivery-Granted dir st st' d d' token now until h =
    let (e, same) = claim_delivery_ok dir st st' d d' token now until h in
    let (r, found, holds, _, law) =
      update_delivery_ok st st' d.id _ (leased_row token until now) claim_conflict (λ r. refl) e in
    (
      leased_row token until now r,
      ground (arith, law d'.id, same, eq_iff d.id d.id),
      ground (arith, same),
      refl,
      open_pending now r _ holds,
    )

module _ (dir : Directory) (tokens : ℕ → String) (now until : Time) where
  claim_all_step :
      (n : ℕ) (d : Delivery) (ds : List Delivery) (st st' : Store) (c : List Delivery)
      → claim_all dir tokens n now until (d ∷ ds) st ≡ ok (c, st')
      → (d' : Delivery) × (st1 : Store) × (c' : List Delivery) × (claim_delivery dir st d
            (tokens n)
            now
            until
          ≡ ok (d', st1))
        × (claim_all dir tokens (suc n) now until ds st1 ≡ ok (c', st'))
        × (c ≡ d' ∷ c')
  unfolding claim_all
  claim_all_step n d ds st st' c h =
      let (first, e, h') = bind_ok (claim_delivery dir st d (tokens n) now until) _ h in
      let (rest, e', h'') = bind_ok (claim_all dir tokens (suc n) now until ds first.1) _ h' in
      (first.0, first.1, rest.0, e, ground (arith, e'), ground arith)

  claim_all-Inv :
      (n : ℕ) (ds : List Delivery) (st st' : Store) (c : List Delivery)
      → claim_all dir tokens n now until ds st ≡ ok (c, st')
      → Inv st
      → Inv st'
  unfolding claim_all
  claim_all-Inv n [] st st' c h v = let e : st ≡ st' = ground arith in rw (← e) v
  claim_all-Inv n (d ∷ ds) st st' c h v =
      let (d', st1, c', e, rest, _) = claim_all_step n d ds st st' c h in
      claim_all-Inv (suc n) ds st1 st' c' rest
        (claim_delivery-Inv dir st st1 d d' (tokens n) now until e v)

  claim_all_skips :
      (n : ℕ) (ds : List Delivery) (st st' : Store) (c : List Delivery) (j : String) (x : Delivery)
      → claim_all dir tokens n now until ds st ≡ ok (c, st')
      → get delivery_key j st.deliveries ≡ some x
      → until_after x.lease_expires_at now ≡ true
      → (get delivery_key j st'.deliveries ≡ some x) × All (λ d. (d.id =ₛ j) ≡ false) c
  unfolding claim_all
  claim_all_skips n [] st st' c j x h at live =
      let e : st ≡ st' = ground arith in let f : c ≡ [] = ground arith in rw (← e, f) (at, tt)
  claim_all_skips n (d ∷ ds) st st' c j x h at live =
      let (d', st1, c', e, rest, f) = claim_all_step n d ds st st' c h in
      let (at1, other) = claim_delivery_skips dir st st1 d d' (tokens n) now until j x e at live in
      let (at', others) = claim_all_skips (suc n) ds st1 st' c' j x rest at1 live in
      rw f (at', (other, others))

  claim_all-Granted :
      (n : ℕ) (ds : List Delivery) (st st' : Store) (c : List Delivery)
      → now < until
      → claim_all dir tokens n now until ds st ≡ ok (c, st')
      → All (Granted st' until) c × (length c ≡ length ds)
  unfolding claim_all
  claim_all-Granted n [] st st' c h q = let f : c ≡ [] = ground arith in rw f (tt, refl)
  claim_all-Granted n (d ∷ ds) st st' c h q =
      let (d', st1, c', e, rest, f) = claim_all_step n d ds st st' c q in
      let (row, at, token, expires, pend) =
        claim_delivery-Granted dir st st1 d d' (tokens n) now until e in
      let (at', _) = claim_all_skips (suc n) ds st1 st' c' d'.id row rest at (ground arith) in
      let (others, same_length) = claim_all-Granted (suc n) ds st1 st' c' h rest in
      rw f (((row, at', token, expires, pend), others), ap suc same_length)

length-due :
    (dir : Directory) (unlocked : String → Bool) (st : Store) (now : Time) (limit : ℕ)
    → length (due_deliveries dir unlocked st now limit) ≤ limit
unfolding due_deliveries
length-due dir unlocked st now limit = length-take limit _

-- ClaimDue keeps the invariant of the tables.
pub claim_due-Inv :
    (dir : Directory) (unlocked : String → Bool) (tokens : ℕ → String) (now : Time)
    (lease limit : ℕ) (st st' : Store) (claimed : List Delivery)
    → claim_due dir unlocked tokens now lease limit st ≡ ok (claimed, st')
    → Inv st
    → Inv st'
unfolding claim_due
claim_due-Inv dir unlocked tokens now lease limit st st' claimed h v =
    claim_all-Inv dir tokens now (now + lease) 0 _ st st' claimed h v

-- With a positive lease, ClaimDue returns at most its batch limit of deliveries (50 where it is 0),
-- and each of them is pending in the tables under the token that it returned, until now + lease. A
-- delivery under a live lease is not among them, and its row stays as it was.
pub claim_due_exclusive :
    (dir : Directory) (unlocked : String → Bool) (tokens : ℕ → String) (now : Time)
    (lease limit : ℕ) (st st' : Store) (claimed : List Delivery)
    → 0 < lease
    → claim_due dir unlocked tokens now lease limit st ≡ ok (claimed, st')
    → (length claimed ≤ batch_limit limit)
      × All (Granted st' (now + lease)) claimed
      × ((j : String) (x : Delivery)
          → get delivery_key j st.deliveries ≡ some x
          → until_after x.lease_expires_at now ≡ true
          → (get delivery_key j st'.deliveries ≡ some x) × All (λ d. (d.id =ₛ j) ≡ false) claimed)
unfolding claim_due
claim_due_exclusive dir unlocked tokens now lease limit st st' claimed pos h =
    let due = due_deliveries dir unlocked st now (batch_limit limit) in
    let (granted, same_length) =
      claim_all-Granted dir tokens now (now + lease) 0 due st st' claimed (omega arith) h in
    (
      omega (arith, same_length, length-due dir unlocked st now (batch_limit limit)),
      granted,
      λ j x at live.
          claim_all_skips dir tokens now (now + lease) 0 due st st' claimed j x h at live,
    )
