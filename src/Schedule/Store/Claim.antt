-- ===== src/Schedule/Store/Claim.antt =====
-- scheduler_repository.go: `ClaimDue` hands due deliveries to one worker under a lease, and
-- `LoadClaimed` reads a claimed delivery back with its schedule and its target. Rows that another
-- transaction holds are skipped by the database (`SKIP LOCKED`): `unlocked` says which are not.
-- The lease tokens are fresh UUIDs: the n-th token is `tokens n`.
pub mod Laws
use Prim.Native.Nat.{compare as compare_ℕ, Ordering}
use Prim.Native.String.{compare}
use family_assistant.Base.{
  ℕ, suc, ◌+◌, String, Option, none, some, Bool, true, false, ◌&&◌, ◌||◌, List, [], ◌∷◌, ◌==◌, ltb,
  map, take, select, if◌then◌else◌, is_some,
}
use family_assistant.Base.Result.{Result, ok, err, ◌>>=◌, ◌>>◌}
use family_assistant.Base.Table.{get, find_where}
use family_assistant.Base.Text.{◌=ₛ◌, trim_space}
use family_assistant.Schedule.Model.{
  Time, Schedule, Delivery, SpaceChannel, TargetKind, is_active, is_pending,
}
use family_assistant.Schedule.Store.Rows.{
  StoreError, claim_conflict, invalid_target, invalid_whatsapp_identity, record_not_found, Store,
  Directory, schedule_key, delivery_key, is_free, is_due, is_held, space_active, or_error,
  update_delivery,
}

-- The schedule of that id is active, and so is its space.
unfoldable pub is_claimable : Directory → Store → String → Bool
is_claimable dir st id = is_some (
    find_where schedule_key id (λ s. is_active s.status && space_active dir s.space_id)
      st.schedules)

unfoldable pub is_open : Time → Delivery → Bool
is_open now d =
    is_pending d.status && is_due d.next_attempt_at now && is_free d.lease_expires_at now

-- `ORDER BY time ASC, tie ASC`.
abbrev text_before : Ordering → Bool
text_before Ordering.lt = true
text_before _ = false

abbrev by_time : Ordering → String → String → Bool
by_time Ordering.lt a b = true
by_time Ordering.eq a b = text_before (compare a b)
by_time Ordering.gt a b = false

abbrev time_or : Option Time → Time
time_or none = 0
time_or (some t) = t

unfoldable pub comes_before : (Delivery → Time) → (Delivery → String) → Delivery → Delivery → Bool
comes_before time tie a b = by_time (compare_ℕ (time a) (time b)) (tie a) (tie b)

unfoldable pub place :
    (Delivery → Time) → (Delivery → String) → Delivery → List Delivery → List Delivery
place time tie d [] = d ∷ []
place time tie d (e ∷ es) =
    let rest = place time tie d es in if comes_before time tie e d then e ∷ rest else d ∷ e ∷ es

unfoldable pub in_order : (Delivery → Time) → (Delivery → String) → List Delivery → List Delivery
unfolding place comes_before
in_order time tie [] = []
in_order time tie (d ∷ ds) = place time tie d (in_order time tie ds)

abbrev attempt_time : Delivery → Time
attempt_time d = time_or d.next_attempt_at

abbrev schedule_of : Delivery → String
schedule_of d = d.scheduled_message_id

unfoldable pub lock_due_schedule_ids : Directory → (String → Bool) → Store → Time → ℕ → List String
unfolding is_claimable is_open in_order
lock_due_schedule_ids dir unlocked st now limit = map schedule_of (
    take limit (
      in_order attempt_time schedule_of (
        select
          (λ d.
            is_open now d
            && is_claimable dir st d.scheduled_message_id
            && unlocked d.scheduled_message_id)
          st.deliveries)))

unfoldable pub is_one_of : String → List String → Bool
is_one_of id [] = false
is_one_of id (i ∷ ids) = id =ₛ i || is_one_of id ids

unfoldable pub due_deliveries : Directory → (String → Bool) → Store → Time → ℕ → List Delivery
unfolding lock_due_schedule_ids is_one_of is_open in_order
due_deliveries dir unlocked st now limit =
    let ids = lock_due_schedule_ids dir unlocked st now limit in
    take limit (
      in_order attempt_time delivery_key (
        select (λ d. is_one_of d.scheduled_message_id ids && is_open now d && unlocked d.id)
          st.deliveries))

abbrev pub leased_row : String → Time → Time → Delivery → Delivery
leased_row token lease_until now d = record d {
  lease_token = some token;
  lease_expires_at = some lease_until;
  updated_at = now;
}

-- `claimDelivery`: the row is tested again when it is written.
unfoldable pub claim_delivery :
    Directory → Store → Delivery → String → Time → Time → Result StoreError (Delivery × Store)
unfolding is_claimable is_open
claim_delivery dir st d token now lease_until = do
  st' ←
      update_delivery st d.id
        (λ row. is_open now row && is_claimable dir st row.scheduled_message_id)
        (leased_row token lease_until now) claim_conflict
  ok (leased_row token lease_until now d, st')

-- The loop over the due rows: the first failure rolls the transaction back.
unfoldable pub claim_all :
    Directory
    → (ℕ → String)
    → ℕ
    → Time
    → Time
    → List Delivery
    → Store
    → Result StoreError (List Delivery × Store)
unfolding claim_delivery
claim_all dir tokens n now lease_until [] st = ok ([], st)
claim_all dir tokens n now lease_until (d ∷ ds) st = do
  first ← claim_delivery dir st d (tokens n) now lease_until
  rest ← claim_all dir tokens (suc n) now lease_until ds first.1
  ok (first.0 ∷ rest.0, rest.1)

-- `if limit <= 0 { limit = 50 }`
abbrev pub batch_limit : ℕ → ℕ
batch_limit limit = if limit == 0 then 50 else limit

unfoldable pub claim_due :
    Directory
    → (String → Bool)
    → (ℕ → String)
    → Time
    → ℕ
    → ℕ
    → Store
    → Result StoreError (List Delivery × Store)
unfolding due_deliveries claim_all
claim_due dir unlocked tokens now lease limit st =
    claim_all dir tokens 0 now (now + lease)
      (due_deliveries dir unlocked st now (batch_limit limit)) st

-- What `loadTarget` finds: a group's channel, or a recipient's identity and name.
pub record Target : Type 0 where
  pub channel : Option SpaceChannel
  pub identity : Option String
  pub name : String

unfoldable pub load_active_channel : Directory → Schedule → Result StoreError Target
load_active_channel dir s = do
  id ← or_error s.space_channel_id invalid_whatsapp_identity
  channel ← or_error (dir.group_channel id s.space_id) record_not_found
  ok (record { channel = some channel; identity = none; name = "WhatsApp group" })

abbrev check_identity : Bool → Target → Result StoreError Target
check_identity true t = ok t
check_identity false t = err invalid_whatsapp_identity

unfoldable pub load_active_recipient : Directory → Schedule → Result StoreError Target
load_active_recipient dir s = do
  member ← or_error s.recipient_member_id invalid_whatsapp_identity
  identity ← or_error (dir.member_identity member s.space_id) record_not_found
  let found : Target = record {
    channel = none;
    identity = some identity;
    name = trim_space (dir.member_name member s.space_id);
  }
  check_identity (dir.is_whatsapp_identity (trim_space identity)) found

abbrev load_target_of : TargetKind → Directory → Schedule → Result StoreError Target
load_target_of TargetKind.group dir s = load_active_channel dir s
load_target_of _ dir s = load_active_recipient dir s

unfoldable pub load_target : Directory → Schedule → Result StoreError Target
unfolding load_active_channel load_active_recipient
load_target dir s = load_target_of s.target dir s

-- `hasCurrentCreatePermission`
unfoldable pub creator_may_create : Directory → Schedule → Bool
creator_may_create dir s = elim (dir.member_role s.created_by_member_id s.space_id) [
  | none ↦ false
  | some role ↦ dir.may_create role
]

-- `LoadClaimed` returns the rows beside some of its errors.
pub data Loaded : Type 0 where
  loaded : Schedule → Delivery → Target → Loaded
  refused : StoreError → Loaded
  refused_rows : Schedule → Delivery → StoreError → Loaded

-- The error of `loadTarget` as `LoadClaimed` passes it on.
abbrev pub with_target : Schedule → Delivery → Result StoreError Target → Loaded
with_target s d (ok t) = loaded s d t
with_target s d (err StoreError.record_not_found) = refused_rows s d invalid_target
with_target s d (err StoreError.invalid_whatsapp_identity) = refused_rows s d invalid_target
with_target s d (err e) = refused_rows s d e

abbrev pub load_checked : Directory → Schedule → Delivery → Bool → Bool → Loaded
load_checked dir s d true true = with_target s d (load_target dir s)
load_checked dir s d true false = refused_rows s d invalid_target
load_checked dir s d false may_create = refused_rows s d invalid_target

unfoldable pub load_rows : Directory → Option Schedule → Delivery → Loaded
unfolding creator_may_create load_target
load_rows dir none d = refused claim_conflict
load_rows dir (some s) d =
    load_checked dir s d (space_active dir s.space_id) (creator_may_create dir s)

abbrev pub load_held : Directory → Store → Option Delivery → Loaded
load_held dir st none = refused record_not_found
load_held dir st (some d) =
    load_rows dir
      (find_where schedule_key d.scheduled_message_id (λ s. is_active s.status) st.schedules) d

unfoldable pub load_claimed : Directory → Store → String → String → Time → Loaded
unfolding load_rows
load_claimed dir st id token now =
    load_held dir st (find_where delivery_key id (is_held token now) st.deliveries)
