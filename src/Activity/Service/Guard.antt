-- ===== src/Activity/Service/Guard.antt =====
-- Who may change which activity.
use family_assistant.Base.{
  ℕ, String, Option, none, some, Bool, true, false, not, ◌&&◌, List, ◌≡◌, ◌⊎◌, inl, inr, refl, ◌∙◌,
  ap, arith, eq_iff, is_some, Bool-cases, subst,
}
use family_assistant.Base.Result.{ok, bind_ok}
use family_assistant.Base.Text.{◌=ₛ◌, trim_space}
use family_assistant.Base.Table.{get, update_where, update_where-some, find_where}
use family_assistant.Schedule.Model.{Time}
use family_assistant.Activity.Values.{Details}
use family_assistant.Activity.Model.{Activity}
use family_assistant.Activity.Store.{
  fail_if, or_fail, is_live_in, key, update_locked, apply_update, updated_row, soft_delete,
  deleted_row, no_ids, record_not_found, nothing_to_update, update_required, find_by_id_in_space,
  forbidden,
}
use family_assistant.Activity.Store.Laws.{or_fail_ok, fail_if_ok, find_where-get}
use family_assistant.Activity.Store.Writes.{ok_same, updated_row_id}
use family_assistant.Activity.Store.Report.{Outside}
use family_assistant.Activity.Service.{
  Access, Actor, Membership, UpdateInput, update_activity, delete_activity, prepare_update,
  acting_member, hide_record, space_of, can_mutate_activity, activity_member, own_role,
}
use family_assistant.Activity.Service.Laws.{hide_record_ok}

-- An owner or an administrator of the space may, and a member where the activity is their own.
abbrev pub MayChange : Membership → Activity → Type 0
MayChange m a =
    (own_role m.role_name ≡ "space_owner")
    ⊎ ((own_role m.role_name ≡ "space_admin")
        ⊎ ((own_role m.role_name ≡ "space_member")
            × (trim_space a.created_by_member_id ≡ trim_space m.id)))

may_change :
    (m : Membership) (a : Activity) → can_mutate_activity m.role_name m.id a ≡ true → MayChange m a
unfolding can_mutate_activity
may_change m a h = elim (Bool-cases (own_role m.role_name =ₛ "space_owner")) [
  | inl q ↦ inl ((eq_iff (own_role m.role_name) "space_owner").0 q)
  | inr q ↦ elim (Bool-cases (own_role m.role_name =ₛ "space_admin")) [
    | inl p ↦ inr (inl ((eq_iff (own_role m.role_name) "space_admin").0 p))
    | inr p ↦ inr (
        inr (
          (eq_iff (own_role m.role_name) "space_member").0 (ground arith),
          (eq_iff (trim_space a.created_by_member_id) (trim_space m.id)).0 (ground arith),
        ))
  ]
]

-- A change of the activity `id` in `space` was allowed, and touched no other activity.
pub record Guarded (access : Access) (actor : Actor) (permission space id : String)
    (rows rows' : List Activity) : Type 0 where
  pub members : List Membership
  pub member : Membership
  pub row : Activity
  pub authorized : access.authorize actor permission space ≡ ok tt
  pub listed : access.list_active_members space ≡ ok members
  pub acting : activity_member members actor.member_id actor.user_id ≡ some member
  pub stored : get key id rows ≡ some row
  pub of_space : row.space_id ≡ space
  pub not_deleted : row.deleted_at ≡ none
  pub may : MayChange member row
  pub others : (j : String) → (id =ₛ j) ≡ false → get key j rows' ≡ get key j rows

record Acting (access : Access) (actor : Actor) (permission space : String) (m : Membership)
    : Type 0 where
  members : List Membership
  authorized : access.authorize actor permission space ≡ ok tt
  listed : access.list_active_members space ≡ ok members
  acting : activity_member members actor.member_id actor.user_id ≡ some m

acts :
    (access : Access) (actor : Actor) (permission space : String) (m : Membership)
    → acting_member access actor permission space ≡ ok m
    → Acting access actor permission space m
unfolding acting_member
acts access actor permission space m h =
    let (_, q1, h1) = bind_ok (access.authorize actor permission space) _ h in
    let (members, q2, h2) = bind_ok (access.list_active_members space) _ h1 in
    record { members = members; authorized = q1; listed = q2; acting = or_fail_ok _ _ _ h2 }

live_space : (space : String) (a : Activity) → is_live_in space a ≡ true → a.space_id ≡ space
live_space space a h = (eq_iff a.space_id space).0 (ground arith)

live_open : (o : Option Time) (b : Bool) → (not (is_some o) && b) ≡ true → o ≡ none
live_open none b h = refl
live_open (some t) b h = absurd (ground arith)

others_same :
    (id : String) (p : Activity → Bool) (f : Activity → Activity) (rows rows' : List Activity)
    → ((a : Activity) → (f a).id ≡ a.id)
    → update_where key id p f rows ≡ some rows'
    → (j : String) → (id =ₛ j) ≡ false
    → get key j rows' ≡ get key j rows
others_same id p f rows rows' same h j n =
    let (r, e, q, m, g) = update_where-some key id p f rows rows' same h in ground (arith, g j, n)

gone :
    (id space other : String) (now : Time) (rows rows' : List Activity)
    → update_where key id (is_live_in space) (deleted_row now) rows ≡ some rows'
    → find_where key id (is_live_in other) rows' ≡ none
unfolding find_where
gone id space other now rows rows' h =
    let (r, e, q, m, g) =
      update_where-some key id (is_live_in space) (deleted_row now) rows rows' (λ b. refl) h in
    let there : get key id rows' ≡ some (deleted_row now r) =
      g id ∙ (rw ((eq_iff id id).1 refl) refl) in
    ground (arith, there)

-- An update that succeeds was authorized for the space, by an active member of it, on a row of that
-- space which is not deleted and which the member may change: any row for an owner or an administrator,
-- an own one for a member. No other row changed.
pub update_activity-Guarded :
    (outside : Outside) (json_size : Details → Option ℕ) (access : Access) (actor : Actor)
    (space id : String) (input : UpdateInput) (now : Time) (rows rows' : List Activity)
    (a : Activity)
    → update_activity outside json_size access actor space id input now rows ≡ ok (a, rows')
    → Guarded access actor "activities:update" (space_of space actor) (trim_space id) rows rows'
unfolding update_activity prepare_update update_locked apply_update
update_activity-Guarded outside json_size access actor space id input now rows rows' a h =
    let s = space_of space actor in
    let k = trim_space id in
    let (m, q, h0) = bind_ok (acting_member access actor "activities:update" s) _ h in
    let who = acts access actor "activities:update" s m q in
    let u = hide_record_ok _ _ h0 in
    let (_, q1, h1) = bind_ok (no_ids s k) _ u in
    let (row, q2, h2) =
      bind_ok (or_fail record_not_found (find_where key k (is_live_in s) rows)) _ h1 in
    let (f, q3, h3) = bind_ok (prepare_update outside json_size m input row) _ h2 in
    let (rows2, q4, h4) = bind_ok (apply_update s k f now rows) _ h3 in
    let (_, q5, w) = bind_ok (fail_if (nothing_to_update f) update_required) _ q4 in
    let (updated, q6, h6) =
      bind_ok (or_fail record_not_found (find_where key k (is_live_in s) rows2)) _ h4 in
    let same : rows2 ≡ rows' = ap (λ x. x.1) (ok_same h6) in
    let (found, live) = find_where-get k (is_live_in s) rows row (or_fail_ok _ _ _ q2) in
    let (_, q7, h7) =
      bind_ok (fail_if (not (can_mutate_activity m.role_name m.id row)) forbidden) _ q3 in
    let allowed = fail_if_ok (not (can_mutate_activity m.role_name m.id row)) forbidden _ q7 in
    record {
      members = who.members;
      member = m;
      row = row;
      authorized = who.authorized;
      listed = who.listed;
      acting = who.acting;
      stored = found;
      of_space = live_space s row live;
      not_deleted = live_open row.deleted_at (row.space_id =ₛ s) live;
      may = may_change m row (ground (arith, allowed));
      others =
          subst (λ x. (j : String) → (k =ₛ j) ≡ false → get key j x ≡ get key j rows) same
            (others_same k (is_live_in s) (updated_row f now) rows rows2 (updated_row_id f now)
              (or_fail_ok _ _ _ w));
    }

-- A deletion that succeeds was authorized for the space, by an active member of it, on a row of that
-- space which is not deleted and which the member may change. No other row changed, and the row itself
-- is no longer found in any space.
pub delete_activity-Guarded :
    (access : Access) (actor : Actor) (space id : String) (now : Time) (rows rows' : List Activity)
    (a : Activity)
    → delete_activity access actor space id now rows ≡ ok (a, rows')
    → Guarded access actor "activities:delete" (space_of space actor) (trim_space id) rows rows'
      × ((other : String) → find_where key (trim_space id) (is_live_in other) rows' ≡ none)
unfolding delete_activity find_by_id_in_space soft_delete
delete_activity-Guarded access actor space id now rows rows' a h =
    let s = space_of space actor in
    let k = trim_space id in
    let (m, q, h1) = bind_ok (acting_member access actor "activities:delete" s) _ h in
    let who = acts access actor "activities:delete" s m q in
    let (row, q2, h2) = bind_ok (hide_record (find_by_id_in_space s k rows)) _ h1 in
    let (_, q3, h3) =
      bind_ok (fail_if (not (can_mutate_activity m.role_name m.id row)) forbidden) _ h2 in
    let (rows2, q4, h4) = bind_ok (hide_record (soft_delete s k now rows)) _ h3 in
    let same : rows2 ≡ rows' = ap (λ x. x.1) (ok_same h4) in
    let (_, q5, f) = bind_ok (no_ids s k) _ (hide_record_ok _ _ q2) in
    let (_, q6, w) = bind_ok (no_ids s k) _ (hide_record_ok _ _ q4) in
    let (found, live) = find_where-get k (is_live_in s) rows row (or_fail_ok _ _ _ f) in
    let allowed = fail_if_ok (not (can_mutate_activity m.role_name m.id row)) forbidden _ q3 in
    (
      record {
        members = who.members;
        member = m;
        row = row;
        authorized = who.authorized;
        listed = who.listed;
        acting = who.acting;
        stored = found;
        of_space = live_space s row live;
        not_deleted = live_open row.deleted_at (row.space_id =ₛ s) live;
        may = may_change m row (ground (arith, allowed));
        others =
            subst (λ x. (j : String) → (k =ₛ j) ≡ false → get key j x ≡ get key j rows) same
              (others_same k (is_live_in s) (deleted_row now) rows rows2 (λ b. refl)
                (or_fail_ok _ _ _ w));
      },
      λ other.
          subst (λ x. find_where key k (is_live_in other) x ≡ none) same
            (gone k s other now rows rows2 (or_fail_ok _ _ _ w)),
    )
