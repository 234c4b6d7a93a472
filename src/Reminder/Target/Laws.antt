-- ===== src/Reminder/Target/Laws.antt =====
-- Who a reminder without a stored target is sent to.
use family_assistant.Base.{
  String, Option, none, some, false, ◌&&◌, List, [], ◌∷◌, ◌≡◌, ◌⊎◌, inl, inr, refl, arith, eq_iff,
  Bool-cases, Option-cases,
}
use family_assistant.Base.Result.{Result, ok}
use family_assistant.Base.Text.{◌=ₛ◌, trim_space, to_lower}
use family_assistant.Activity.Service.{Membership}
use family_assistant.Reminder.Model.{Reminder}
use family_assistant.Reminder.Target.{
  DeliveryTarget, TargetError, Contacts, reminder_member_ids, active_reminder_member,
  whatsapp_target, find_target, fallback_target, target, push_id, push_creator, filled,
  stored_target, among,
}

-- An entry of a list.
abbrev pub IsIn : String → List String → Type 0
IsIn id [] = ⊥
IsIn id (x ∷ ids) = (id ≡ x) ⊎ IsIn id ids

-- The target is the WhatsApp identity of an active member with one of the ids.
pub record Reached (contacts : Contacts) (members : List Membership) (ids : List String)
    (t : DeliveryTarget) : Type 0 where
  pub id : String
  pub member : Membership
  pub external : String
  pub found : active_reminder_member members id ≡ some member
  pub is_active : member.status ≡ "ACTIVE"
  pub same_id : trim_space member.id ≡ id
  pub identity : contacts.external_id member.user_id ≡ some external
  pub by_whatsapp : t.provider ≡ "whatsapp"
  pub address : t.address ≡ trim_space external
  pub not_empty : (t.address =ₛ "") ≡ false
  pub of_reminder : IsIn id ids

some_same {ℓ} : {A : Type ℓ} {a b : A} → some a ≡ some b → a ≡ b
some_same h = ground arith

ok_same {ℓ} : {A : Type ℓ} {a b : A} → ◌≡◌ {A = Result TargetError A} (ok a) (ok b) → a ≡ b
ok_same h = ground arith

active_member_ok :
    (members : List Membership) (id : String) (m : Membership)
    → active_reminder_member members id ≡ some m
    → (trim_space m.id ≡ id) × (m.status ≡ "ACTIVE")
unfolding active_reminder_member
active_member_ok [] id m h = absurd (ground arith)
active_member_ok (x ∷ members) id m h =
    elim (Bool-cases (trim_space x.id =ₛ id && x.status =ₛ "ACTIVE")) [
      | inl q ↦
          let e : x ≡ m = ground arith in
          rw (← e) (
            (eq_iff (trim_space x.id) id).0 (ground arith),
            (eq_iff x.status "ACTIVE").0 (ground arith),
          )
      | inr q ↦ active_member_ok members id m (ground arith)
    ]

filled_ok :
    (o : Option String) (t : DeliveryTarget)
    → filled o ≡ some t
    → (x : String) × (o ≡ some x)
      × (t.provider ≡ "whatsapp")
      × (t.address ≡ trim_space x)
      × ((t.address =ₛ "") ≡ false)
filled_ok none t h = absurd (ground arith)
filled_ok (some x) t h = elim (Bool-cases (trim_space x =ₛ "")) [
  | inl q ↦ absurd (ground arith)
  | inr q ↦
      let e : record { provider = "whatsapp"; address = trim_space x } ≡ t =
        some_same (rw q at h) in
      rw (← e) (x, refl, refl, refl, q)
]

whatsapp_target_ok :
    (contacts : Contacts) (m : Membership) (t : DeliveryTarget)
    → whatsapp_target contacts (some m) ≡ some t
    → (x : String) × (contacts.external_id m.user_id ≡ some x)
      × (t.provider ≡ "whatsapp")
      × (t.address ≡ trim_space x)
      × ((t.address =ₛ "") ≡ false)
unfolding whatsapp_target
whatsapp_target_ok contacts m t h = elim (Bool-cases (trim_space m.user_id =ₛ "")) [
  | inl q ↦ absurd (ground arith)
  | inr q ↦ filled_ok (contacts.external_id m.user_id) t (rw q at h)
]

no_member : (contacts : Contacts) (t : DeliveryTarget) → whatsapp_target contacts none ≡ some t → ⊥
unfolding whatsapp_target
no_member contacts t h = ground arith

find_target_ok :
    (contacts : Contacts) (members : List Membership) (ids : List String) (t : DeliveryTarget)
    → find_target contacts members ids ≡ ok t
    → Reached contacts members ids t
find_target_ok contacts members [] t h = absurd (ground arith)
find_target_ok contacts members (id ∷ ids) t h =
    elim (Option-cases (whatsapp_target contacts (active_reminder_member members id))) [
      | inl q ↦
          let r = find_target_ok contacts members ids t (rw q at h) in
          record {
            id = r.id;
            member = r.member;
            external = r.external;
            found = r.found;
            is_active = r.is_active;
            same_id = r.same_id;
            identity = r.identity;
            by_whatsapp = r.by_whatsapp;
            address = r.address;
            not_empty = r.not_empty;
            of_reminder = inr r.of_reminder;
          }
      | inr (t', q) ↦
          let e : t' ≡ t = ok_same (rw q at h) in
          elim (Option-cases (active_reminder_member members id)) [
            | inl z ↦ absurd (no_member contacts t' (rw z at q))
            | inr (m, z) ↦
                let (x, ex, p, a, n) = whatsapp_target_ok contacts m t (rw (z, e) at q) in
                let (same, active) = active_member_ok members id m z in
                record {
                  id = id;
                  member = m;
                  external = x;
                  found = z;
                  is_active = active;
                  same_id = same;
                  identity = ex;
                  by_whatsapp = p;
                  address = a;
                  not_empty = n;
                  of_reminder = inl refl;
                }
          ]
    ]

-- The id is the assignee's or the creator's.
abbrev pub IsConcerned : Reminder → String → Type 0
IsConcerned r id =
    ((a : String) × (r.assignee_member_id ≡ some a) × (id ≡ trim_space a))
    ⊎ (id ≡ trim_space r.created_by_member_id)

pushed :
    (x id : String) (rest : List String)
    → IsIn id (push_id x rest)
    → (id ≡ trim_space x) ⊎ IsIn id rest
pushed x id rest h = elim (Bool-cases (trim_space x =ₛ "")) [
  | inl q ↦ inr (rw q at h)
  | inr q ↦ rw q at h
]

creator_pushed : (a c id : String) → IsIn id (push_creator a c) → id ≡ trim_space c
creator_pushed a c id h = elim (Bool-cases (trim_space a =ₛ trim_space c)) [
  | inl q ↦ absurd (rw q at h)
  | inr q ↦ elim (pushed c id [] (rw q at h)) [ inl e ↦ e | inr f ↦ absurd f ]
]

concerned :
    (r : Reminder) (id : String) (o : Option String)
    → r.assignee_member_id ≡ o
    → IsIn id (reminder_member_ids o r.created_by_member_id)
    → IsConcerned r id
unfolding reminder_member_ids
concerned r id none e h = elim (pushed r.created_by_member_id id [] h) [
  | inl p ↦ inr p
  | inr f ↦ absurd f
]
concerned r id (some a) e h = elim (pushed a id (push_creator a r.created_by_member_id) h) [
  | inl p ↦ inl (a, e, p)
  | inr p ↦ inr (creator_pushed a r.created_by_member_id id p)
]

-- A successful target of a reminder: the stored one, if its provider and its address are both given; if
-- none of them is, the WhatsApp identity of an active member of the space who is the assignee or the
-- creator of the reminder. One without the other has no target.
pub target_ok :
    (contacts : Contacts) (r : Reminder) (t : DeliveryTarget)
    → target contacts r ≡ ok t
    → ((t.provider ≡ to_lower (trim_space r.delivery_provider))
        × (t.address ≡ trim_space r.delivery_target)
        × ((t.provider =ₛ "") ≡ false)
        × ((t.address =ₛ "") ≡ false))
      ⊎ ((to_lower (trim_space r.delivery_provider) ≡ "")
          × (trim_space r.delivery_target ≡ "")
          × ((members : List Membership) × (contacts.active_members r.space_id ≡ some members)
              × ((ids : List String) × Reached contacts members ids t
                  × ((id : String) → IsIn id ids → IsConcerned r id))))
unfolding target fallback_target
target_ok contacts r t h =
    let p = to_lower (trim_space r.delivery_provider) in
    let a = trim_space r.delivery_target in
    elim (Bool-cases (p =ₛ "")) [
      | inl q ↦ elim (Bool-cases (a =ₛ "")) [
        | inl z ↦
            let ids = reminder_member_ids r.assignee_member_id r.created_by_member_id in
            let h1 : among contacts ids (contacts.active_members r.space_id) ≡ ok t =
              rw (q, z) at h in
            elim (Option-cases (contacts.active_members r.space_id)) [
              | inl n ↦ absurd (let y = rw n at h1 in ground arith)
              | inr (members, n) ↦ inr (
                (eq_iff p "").0 q,
                (eq_iff a "").0 z,
                (
                  members,
                  n,
                  (
                    ids,
                    find_target_ok contacts members ids t (rw n at h1),
                    λ id i. concerned r id r.assignee_member_id refl i,
                  ),
                ),
              )
            ]
        | inr z ↦ absurd (let y = rw (q, z) at h in ground arith)
      ]
      | inr q ↦ elim (Bool-cases (a =ₛ "")) [
        | inl z ↦ absurd (let y = rw (q, z) at h in ground arith)
        | inr z ↦
            let e : stored_target r ≡ t = ok_same (rw (q, z) at h) in
            inl (rw (← e) (refl, refl, q, z))
      ]
    ]
