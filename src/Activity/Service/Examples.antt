-- ===== src/Activity/Service/Examples.antt =====
-- Runs of the service: a mother notes a bottle, corrects it and deletes it.
use family_assistant.Base.{
  ℕ, String, Option, none, some, true, false, List, [], ◌∷◌, ◌≡◌, ◌↔◌, ◌⊎◌, refl, ◌++◌, All,
}
use family_assistant.Base.Int.{pos}
use family_assistant.Base.Result.{ok}
use family_assistant.Base.Text.{
  ◌=ₛ◌, trim_space, to_lower, fields_func, cut_fields, join, blank_controls, rune_count, is_space,
}
use family_assistant.Base.Table.{get, modify, find_where, update_where}
use family_assistant.Base.Dict.{lookup, erase, assign}
use family_assistant.Schedule.Model.{Time}
use family_assistant.Activity.Values.{number, whole, Details, to_int, numbers_within_bound}
use family_assistant.Activity.Details.{
  opt_int, validate_feeding, validate_kind, validate_details, normalize_kind, apply_details_patch,
}
use family_assistant.Activity.Report.{string_at, int_at}
use family_assistant.Activity.Model.{Activity, FeedingSelector}
use family_assistant.Activity.Note.{feeding_note, is_generated_feeding_note}
use family_assistant.Activity.Select.{
  select_feeding, is_near, is_default, is_open_feeding, sub_time, pick,
}
use family_assistant.Activity.Select.Laws.{
  IsNear, is_near_iff, IsTarget, OnlyOne, select_feeding_ok,
}
use family_assistant.Activity.Store.{
  create, update_locked, apply_update, updated_row, soft_delete, find_by_id_in_space, deleted_row,
}
use family_assistant.Activity.Store.Report.{Outside}
use family_assistant.Activity.Hooks.{
  normalize_subject, create_details, feeding_create, split_feeding_report, feeding_update,
  prepare_details_update,
}
use family_assistant.Activity.Service.{
  Access, Actor, Membership, CreateInput, UpdateInput, create_activity, update_activity,
  delete_activity, has_member, acting_member, activity_member, can_mutate_activity,
  activity_update_fields, prepare_update,
}
use family_assistant.Activity.Service.Laws.{
  created, here, then_step, ValidFeedings, Reaches-ValidFeedings,
}
use family_assistant.Activity.Service.Guard.{
  Guarded, update_activity-Guarded, delete_activity-Guarded,
}
use family_assistant.Activity.Store.{is_live_in, key}

abbrev noon : String
noon = "2026-01-01T12:00:00Z"

abbrev outside : Outside
outside = record {
  rfc3339 = record { format = λ n. noon; parses = λ s. s =ₛ noon };
  show = λ n. "120";
  is_uuid = λ s. true;
  id_before = λ a b. false;
  expired_first = false;
}

abbrev size_of : Details → Option ℕ
size_of d = some 20

abbrev mother : Membership
mother = record {
  id = "m1";
  space_id = "s1";
  user_id = "u1";
  role_name = "space_member";
  status = "ACTIVE";
}

abbrev access : Access
access = record {
  authorize = λ actor permission space. ok tt;
  list_active_members = λ space. ok (mother ∷ []);
}

abbrev actor : Actor
actor = record { user_id = "u1"; space_id = "s1"; member_id = "m1" }

abbrev bottle : Details
bottle = ("volume_ml", number (whole (pos 120))) ∷ []

abbrev input : CreateInput
input = record {
  space = "s1";
  kind = "Feeding";
  subject = "Ann";
  note = "";
  details = bottle;
  occurred_at = 500;
  message_at = 600;
}

abbrev row : Details → String → Time → Activity
row d note at = record {
  id = "a1";
  space_id = "s1";
  created_by_member_id = "m1";
  kind = "feeding";
  subject = "Ann";
  note = note;
  details = d;
  occurred_at = 500;
  created_at = 700;
  updated_at = at;
  deleted_at = none;
}

abbrev noted : Activity
noted = row bottle "Feeding Ann — volume 120 ml" 700

created_run :
    create_activity outside size_of access actor input "a1" 700 [] ≡ ok (noted, noted ∷ [])
unfolding create_activity normalize_kind normalize_subject create_details feeding_create
    split_feeding_report has_member create trim_space to_lower fields_func cut_fields join
    blank_controls rune_count is_space lookup erase assign validate_details validate_kind
    validate_feeding opt_int to_int apply_details_patch numbers_within_bound feeding_note string_at
    int_at get
created_run = refl

Reaches-ValidFeedings_example : ValidFeedings outside size_of (noted ∷ [])
Reaches-ValidFeedings_example =
    Reaches-ValidFeedings outside size_of (λ t. refl) (noted ∷ [])
      (then_step [] [] (noted ∷ []) (here [])
        (created access actor input "a1" 700 [] (noted ∷ []) noted created_run))

abbrev smaller : UpdateInput
smaller = record {
  kind = none;
  subject = none;
  note = none;
  details = ("volume_ml", number (whole (pos 100))) ∷ [];
  occurred_at = none;
}

abbrev corrected : Activity
corrected = row (("volume_ml", number (whole (pos 100))) ∷ []) "Feeding Ann — volume 120 ml" 800

updated_run :
    update_activity outside size_of access actor "s1" "a1" smaller 800 (noted ∷ [])
    ≡ ok (corrected, corrected ∷ [])
unfolding update_activity prepare_update update_locked apply_update updated_row acting_member
    activity_member can_mutate_activity activity_update_fields prepare_details_update feeding_update
    is_generated_feeding_note feeding_note string_at int_at to_int normalize_kind trim_space
    to_lower fields_func cut_fields join validate_details validate_kind validate_feeding opt_int
    lookup erase assign apply_details_patch numbers_within_bound get modify find_where update_where
updated_run = refl

update_activity-Guarded_example :
    Guarded access actor "activities:update" "s1" "a1" (noted ∷ []) (corrected ∷ [])
unfolding trim_space
update_activity-Guarded_example =
    update_activity-Guarded outside size_of access actor "s1" "a1" smaller 800 (noted ∷ [])
      (corrected ∷ []) corrected updated_run

deleted_run :
    delete_activity access actor "s1" "a1" 900 (noted ∷ [])
    ≡ ok (deleted_row 900 noted, deleted_row 900 noted ∷ [])
unfolding delete_activity acting_member activity_member can_mutate_activity find_by_id_in_space
    soft_delete trim_space to_lower get modify find_where update_where
deleted_run = refl

delete_activity-Guarded_example :
    Guarded access actor "activities:delete" "s1" "a1" (noted ∷ []) (deleted_row 900 noted ∷ [])
    × ((other : String)
        → find_where key "a1" (is_live_in other) (deleted_row 900 noted ∷ []) ≡ none)
unfolding trim_space
delete_activity-Guarded_example =
    delete_activity-Guarded access actor "s1" "a1" 900 (noted ∷ []) (deleted_row 900 noted ∷ [])
      (deleted_row 900 noted) deleted_run

is_near_iff_example : (is_near 600 noted ≡ true) ↔ IsNear 600 500
is_near_iff_example = is_near_iff 600 noted

abbrev by_message : FeedingSelector
by_message = record { feeding_id = ""; feeding_time = none; message_at = 600 }

selected_run : select_feeding (noted ∷ []) by_message ≡ ok noted
unfolding select_feeding is_default is_open_feeding sub_time string_at lookup pick
selected_run = refl

select_feeding_ok_example :
    ((by_message.feeding_id ≡ "") × OnlyOne (IsTarget none 600) (noted ∷ []) noted)
    ⊎ ((before : List Activity) × (after : List Activity) × (noted ∷ [] ≡ before ++ noted ∷ after)
        × (noted.id ≡ by_message.feeding_id)
        × All (λ x. ¬ x.id ≡ by_message.feeding_id) before)
select_feeding_ok_example = select_feeding_ok (noted ∷ []) by_message noted selected_run
