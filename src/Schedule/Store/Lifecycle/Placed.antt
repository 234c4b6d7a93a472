-- ===== src/Schedule/Store/Lifecycle/Placed.antt =====
-- repository.go: the delivery that a replacement leaves pending.
use family_assistant.Base.{
  String, Option, none, some, true, false, ◌&&◌, List, [], ◌∷◌, ◌≡◌, refl, arith, eq_iff, ◌==◌, map,
  if◌then◌else◌, Bool-cases, inl, inr,
}
use mathlib.Core.Option
use family_assistant.Base.Result.{ok, bind_ok}
use family_assistant.Base.Table.{get, get-map, get-modify, modify, HasKeys, key-get}
use family_assistant.Base.Text.{◌=ₛ◌}
use family_assistant.Schedule.Model.{Time, Delivery, is_pending}
use family_assistant.Schedule.Store.Rows.{
  conflict, duplicate_key, Store, delivery_key, insert_delivery, find_occurrence,
}
use family_assistant.Schedule.Store.Finish.Laws.{or_error_ok}
use family_assistant.Schedule.Store.Invariant.{insert_delivery-some}
use family_assistant.Schedule.Store.Lifecycle.{
  require, is_pending_of, is_replaced, is_replaceable, cancel_where, revived_row, replacement_row,
  write_replacement, replace_pending_occurrence,
}
use family_assistant.Schedule.Store.Lifecycle.Cancelled.{cancel_where_id}

find_occurrence-get :
    (sid : String) (at : Time) (rows : List Delivery) (e : Delivery)
    → HasKeys delivery_key rows
    → find_occurrence sid at rows ≡ some e
    → (get delivery_key e.id rows ≡ some e) × (e.scheduled_message_id ≡ sid) × (e.scheduled_at ≡ at)
unfolding find_occurrence get
find_occurrence-get sid at [] e k h = absurd (ground arith)
find_occurrence-get sid at (x ∷ rows) e (fresh, k) h =
    elim (Bool-cases (x.scheduled_message_id =ₛ sid && x.scheduled_at == at)) [
      | inl t ↦
          let q : x ≡ e = ground arith in
          rw (← q) (
            ground (arith, eq_iff x.id x.id),
            ground (arith, eq_iff x.scheduled_message_id sid),
            ground arith,
          )
      | inr f ↦
          let (found, own, time) = find_occurrence-get sid at rows e k (ground arith) in
          (ground (arith, eq_iff x.id e.id), own, time)
    ]

-- The tables with every pending delivery of the schedule cancelled.
abbrev pub emptied : Store → String → Time → Store
emptied st id at = record st { deliveries = map (cancel_where (is_pending_of id) at) st.deliveries }

-- The row that the replacement leaves pending, and where it stands.
pub record Placed (st : Store) (id : String) (next : Delivery) (at : Time) (rows : List Delivery)
    : Type 0 where
  pub row : Delivery
  pub on : is_pending row.status ≡ true
  pub own : row.scheduled_message_id ≡ id
  pub time : row.scheduled_at ≡ next.scheduled_at
  pub content : row.content_snapshot ≡ next.content_snapshot
  pub law :
      (j : String)
      → get delivery_key j rows
        ≡ (if row.id =ₛ j then some row else get delivery_key j (emptied st id at).deliveries)

place_new :
    (fresh : String) (st : Store) (id : String) (next : Delivery) (at : Time) (rows : List Delivery)
    → insert_delivery (replacement_row fresh id at next) (emptied st id at).deliveries ≡ some rows
    → Placed st id next at rows
place_new fresh st id next at rows h =
    let (_, law) =
      insert_delivery-some (replacement_row fresh id at next) (emptied st id at).deliveries rows
        h in
    record {
      row = replacement_row fresh id at next;
      on = refl;
      own = refl;
      time = refl;
      content = refl;
      law = law;
    }

same_cancel :
    (id : String) (e : Delivery) (at : Time) (j : String) (o : Option Delivery)
    → (e.id =ₛ j) ≡ false
    → ((d : Delivery) → o ≡ some d → d.id ≡ j)
    → Option.map (cancel_where (is_replaced id (some e)) at) o
      ≡ Option.map (cancel_where (is_pending_of id) at) o
unfolding is_replaced
same_cancel id e at j none miss key = refl
same_cancel id e at j (some d) miss key =
    ground (arith, key d refl, eq_iff d.id e.id, eq_iff e.id j)

module _ (st : Store) (id : String) (next : Delivery) (at : Time) (e : Delivery)
    (keys : HasKeys delivery_key st.deliveries)
    (found : find_occurrence id next.scheduled_at st.deliveries ≡ some e) where
  abbrev rewritten : List Delivery
  rewritten =
      modify delivery_key e.id (revived_row next at)
        (map (cancel_where (is_replaced id (some e)) at) st.deliveries)

  kept_existing : cancel_where (is_replaced id (some e)) at e ≡ e
  unfolding is_replaced
  kept_existing = ground (arith, eq_iff e.id e.id)

  rewritten_law :
      (j : String)
      → get delivery_key j rewritten ≡ (
          if e.id =ₛ j
          then some (revived_row next at e)
          else get delivery_key j (emptied st id at).deliveries)
  rewritten_law j =
      let (here, _, _) = find_occurrence-get id next.scheduled_at st.deliveries e keys found in
      let a =
        get-modify delivery_key e.id j (revived_row next at)
          (map (cancel_where (is_replaced id (some e)) at) st.deliveries) (λ r. refl) in
      let b =
        get-map delivery_key j (cancel_where (is_replaced id (some e)) at) st.deliveries
          (cancel_where_id (is_replaced id (some e)) at) in
      let c =
        get-map delivery_key j (cancel_where (is_pending_of id) at) st.deliveries
          (cancel_where_id (is_pending_of id) at) in
      elim (Bool-cases (e.id =ₛ j)) [
        | inl hit ↦
            let q : get delivery_key j st.deliveries ≡ some e =
              ground (arith, here, eq_iff e.id j) in
            let k = kept_existing in ground (arith, a, b, q, k)
        | inr miss ↦
            let s =
              same_cancel id e at j (get delivery_key j st.deliveries) miss
                (key-get delivery_key j st.deliveries) in
            ground (arith, a, b, c, s)
      ]

  place_existing : Placed st id next at rewritten
  place_existing =
      let (_, own, time) = find_occurrence-get id next.scheduled_at st.deliveries e keys found in
      record {
        row = revived_row next at e;
        on = refl;
        own = own;
        time = time;
        content = refl;
        law = rewritten_law;
      }

placed :
    (fresh : String) (st : Store) (id : String) (next : Delivery) (at : Time) (rows : List Delivery)
    (existing : Option Delivery)
    → HasKeys delivery_key st.deliveries
    → find_occurrence id next.scheduled_at st.deliveries ≡ existing
    → write_replacement fresh id next at existing
        (map (cancel_where (is_replaced id existing) at) st.deliveries)
      ≡ ok rows
    → Placed st id next at rows
unfolding write_replacement is_replaced
placed fresh st id next at rows none keys e h =
    place_new fresh st id next at rows (or_error_ok _ duplicate_key rows h)
placed fresh st id next at rows (some x) keys e h =
    let q : rewritten st id next at x keys e ≡ rows = ground arith in
    rw q at (place_existing st id next at x keys e)

pub replace_ok :
    (fresh : String) (st st1 : Store) (id : String) (next : Delivery) (at : Time)
    (ids : List String)
    → HasKeys delivery_key st.deliveries
    → replace_pending_occurrence fresh st id next at ≡ ok (ids, st1)
    → (rows : List Delivery) × Placed st id next at rows × (record st { deliveries = rows } ≡ st1)
unfolding replace_pending_occurrence
replace_ok fresh st st1 id next at ids keys h =
    let existing : Option Delivery = find_occurrence id next.scheduled_at st.deliveries in
    let (_, _, h1) = bind_ok (require (is_replaceable existing) conflict) _ h in
    let (rows, w, h2) =
      bind_ok
        (write_replacement fresh id next at existing
          (map (cancel_where (is_replaced id existing) at) st.deliveries))
        _ h1 in
    (rows, placed fresh st id next at rows existing keys refl w, ground arith)
