-- ===== src/Reminder/Model/Laws.antt =====
-- Reading a status.
use family_assistant.Base.{
  String, none, some, false, ◌≡◌, ◌↔◌, inl, inr, refl, arith, eq_iff, if◌then◌else◌, Bool-cases,
}
use family_assistant.Base.Result.{ok}
use family_assistant.Base.Text.{◌=ₛ◌, trim_space}
use family_assistant.Reminder.Model.{
  Status, pending, sent, completed, cancelled, parse_status, status_text, known_status,
}

written : (s : Status) → known_status (status_text s) ≡ ok (some s)
unfolding status_text
written pending = refl
written sent = refl
written completed = refl
written cancelled = refl

not_blank : (s : Status) → (status_text s =ₛ "") ≡ false
unfolding status_text
not_blank pending = refl
not_blank sent = refl
not_blank completed = refl
not_blank cancelled = refl

known : (v : String) (s : Status) → known_status v ≡ ok (some s) → v ≡ status_text s
unfolding status_text
known v pending h = (eq_iff v "PENDING").0 (ground arith)
known v sent h = (eq_iff v "SENT").0 (ground arith)
known v completed h = (eq_iff v "COMPLETED").0 (ground arith)
known v cancelled h = (eq_iff v "CANCELLED").0 (ground arith)

-- ParseStatus reads a status from exactly the texts that are its own text, spaces around it aside: what
-- is written for a status is read as that status, and no other text is.
pub parse_status_iff :
    (v : String) (s : Status) → (parse_status v ≡ ok (some s)) ↔ (trim_space v ≡ status_text s)
unfolding parse_status
parse_status_iff v s = (there, back)
  where
    there :
        (if trim_space v =ₛ "" then ok none else known_status (trim_space v)) ≡ ok (some s)
        → trim_space v ≡ status_text s
    there h = elim (Bool-cases (trim_space v =ₛ "")) [
      | inl q ↦ absurd (ground arith)
      | inr q ↦ known (trim_space v) s (rw q at h)
    ]

    back :
        trim_space v ≡ status_text s
        → (if trim_space v =ₛ "" then ok none else known_status (trim_space v)) ≡ ok (some s)
    back e = rw (e, not_blank s) (written s)
