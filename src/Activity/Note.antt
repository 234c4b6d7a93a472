-- ===== src/Activity/Note.antt =====
-- internal/domain/activity/feeding.go: `FeedingNote` and `IsGeneratedFeedingNote`. The decimal text of a
-- number (fmt's %d) is a parameter.
use family_assistant.Base.{
  String, Option, none, some, Bool, not, ◌&&◌, List, [], ◌∷◌, ◌++◌, if◌then◌else◌,
}
use family_assistant.Base.Int.{ℤ, sub_ℕ, pos_part, neg_part}
use family_assistant.Base.Text.{◌=ₛ◌, trim_space, join}
use Prim.Native.Nat.{◌+◌}
use Prim.Native.String.{◌++◌ as append}
use family_assistant.Activity.Values.{Details}
use family_assistant.Activity.Report.{string_at, int_at}

module _ (show : ℤ → String) where
  abbrev millilitres : String → ℤ → String
  millilitres word n = append word (append (show n) " ml")

  abbrev volume_part : Option ℤ → List String
  volume_part none = []
  volume_part (some v) = millilitres "volume " v ∷ []

  abbrev drunk_part : Option ℤ → List String
  drunk_part none = []
  drunk_part (some v) = millilitres "diminum " v ∷ []

  abbrev difference : ℤ → ℤ → ℤ
  difference a b = sub_ℕ (pos_part a + neg_part b) (pos_part b + neg_part a)

  abbrev drunk_of_expired : Option ℤ → Option ℤ → List String
  drunk_of_expired (some v) (some e) = millilitres "diminum " (difference v e) ∷ []
  drunk_of_expired _ _ = []

  abbrev expired_part : Option ℤ → List String
  expired_part none = "expired" ∷ []
  expired_part (some e) = millilitres "expired " e ∷ []

  abbrev leftover_part : Option ℤ → List String
  leftover_part none = []
  leftover_part (some v) = millilitres "sisa " v ∷ []

  -- The `switch` over the outcome.
  abbrev outcome_parts : String → Option ℤ → Option ℤ → Option ℤ → List String
  outcome_parts outcome volume expired leftover =
      if outcome =ₛ "finished"
      then drunk_part volume ++ "habis" ∷ []
      else if outcome =ₛ "expired"
      then drunk_of_expired volume expired ++ expired_part expired
      else leftover_part leftover

  abbrev with_parts : String → List String → String
  with_parts head [] = head
  with_parts head parts = append head (append " — " (join "; " parts))

  unfoldable pub feeding_note : String → Details → String
  unfolding string_at int_at
  feeding_note subject d = with_parts (trim_space (append "Feeding " (trim_space subject))) (
      volume_part (int_at "volume_ml" d)
      ++ outcome_parts (string_at "outcome" d) (int_at "volume_ml" d) (int_at "expired_ml" d)
          (int_at "leftover_ml" d))

  unfoldable pub is_generated_feeding_note : String → Details → String → Bool
  unfolding feeding_note
  is_generated_feeding_note subject d note = not (note =ₛ "") && note =ₛ feeding_note subject d
