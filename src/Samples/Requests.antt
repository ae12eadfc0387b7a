-- ===== src/Samples/Requests.antt =====
-- The decisions on the sample request.
use fluxtrack_main.Calendar.{Instant, combine}
use fluxtrack_main.Effects.{Error, err, ok}
use fluxtrack_main.Model.{
  Database, Modality, ModalityShiftRequest, Room, Schedule, ShiftStatus, User,
}
use fluxtrack_main.Prelude.{
  All, Bool, Elem, List, Option, String, [], any, false, inl, inr, none, refl, some, ℕ, ◌∷◌, ◌≡◌,
  ◌≢◌, ◌⊎◌,
}
use fluxtrack_main.Prelude.Unique.{IsUnique-all_differ}
use fluxtrack_main.Prelude.Update.{update}
use fluxtrack_main.Samples.{
  at_minute, campus, campus-HasKeys, chair, old_request, section_b, shift_request, teacher,
}
use fluxtrack_main.Shifts.{apply_approval, decided, is_in_window, items_of, lock_shift_term}
use fluxtrack_main.Shifts.Denial.{IsSettled, apply_approval-IsSettled}
use fluxtrack_main.Shifts.Final.{approved_by, call, decision-final, stop}
use fluxtrack_main.Shifts.Online.{apply_approval_online, moved_online}
use fluxtrack_main.Shifts.Submit.{gathered, new_request, route_to_dean, submit_modality_shift}
use fluxtrack_main.Shifts.Submit.Cases.{ticket}
use fluxtrack_main.Shifts.Submit.Double.{submit_modality_shift_twice}
use fluxtrack_main.Shifts.Submit.Lead.{IsInTime, submit_modality_shift_lem}
use fluxtrack_main.Shifts.Submit.Opened.{IsOpened}

abbrev by_code : String → String → Bool
by_code s t = false

decision-final_example :
    Elem old_request (apply_approval by_code 1 chair (at_minute 0) campus).1.requests
decision-final_example =
    decision-final old_request (call (approved_by by_code 1 chair (at_minute 0)) stop)
      (IsUnique-all_differ (1 ∷ 2 ∷ []) refl) (inr (inl refl)) refl

open_term_lem : lock_shift_term 1 campus ≡ (ok tt, campus)
unfolding lock_shift_term
open_term_lem = refl

apply_approval_online_example :
    (made : ModalityShiftRequest) × (after : Database) × (apply_approval by_code 1 chair
        (at_minute 0)
        campus
      ≡ (ok made, after))
    × (made.status ≡ ShiftStatus.approved)
    × (after.sessions
        ≡ update
            (λ s. any (λ item. is_in_window item.schedule 739005 739020 s) (items_of 1 campus))
            (moved_online chair (at_minute 0))
            campus.sessions)
apply_approval_online_example =
    apply_approval_online by_code 1 chair (at_minute 0) campus shift_request campus-HasKeys
      (record { stored = refl; open_term = open_term_lem; permitted = refl; undecided = refl }) refl

abbrev approved_request : ModalityShiftRequest
approved_request = decided ShiftStatus.approved "" chair (at_minute 0) shift_request

apply_approval-IsSettled_example :
    IsSettled 1 chair
      (at_minute 0)
      campus
      approved_request
      (apply_approval by_code 1 chair (at_minute 0) campus).1
unfolding apply_approval
apply_approval-IsSettled_example =
    apply_approval-IsSettled by_code 1 chair (at_minute 0) campus
      (apply_approval by_code 1 chair (at_minute 0) campus).1 approved_request refl

-- Ten days before the classes.
abbrev early : Instant
early = combine 739000 0

abbrev no_wish : ℕ → Option Room
no_wish k = none

abbrev second_class : List Schedule
second_class = section_b.schedule ∷ []

submit_modality_shift_example :
    ((e : Error) × (submit_modality_shift by_code teacher second_class Modality.online 739005 739020
          no_wish none early campus
        ≡ (err e, campus)))
    ⊎ ((decider : User) × (r : ModalityShiftRequest) × (after : Database) × (route_to_dean
            teacher.department campus
          ≡ some decider)
        × (gathered second_class 739005 739020 campus ≢ [])
        × All (IsInTime early campus) (gathered second_class 739005 739020 campus)
        × (submit_modality_shift by_code teacher second_class Modality.online 739005 739020 no_wish
              none early campus
            ≡ (ok r, after))
        × IsOpened by_code teacher second_class Modality.online 739005 739020 no_wish none campus
            decider r after)
submit_modality_shift_example =
    submit_modality_shift_lem by_code teacher second_class Modality.online 739005 739020 no_wish
      none early campus

abbrev opened : Database
opened =
    (ticket by_code teacher second_class Modality.online 739005 739020 no_wish none early campus
      chair).1

submit_modality_shift_twice_example :
    (e : Error) × (submit_modality_shift by_code teacher second_class Modality.f2f 739005 739020
        no_wish none
        (at_minute 0)
        opened
      ≡ (err e, opened))
unfolding submit_modality_shift
submit_modality_shift_twice_example =
    submit_modality_shift_twice by_code teacher second_class Modality.online 739005 739020 no_wish
      none early campus (new_request teacher chair Modality.online 739005 739020 none campus) opened
      refl second_class Modality.f2f 739005 739020 no_wish none (at_minute 0) section_b.schedule
      (inl refl) (inl refl)
