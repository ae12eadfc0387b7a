-- ===== src/Samples/Planning.antt =====
-- Rooms and times on the sample campus.
-- An order of room codes: all codes are equal.
use fluxtrack_main.Availability.{available_times_for, room_is_free}
use fluxtrack_main.Availability.Occupied.{IsOccupied, room_is_free_iff}
use fluxtrack_main.Availability.Times.{
  IsAlternative, available_times_for_iff, class_time, first_slot, last_end,
}
use fluxtrack_main.Prelude.{
  Bool, Elem, String, arith, false, none, refl, true, ℕ, ◌*◌, ◌+◌, ◌↔◌, ◌≡◌, ◌≤◌,
}
use fluxtrack_main.Samples.{at_minute, campus, hall, section_a}

abbrev any_order : String → String → Bool
any_order s t = false

free_evening : room_is_free hall (at_minute 600) (at_minute 660) none none campus ≡ true
unfolding room_is_free
free_evening = refl

taken_morning : room_is_free hall (at_minute 500) (at_minute 510) none none campus ≡ false
unfolding room_is_free
taken_morning = refl

room_is_free_example :
    (room_is_free hall (at_minute 500) (at_minute 510) none none campus ≡ false)
    ↔ IsOccupied hall (at_minute 500) (at_minute 510) none none campus
room_is_free_example = room_is_free_iff hall (at_minute 500) (at_minute 510) none none campus

available_times_for_example :
    Elem (at_minute 540, at_minute 600) (available_times_for any_order section_a campus) ↔ (
      (j : ℕ) × (at_minute 540
        ≡ first_slot any_order section_a campus + j * class_time any_order section_a campus)
      × (at_minute 600
          ≡ first_slot any_order section_a campus
            + j * class_time any_order section_a campus
            + class_time any_order section_a campus)
      × (at_minute 600 ≤ last_end any_order section_a campus)
      × IsAlternative any_order section_a campus (at_minute 540) (at_minute 600))
available_times_for_example =
    available_times_for_iff any_order section_a campus (omega arith) (at_minute 540) (at_minute 600)
