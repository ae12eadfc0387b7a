-- ===== src/Sweep/Again.antt =====
-- A second run of the sweep at the same instant.
use mathlib.Core.List.{append-nil}
use fluxtrack_main.Calendar.{Instant}
use fluxtrack_main.Merge.{mark_absent}
use fluxtrack_main.Model.{AcademicTerm, Database}
use fluxtrack_main.Ops.{HasKeys, get_active_term, get_policy}
use fluxtrack_main.Prelude.{[], ap, filter, length, map, refl, some, ◌++◌, ◌∙◌, ◌≡◌}
use fluxtrack_main.Prelude.Update.{filter-update, map-update, update_of_nil}
use fluxtrack_main.Suspensions.{excused_checker}
use fluxtrack_main.Sweep.{sweep_no_shows}
use fluxtrack_main.Sweep.Counts.{absent_entry, is_no_show}
use fluxtrack_main.Sweep.Exact.{sweep_no_shows_lem, swept}

module _ (now : Instant) (term : AcademicTerm) (db : Database) where
  nobody : (filter (is_no_show now term (swept now term db)) (swept now term db).sessions) ≡ []
  unfolding get_policy excused_checker
  nobody = filter-update (is_no_show now term db) mark_absent db.sessions (λ s h. refl)

  keys_kept : HasKeys db → HasKeys (swept now term db)
  keys_kept u =
      rw (map-update (λ s. s.id) (is_no_show now term db) mark_absent db.sessions (λ _. refl)) u

  swept_again : swept now term (swept now term db) ≡ swept now term db
  swept_again = λ i. record (swept now term db) {
    sessions =
        update_of_nil (is_no_show now term (swept now term db)) mark_absent
          (swept now term db).sessions nobody i;
    audit =
        (ap (λ r. (swept now term db).audit ++ map absent_entry r) nobody
            ∙ append-nil (swept now term db).audit)
          i;
  }

  -- Under the conditions of one run, a second run at the same instant marks nobody, collects nothing
  -- and changes nothing.
  pub sweep_no_shows_again :
      HasKeys db
      → get_active_term db ≡ some term
      → sweep_no_shows now (sweep_no_shows now db).db
        ≡ record { db = (sweep_no_shows now db).db; marked = 0; floors = [] }
  sweep_no_shows_again u running = rw (sweep_no_shows_lem now term db u running) (
      sweep_no_shows_lem now term (swept now term db) (keys_kept u) running ∙ λ i. record {
        db = swept_again i;
        marked = length (nobody i);
        floors = map (λ c. c.room.floor_id) (nobody i);
      })
