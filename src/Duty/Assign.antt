-- ===== src/Duty/Assign.antt =====
-- verification/services.py: the online sessions of a date are given to the checkers on online duty.
pub mod Pools
pub mod Named
pub mod Owners
pub mod Members
pub mod Covered
use fluxtrack_main.Calendar.{Date, local_date, local_time}
use fluxtrack_main.Duty.{Dict, assignment_covers_now, dict_set, distribute_online_sessions}
use fluxtrack_main.Model.{
  AcademicTerm, Assignment, Database, DutyRole, Scope, Session, effective_modality, is_online,
  online_assigned, online_checker_assigned, online_unassigned,
}
use fluxtrack_main.Ops.{get_active_term, in_term, log, notify_ifo, notify_users, save_session}
use fluxtrack_main.Prelude.{
  Bool, List, Option, [], any, false, filter, if_some, if◌then◌else◌, is_key, is_none, length, ltb,
  map, none, some, true, ℕ, ◌&&◌, ◌++◌, ◌+◌, ◌-◌, ◌==◌, ◌||◌, ◌∷◌,
}

abbrev is_checker : DutyRole → Bool
is_checker DutyRole.checker = true
is_checker DutyRole.guard = false

abbrev is_online_scope : Scope → Bool
is_online_scope Scope.online = true
is_online_scope Scope.floor = false

-- `order_by("scheduled_start", "id")`
abbrev comes_before : Session → Session → Bool
comes_before s t =
    ltb s.scheduled_start t.scheduled_start
    || (s.scheduled_start == t.scheduled_start && ltb s.id t.id)

pub insert_by_start : Session → List Session → List Session
insert_by_start s [] = s ∷ []
insert_by_start s (t ∷ ts) =
    let rest = insert_by_start s ts in if comes_before t s then t ∷ rest else s ∷ t ∷ ts

unfoldable pub order_by_start : List Session → List Session
unfolding insert_by_start
order_by_start [] = []
order_by_start (s ∷ ss) = insert_by_start s (order_by_start ss)

abbrev pub is_unowned : AcademicTerm → Date → Session → Bool
is_unowned term target s = s.date == target && (is_none s.online_checker && in_term term s)

abbrev pub meets_online : Session → Bool
meets_online s = is_online (effective_modality s)

abbrev pub candidate_online_sessions : AcademicTerm → Date → Database → List Session
candidate_online_sessions term target db =
    filter meets_online (order_by_start (filter (is_unowned term target) db.sessions))

abbrev pub is_online_duty : AcademicTerm → Date → Assignment → Bool
is_online_duty term target a =
    is_checker a.role
    && (is_online_scope a.scope
        && (a.is_active_assignment
            && (is_key a.term_id term.id && (is_none a.date || is_key a.date target))))

-- Their order by user is not kept: they are read into sorted sets.
abbrev pub online_duty_assignments : AcademicTerm → Date → Database → List Assignment
online_duty_assignments term target db = filter (is_online_duty term target) db.assignments

-- `sorted({...})`
pub insert_sorted : ℕ → List ℕ → List ℕ
insert_sorted k [] = k ∷ []
insert_sorted k (j ∷ js) =
    let rest = insert_sorted k js in
    if k == j then j ∷ js else if ltb k j then k ∷ j ∷ js else j ∷ rest

pub sorted_set : List ℕ → List ℕ
unfolding insert_sorted
sorted_set [] = []
sorted_set (k ∷ ks) = insert_sorted k (sorted_set ks)

abbrev pub covers_start : Session → Assignment → Bool
covers_start s a =
    assignment_covers_now a (local_date s.scheduled_start) (local_time s.scheduled_start)

-- The checkers whose duty covers the start of the session.
pub eligible : List Assignment → Session → List ℕ
unfolding sorted_set assignment_covers_now
eligible assignments s = sorted_set (map (λ a. a.user_id) (filter (covers_start s) assignments))

abbrev pub same_keys : List ℕ → List ℕ → Bool
same_keys [] [] = true
same_keys [] (j ∷ js) = false
same_keys (k ∷ ks) [] = false
same_keys (k ∷ ks) (j ∷ js) = k == j && same_keys ks js

abbrev pub Groups : Type 0
Groups = List (List ℕ × List ℕ)

-- `groups.setdefault(eligible, []).append(s.id)`
pub add_to_group : List ℕ → ℕ → Groups → Groups
add_to_group pool k [] = (pool, k ∷ []) ∷ []
add_to_group pool k ((p, ids) ∷ rest) =
    let others = add_to_group pool k rest in
    if same_keys p pool then (p, ids ++ k ∷ []) ∷ rest else (p, ids) ∷ others

pub groups_from : List Assignment → List Session → Groups → Groups
unfolding add_to_group eligible
groups_from assignments [] groups = groups
groups_from assignments (s ∷ ss) groups =
    groups_from assignments ss (add_to_group (eligible assignments s) s.id groups)

-- `mapping.update(...)`
pub dict_update : Dict → Dict → Dict
unfolding dict_set
dict_update d [] = d
dict_update d ((k, v) ∷ rest) = dict_update (dict_set k v d) rest

-- An empty pool is skipped.
pub mapping_from : Groups → Dict → Dict
unfolding dict_update distribute_online_sessions
mapping_from [] d = d
mapping_from (([], ids) ∷ rest) d = mapping_from rest d
mapping_from ((c ∷ cs, ids) ∷ rest) d =
    mapping_from rest (dict_update d (distribute_online_sessions ids (c ∷ cs)))

-- `d.get(k)`
pub dict_get : ℕ → Dict → Option ℕ
dict_get k [] = none
dict_get k (row ∷ rest) = let later = dict_get k rest in if row.0 == k then some row.1 else later

abbrev pub own : ℕ → Session → Session
own checker_id s = record s { online_checker = some checker_id }

-- The write of one owner, with its audit row.
abbrev pub write_owner : ℕ → ℕ → Database → Database
unfolding log save_session
write_owner k checker_id db =
    log none (online_checker_assigned checker_id) (some k) (save_session k (own checker_id) db)

pub write_owners : Dict → List Session → Database → Database
unfolding log save_session dict_get
write_owners mapping [] db = db
write_owners mapping (s ∷ ss) db =
    write_owners mapping ss (if_some (dict_get s.id mapping) (λ c. write_owner s.id c db) db)

-- `assigned_counts[c] = assigned_counts.get(c, 0) + 1`
pub count_owners : Dict → List Session → Dict → Dict
unfolding dict_get dict_set
count_owners mapping [] counts = counts
count_owners mapping (s ∷ ss) counts = count_owners mapping ss (
    if_some (dict_get s.id mapping)
      (λ c. dict_set c (if_some (dict_get c counts) (λ n. n) 0 + 1) counts) counts)

-- One notification for each checker who still has an account.
pub tell_owners : Dict → Database → Database
unfolding notify_users
tell_owners [] db = db
tell_owners ((c, n) ∷ rest) db =
    tell_owners rest
      (if any (λ u. u.id == c) db.users then notify_users (c ∷ []) online_assigned db else db)

abbrev pub total : Dict → ℕ
total [] = 0
total (row ∷ rest) = row.1 + total rest

pub record AssignCounts : Type 0 where
  pub assigned : ℕ
  pub unassigned : ℕ

abbrev pub nobody : ℕ → AssignCounts
nobody n = record { assigned = 0; unassigned = n }

pub assign_mapped : List Session → Dict → Database → AssignCounts × Database
unfolding notify_ifo write_owners count_owners tell_owners
assign_mapped sessions [] db = (nobody (length sessions), notify_ifo online_unassigned db)
assign_mapped sessions (row ∷ rest) db =
    let counts = count_owners (row ∷ rest) sessions [] in
    (
      record { assigned = total counts; unassigned = length sessions - total counts },
      tell_owners counts (write_owners (row ∷ rest) sessions db),
    )

pub assign_candidates : List Assignment → List Session → Database → AssignCounts × Database
unfolding assign_mapped mapping_from groups_from
assign_candidates assignments [] db = (nobody 0, db)
assign_candidates assignments (s ∷ ss) db =
    assign_mapped (s ∷ ss) (mapping_from (groups_from assignments (s ∷ ss) []) []) db

unfoldable pub assign_online_sessions : Date → Database → AssignCounts × Database
unfolding assign_candidates order_by_start
assign_online_sessions target db =
    if_some (get_active_term db)
      (λ term.
        assign_candidates (online_duty_assignments term target db)
          (candidate_online_sessions term target db) db)
      (nobody 0, db)
