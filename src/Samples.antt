-- ===== src/Samples.antt =====
-- A small campus: one building with two rooms, one ACTIVE term, and a morning of classes. The tests and
-- the witnesses run on it.
pub mod Scans
pub mod Checking
pub mod Operations
pub mod Jobs
pub mod Calendar
pub mod Lifecycle
pub mod Planning
pub mod Requests
pub mod Duty
use fluxtrack_main.Calendar.{Date, Instant, combine, minutes, weekday}
use fluxtrack_main.Model.{
  AcademicTerm, Database, Modality, ModalityShiftItem, ModalityShiftRequest, Role, Room, Schedule,
  ScheduleStatus, Session, SessionStatus, ShiftStatus, TermStatus, User, dean, ended_early,
  manual_code,
}
use fluxtrack_main.Ops.{HasKeys, keys}
use fluxtrack_main.Prelude.{String, [], false, none, refl, some, true, ℕ, ◌∷◌}
use fluxtrack_main.Prelude.Unique.{IsUnique-all_differ}

abbrev pub lab : Room
lab = record {
  id = 1;
  code = "R101";
  floor_id = 1;
  building_id = 1;
  qr_token = "q1";
  manual_code = "AAAA11";
  out_of_service = false;
}

abbrev pub hall : Room
hall = record {
  id = 2;
  code = "R102";
  floor_id = 1;
  building_id = 1;
  qr_token = "q2";
  manual_code = "BBBB22";
  out_of_service = false;
}

abbrev pub teacher : User
teacher = record {
  id = 10;
  role = Role.faculty;
  department = some 1;
  is_superuser = false;
  user_active = true;
}

abbrev pub chair : User
chair = record {
  id = 20;
  role = Role.dean;
  department = some 1;
  is_superuser = false;
  user_active = true;
}

abbrev pub officer : User
officer = record {
  id = 30;
  role = Role.ifo_admin;
  department = none;
  is_superuser = false;
  user_active = true;
}

abbrev pub fall : AcademicTerm
fall = record {
  id = 1;
  name = "Fall";
  start_date = 739000;
  end_date = 739100;
  status = TermStatus.active;
}

abbrev pub spring : AcademicTerm
spring = record {
  id = 2;
  name = "Spring";
  start_date = 739200;
  end_date = 739300;
  status = TermStatus.draft;
}

abbrev pub summer : AcademicTerm
summer = record {
  id = 3;
  name = "Summer";
  start_date = 738800;
  end_date = 738900;
  status = TermStatus.archived;
}

-- The day of the classes.
abbrev pub teaching_day : Date
teaching_day = 739010

abbrev pub at_minute : ℕ → Instant
at_minute m = combine teaching_day (minutes m)

-- A class from 08:00 to 09:00.
abbrev pub course_at : (k term_id : ℕ) → String → ℕ → Room → Schedule
course_at k term_id course member room = record {
  id = k;
  term_id = term_id;
  course_code = course;
  faculty_id = member;
  room = room;
  day_of_week = weekday teaching_day;
  start_time = minutes 480;
  end_time = minutes 540;
  modality = Modality.f2f;
  enrolled_count = 30;
  status = ScheduleStatus.active;
}

abbrev pub meeting : ℕ → Schedule → SessionStatus → Session
meeting k schedule status = record {
  id = k;
  schedule = schedule;
  faculty_id = schedule.faculty_id;
  room = schedule.room;
  date = teaching_day;
  scheduled_start = at_minute 480;
  scheduled_end = at_minute 540;
  status = status;
  actual_start = none;
  actual_end = none;
  checkin_method = none;
  declared_modality = none;
  modality_changed_at = none;
  modality_changed_by = none;
  handover_from_session = none;
  online_checker = none;
  ended_early = false;
  early_end_reason = "";
  room_released_at = none;
  cancelled_reason = "";
}

-- Two sections of the teacher in the lab, merged, and two classes of others that hold the hall.
abbrev pub section_a : Session
section_a = meeting 1 (course_at 1 1 "CS101" 10 lab) SessionStatus.scheduled

abbrev pub section_b : Session
section_b = meeting 2 (course_at 2 1 "CS102" 10 lab) SessionStatus.scheduled

abbrev pub held_c : Session
held_c = meeting 3 (course_at 3 1 "MA201" 11 hall) SessionStatus.active

abbrev pub held_d : Session
held_d = meeting 4 (course_at 4 1 "PH301" 12 hall) SessionStatus.active

abbrev pub next_class : Schedule
next_class = course_at 5 2 "CS101" 10 lab

-- A request of the teacher to move the first section online.
abbrev pub shift_request : ModalityShiftRequest
shift_request = record {
  id = 1;
  requester = 10;
  dean = some 20;
  department = some 1;
  target_modality = Modality.online;
  window_start = 739005;
  window_end = 739020;
  is_time_move = false;
  status = ShiftStatus.pending;
  decision_reason = "";
  decided_at = none;
  decided_by = none;
}

abbrev pub old_request : ModalityShiftRequest
old_request = record shift_request {
  id = 2;
  status = ShiftStatus.rejected;
  decision_reason = "late";
}

abbrev pub request_item : ModalityShiftItem
request_item = record {
  id = 1;
  request_id = 1;
  schedule = section_a.schedule;
  preferred_room = none;
  assigned_room = none;
  new_start_time = none;
  new_end_time = none;
}

abbrev pub campus : Database
campus = record {
  settings = [];
  users = teacher ∷ chair ∷ officer ∷ [];
  rooms = lab ∷ hall ∷ [];
  terms = fall ∷ spring ∷ summer ∷ [];
  breaks = [];
  suspensions = [];
  schedules =
      section_a.schedule ∷ section_b.schedule ∷ held_c.schedule ∷ held_d.schedule ∷ next_class ∷ [];
  sessions = section_a ∷ section_b ∷ held_c ∷ held_d ∷ [];
  requests = shift_request ∷ old_request ∷ [];
  items = request_item ∷ [];
  bookings = [];
  assignments = [];
  flags = [];
  validations = [];
  receipts = [];
  audit = [];
  notifications = [];
}

pub campus-HasKeys : HasKeys campus
campus-HasKeys = IsUnique-all_differ (keys campus.sessions) refl
