-- ===== src/Threads.antt =====
-- The story threads and their events (`NarrativeRepository`,
-- backend/app/data/repositories/narrative.py), and the classes of
-- backend/app/domain_models/narrative.py. An event refers to a scene contract by a foreign key.
pub mod Events
pub mod Replay
use ai_writing.Common.{
  ℕ, ◌+◌, Bool, true, false, ◌&&◌, ◌||◌, not, Option, none, some, List, [], ◌∷◌, ◌++◌, map, Str,
  codes, ltb, str_lt, ℤ, pos, integer_eq, integer_lt, ◌==◌, list_eq, nat_eq, if◌then◌else◌, Eq,
  contains,
}
use ai_writing.Common.Results.{Result, ok, err}
use ai_writing.Data.Errors.{Error, value_error, lookup_error, integrity_error}
use ai_writing.Data.RecordId.{make_record_id}
use ai_writing.Scene.{SceneContract}
use ai_writing.Scene as Scene
use ai_writing.Sql.{select, select_one, update, rowcount, order_by}

pub data ThreadStatus : Type 0 where
  planned planted developing dormant paid_off abandoned : ThreadStatus

unfoldable pub ThreadStatus-discrete : Discrete ThreadStatus
ThreadStatus-discrete = hlevel

instance abbrev pub thread_status_eq : Eq ThreadStatus
thread_status_eq = record { dec = ThreadStatus-discrete }

pub data ThreadAction : Type 0 where
  plant reinforce misdirect escalate partial_payoff payoff : ThreadAction

unfoldable pub action_name : ThreadAction → Str
action_name plant = codes "plant"
action_name reinforce = codes "reinforce"
action_name misdirect = codes "misdirect"
action_name escalate = codes "escalate"
action_name partial_payoff = codes "partial_payoff"
action_name payoff = codes "payoff"

-- `StoryThreadCreate`; the type of a thread is its text.
pub record ThreadFields : Type 0 where
  pub thread_type : Str
  pub title : Str
  pub status : ThreadStatus
  pub planted_at : Option ℤ
  pub target_payoff_from : Option ℤ
  pub target_payoff_to : Option ℤ
  pub importance : ℕ
  pub reveal_constraints : Str

pub record StoryThread : Type 0 where
  pub id : Str
  pub project_id : Str
  pub fields : ThreadFields

-- `StoryThreadEventCreate`
pub record EventFields : Type 0 where
  pub scene_id : Str
  pub action : ThreadAction
  pub note : Str

pub record ThreadEvent : Type 0 where
  pub id : Str
  pub project_id : Str
  pub thread_id : Str
  pub fields : EventFields

pub record Threads : Type 0 where
  pub threads : List StoryThread
  pub events : List ThreadEvent

-- `WHERE project_id = ? AND id = ?`
abbrev pub is_thread : Str → Str → StoryThread → Bool
is_thread project_id id t = t.project_id == project_id && t.id == id

-- `target_payoff_from is not None and target_payoff_to is not None and …`
abbrev pub ends_early : Option ℤ → Option ℤ → Bool
ends_early (some start) (some end) = integer_lt end start
ends_early (some start) none = false
ends_early none end = false

unfoldable pub new_thread : Str → ThreadFields → List StoryThread → StoryThread
new_thread project_id f t = record {
  id =
      make_record_id (project_id ++ codes "-" ++ f.thread_type ++ codes "-" ++ f.title)
        (map (λ (s : StoryThread). s.id) t);
  project_id = project_id;
  fields = f;
}

unfoldable pub create_thread : Str → ThreadFields → Threads → Result Error (StoryThread × Threads)
create_thread project_id f s =
    if ends_early f.target_payoff_from f.target_payoff_to
    then err (value_error (codes "target_payoff_to cannot be before target_payoff_from"))
    else ok (
      new_thread project_id f s.threads,
      record s { threads = s.threads ++ new_thread project_id f s.threads ∷ [] },
    )

-- `COALESCE(planted_at, 9999)`
abbrev pub planted_or_last : Option ℤ → ℤ
planted_or_last none = pos 9999
planted_or_last (some n) = n

-- `ORDER BY importance DESC, COALESCE(planted_at, 9999), title`
unfoldable pub in_listing : StoryThread → StoryThread → Bool
in_listing a b =
    let x = planted_or_last a.fields.planted_at in
    let y = planted_or_last b.fields.planted_at in
    ltb b.fields.importance a.fields.importance
    || (a.fields.importance == b.fields.importance
        && (integer_lt x y || (x == y && str_lt a.fields.title b.fields.title)))

unfoldable pub list_threads : Str → Threads → List StoryThread
list_threads project_id s = order_by in_listing (select (λ t. t.project_id == project_id) s.threads)

unfoldable pub get_thread : Str → Str → Threads → Option StoryThread
get_thread project_id id s = select_one (is_thread project_id id) s.threads

abbrev pub set_status : ThreadStatus → StoryThread → StoryThread
set_status status t = record t { fields = record (t.fields) { status = status } }

unfoldable pub set_thread_status : Str → Str → ThreadStatus → Threads → Option StoryThread × Threads
set_thread_status project_id id status s =
    let s' : Threads = record s {
      threads = update (is_thread project_id id) (set_status status) s.threads;
    } in
    if rowcount (is_thread project_id id) s.threads == 0
    then (none, s)
    else (get_thread project_id id s', s')

-- `COALESCE(planted_at, ?)`
abbrev pub coalesce : Option ℤ → Option ℤ → Option ℤ
coalesce (some n) m = some n
coalesce none m = m

-- `CASE WHEN status IN ('planned', 'planted', 'dormant') THEN 'developing' ELSE status END`
unfoldable pub developed : ThreadStatus → ThreadStatus
developed status = if contains (planned ∷ planted ∷ dormant ∷ []) status then developing else status

abbrev pub set_planted : Option ℤ → StoryThread → StoryThread
set_planted sequence t = record t {
  fields = record (t.fields) {
    status = planted;
    planted_at = coalesce t.fields.planted_at sequence;
  };
}

abbrev pub set_developed : StoryThread → StoryThread
set_developed t = set_status (developed t.fields.status) t

-- The SET clause of the UPDATE that an action makes.
unfoldable pub advance : ThreadAction → Option ℤ → StoryThread → StoryThread
advance payoff sequence t = set_status paid_off t
advance plant sequence t = set_planted sequence t
advance reinforce sequence t = set_developed t
advance misdirect sequence t = set_developed t
advance escalate sequence t = set_developed t
advance partial_payoff sequence t = set_developed t

abbrev pub new_event : Str → Str → EventFields → List ThreadEvent → ThreadEvent
new_event project_id thread_id f t = record {
  id =
      make_record_id (thread_id ++ codes "-" ++ f.scene_id ++ codes "-" ++ action_name f.action)
        (map (λ (e : ThreadEvent). e.id) t);
  project_id = project_id;
  thread_id = thread_id;
  fields = f;
}

-- The foreign key names a contract of any project; the sequence is read from those of this one.
unfoldable pub add_thread_event :
    Str → Str → EventFields → List SceneContract → Threads → Result Error (ThreadEvent × Threads)
add_thread_event project_id thread_id f scenes s =
    let created = new_event project_id thread_id f s.events in
    if rowcount (is_thread project_id thread_id) s.threads == 0
    then err (lookup_error (codes "Story thread not found"))
    else if rowcount (λ c. c.id == f.scene_id) scenes == 0
    then err integrity_error
    else ok (
      created,
      record {
        threads =
            update (is_thread project_id thread_id)
              (advance f.action (Scene.get_sequence project_id f.scene_id scenes)) s.threads;
        events = s.events ++ created ∷ [];
      },
    )

-- `ORDER BY rowid`
unfoldable pub list_thread_events : Str → Str → Threads → List ThreadEvent
list_thread_events project_id thread_id s =
    select (λ e. e.project_id == project_id && e.thread_id == thread_id) s.events
