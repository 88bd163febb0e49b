-- ===== src/Tests/Threads.antt =====
-- A thread that is planted in a scene, escalated and paid off.
use ai_writing.Common.{
  ◌≡◌, ◌≢◌, refl, none, some, [], ◌∷◌, ◌++◌, map, codes, ℤ, pos, ◌==◌, list_dec, list_eq, nat_eq,
}
use ai_writing.Common.Results.{ok, value}
use ai_writing.Scene.{SceneContract}
use ai_writing.Scene as Scene
use ai_writing.Sql.{select_one, update, rowcount}
use ai_writing.Tests.Scene.{contract}
use ai_writing.Threads.{
  StoryThread, EventFields, ThreadEvent, Threads, planned, plant, escalate, payoff, get_thread,
  add_thread_event, advance, list_thread_events,
}
use ai_writing.Threads.Events.{IsAdded, add_thread_event_lem}
use ai_writing.Threads.Replay.{settled, add_all, add_all_lem}

abbrev thread : StoryThread
thread = record {
  id = codes "t";
  project_id = codes "p";
  fields = record {
    thread_type = codes "mystery";
    title = codes "T";
    status = planned;
    planted_at = some (pos 1);
    target_payoff_from = none;
    target_payoff_to = none;
    importance = 3;
    reveal_constraints = [];
  };
}

abbrev tables : Threads
tables = record { threads = thread ∷ []; events = [] }

abbrev planting : EventFields
planting = record { scene_id = codes "s"; action = plant; note = [] }

abbrev escalating : EventFields
escalating = record planting { action = escalate }

abbrev paying : EventFields
paying = record planting { action = payoff }

finds : get_thread (codes "p") (codes "t") tables ≡ some thread
unfolding get_thread select_one list_dec native.Mathlib.Decide.ℕ_discrete
finds = refl

is_there : rowcount (λ (c : SceneContract). c.id == codes "s") (contract ∷ []) ≢ 0
unfolding rowcount list_dec native.Mathlib.Decide.ℕ_discrete
is_there h = cc

add_thread_event_lem_example :
    (r : ThreadEvent × Threads) × (add_thread_event
        (codes "p")
        (codes "t")
        planting
        (contract ∷ [])
        tables
      ≡ ok r)
    × IsAdded
        (codes "p")
        (codes "t")
        planting
        (Scene.get_sequence (codes "p") (codes "s") (contract ∷ []))
        thread
        tables
        r
add_thread_event_lem_example =
    add_thread_event_lem (codes "p") (codes "t") planting (contract ∷ []) tables finds is_there

abbrev after : Threads
after =
    value tables
      (add_all (codes "p") (codes "t") (paying ∷ planting ∷ escalating ∷ []) (contract ∷ []) tables)

adds :
    add_all (codes "p") (codes "t") (paying ∷ planting ∷ escalating ∷ []) (contract ∷ []) tables
    ≡ ok after
unfolding add_all add_thread_event select_one rowcount update list_dec
    native.Mathlib.Decide.ℕ_discrete advance
adds = refl

add_all_lem_example :
    (t' : StoryThread) × (get_thread (codes "p") (codes "t") after ≡ some t')
    × (t'.fields.status ≡ settled plant (escalating ∷ []))
    × ((n : ℤ) → thread.fields.planted_at ≡ some n → t'.fields.planted_at ≡ some n)
    × (map (λ (e : ThreadEvent). e.fields) (list_thread_events (codes "p") (codes "t") after)
        ≡ map (λ (e : ThreadEvent). e.fields) (list_thread_events (codes "p") (codes "t") tables)
          ++ (paying ∷ planting ∷ escalating ∷ []))
add_all_lem_example =
    add_all_lem (codes "p") (codes "t") (contract ∷ []) (paying ∷ []) planting (escalating ∷ [])
      tables finds refl (refl, tt) adds
