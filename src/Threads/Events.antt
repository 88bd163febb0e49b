-- ===== src/Threads/Events.antt =====
-- What an event adds to its thread and to the list of events.
use mathlib.Core.Option
use mathlib.Core.Path.{subst}
use ai_writing.Common.{
  ◌≡◌, ◌≢◌, refl, ◌∙◌, Bool, false, ◌&&◌, Option, none, some, List, [], ◌∷◌, ◌++◌, map, Str,
  contains, ◌==◌, list_eq, nat_eq, arith, inl, inr, Bool-cases, ℤ,
}
use ai_writing.Common.Results.{ok, ok_injective, err-ne-ok}
use ai_writing.Data.RecordId.Fresh.{make_record_id_fresh}
use ai_writing.Scene.{SceneContract}
use ai_writing.Scene as Scene
use ai_writing.Sql.{select, update, rowcount}
use ai_writing.Sql.Laws.{updated, select_one-update, select_one_sound, rowcount_pos}
use ai_writing.Threads.{
  StoryThread, EventFields, ThreadEvent, Threads, is_thread, get_thread, advance, new_event,
  add_thread_event, list_thread_events, ThreadAction, plant, payoff, reinforce, misdirect, escalate,
  partial_payoff,
}

select-append :
    {A : Type 0} (p : A → Bool) (xs ys : List A) → select p (xs ++ ys) ≡ select p xs ++ select p ys
unfolding select
select-append p [] ys = refl
select-append p (x ∷ xs) ys = ground (arith, select-append p xs ys)

-- An action changes neither the id nor the project of a thread.
advance-is_thread :
    (a : ThreadAction) (sequence : Option ℤ) (p id : Str) (t : StoryThread)
    → is_thread p id (advance a sequence t) ≡ is_thread p id t
unfolding advance
advance-is_thread plant sequence p id t = refl
advance-is_thread reinforce sequence p id t = refl
advance-is_thread misdirect sequence p id t = refl
advance-is_thread escalate sequence p id t = refl
advance-is_thread partial_payoff sequence p id t = refl
advance-is_thread payoff sequence p id t = refl

-- The event `f` of the thread `t` has been added to `s`.
pub record IsAdded (project_id thread_id : Str) (f : EventFields) (sequence : Option ℤ)
    (t : StoryThread) (s : Threads) (r : ThreadEvent × Threads) : Type 0 where
  pub event : r.0.fields ≡ f
  pub new : contains (map (λ (e : ThreadEvent). e.id) s.events) r.0.id ≡ false
  pub listed :
      list_thread_events project_id thread_id r.1
      ≡ list_thread_events project_id thread_id s ++ r.0 ∷ []
  pub row : get_thread project_id thread_id r.1 ≡ some (advance f.action sequence t)
  pub others :
      (p id : Str)
      → (p == project_id && id == thread_id) ≡ false
      → get_thread p id r.1 ≡ get_thread p id s

module _ (project_id thread_id : Str) (f : EventFields) (scenes : List SceneContract) (s : Threads)
    {t : StoryThread} (there : get_thread project_id thread_id s ≡ some t) where
  abbrev sequence : Option ℤ
  sequence = Scene.get_sequence project_id f.scene_id scenes

  abbrev pub added : ThreadEvent × Threads
  added = (
    new_event project_id thread_id f s.events,
    record {
      threads = update (is_thread project_id thread_id) (advance f.action sequence) s.threads;
      events = s.events ++ new_event project_id thread_id f s.events ∷ [];
    },
  )

  read-added :
      (p id : Str)
      → get_thread p id (added.1)
        ≡ Option.map
            (updated (is_thread project_id thread_id) (advance f.action sequence))
            (get_thread p id s)
  unfolding get_thread
  read-added p id =
      select_one-update (is_thread p id) (is_thread project_id thread_id)
        (advance f.action sequence) s.threads (advance-is_thread f.action sequence p id)

  read_apart :
      (p id : Str) (o : Option StoryThread)
      → get_thread p id s ≡ o
      → (p == project_id && id == thread_id) ≡ false
      → Option.map (updated (is_thread project_id thread_id) (advance f.action sequence)) o ≡ o
  unfolding get_thread
  read_apart p id none e apart = refl
  read_apart p id (some u) e apart = ground (arith, select_one_sound (is_thread p id) s.threads e)

  added-IsAdded : IsAdded project_id thread_id f sequence t s added
  unfolding get_thread list_thread_events select
  added-IsAdded = record {
    event = refl;
    new = make_record_id_fresh _ _;
    listed = select-append _ s.events _ ∙ ground arith;
    row =
        read-added project_id thread_id
        ∙ ground (arith, there, select_one_sound (is_thread project_id thread_id) s.threads there);
    others = λ p id apart. read-added p id ∙ read_apart p id _ refl apart;
  }

  thread_there : rowcount (is_thread project_id thread_id) s.threads ≢ 0
  unfolding get_thread
  thread_there =
      rowcount_pos (is_thread project_id thread_id) (is_thread project_id thread_id) s.threads there
        (select_one_sound (is_thread project_id thread_id) s.threads there)

  not_missing : (rowcount (is_thread project_id thread_id) s.threads == 0) ≡ false
  not_missing = ground (arith, thread_there)

  -- An event of a thread that is there, in a scene that is there, never raises: it is listed last
  -- among the events of the thread under an id that was not there, the thread is read as its
  -- action leaves it, and every other thread is read as before.
  pub add_thread_event_lem :
      rowcount (λ (c : SceneContract). c.id == f.scene_id) scenes ≢ 0
      → (r : ThreadEvent × Threads) × (add_thread_event project_id thread_id f scenes s ≡ ok r)
        × IsAdded project_id thread_id f sequence t s r
  unfolding add_thread_event
  add_thread_event_lem known = (added, ground (arith, thread_there, known), added-IsAdded)

  -- Whatever an event that is added returns.
  pub add_thread_event-eq-ok :
      {r : ThreadEvent × Threads}
      → add_thread_event project_id thread_id f scenes s ≡ ok r
      → IsAdded project_id thread_id f sequence t s r
  unfolding add_thread_event
  add_thread_event-eq-ok h =
      elim (Bool-cases (rowcount (λ (c : SceneContract). c.id == f.scene_id) scenes == 0)) [
        | inl e ↦ absurd (err-ne-ok (rw e at (rw (not_missing) at h)))
        | inr e ↦
            subst (IsAdded project_id thread_id f sequence t s)
              (ok_injective (rw e at (rw not_missing at h))) added-IsAdded
      ]
