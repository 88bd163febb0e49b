-- ===== src/Threads/Replay.antt =====
-- What a sequence of events leaves of a thread.
use mathlib.Core.List.{append-nil}
use mathlib.Core.Path.{subst}
use ai_writing.Common.{
  ◌≡◌, refl, sym, ap, ◌∙◌, Bool, true, false, Option, some, List, [], ◌∷◌, ◌++◌, map, Str, ℤ, All,
}
use ai_writing.Common.Results.{Result, ok, ◌>>=◌, >>=-eq-ok, ok_injective}
use ai_writing.Data.Errors.{Error}
use ai_writing.Scene.{SceneContract}
use ai_writing.Scene as Scene
use ai_writing.Threads.{
  StoryThread, EventFields, ThreadEvent, Threads, get_thread, advance, add_thread_event,
  list_thread_events, developed, ThreadStatus, planted, developing, paid_off, ThreadStatus-discrete,
  ThreadAction, plant, payoff, reinforce, misdirect, escalate, partial_payoff,
}
use ai_writing.Threads.Events.{add_thread_event-eq-ok}

-- Successive calls of `add_thread_event`.
unfoldable pub add_all :
    Str → Str → List EventFields → List SceneContract → Threads → Result Error Threads
add_all project_id thread_id [] scenes s = ok s
add_all project_id thread_id (f ∷ fs) scenes s = do
  (e, s') ← add_thread_event project_id thread_id f scenes s
  add_all project_id thread_id fs scenes s'

-- An action that neither plants nor pays off.
abbrev pub is_support : ThreadAction → Bool
is_support plant = false
is_support reinforce = true
is_support misdirect = true
is_support escalate = true
is_support partial_payoff = true
is_support payoff = false

-- The status that an event which plants or pays off leaves, with the events after it.
abbrev pub settled : ThreadAction → List EventFields → ThreadStatus
settled plant [] = planted
settled plant (f ∷ after) = developing
settled action after = paid_off

map-last :
    {A B : Type 0} (k : A → B) (xs : List A) (x : A) (ys : List B)
    → map k (xs ++ x ∷ []) ++ ys ≡ map k xs ++ k x ∷ ys
map-last k [] x ys = refl
map-last k (y ∷ xs) x ys = ap (◌∷◌ (k y)) (map-last k xs x ys)

advance_support :
    (a : ThreadAction) (sequence : Option ℤ) (t : StoryThread)
    → is_support a ≡ true
    → (advance a sequence t).fields.status ≡ developed t.fields.status
unfolding advance
advance_support plant sequence t h = cc
advance_support reinforce sequence t h = refl
advance_support misdirect sequence t h = refl
advance_support escalate sequence t h = refl
advance_support partial_payoff sequence t h = refl
advance_support payoff sequence t h = cc

advance_planted_at :
    (a : ThreadAction) (sequence : Option ℤ) (t : StoryThread) {n : ℤ}
    → t.fields.planted_at ≡ some n
    → (advance a sequence t).fields.planted_at ≡ some n
unfolding advance
advance_planted_at plant sequence t e = rw e refl
advance_planted_at reinforce sequence t e = e
advance_planted_at misdirect sequence t e = e
advance_planted_at escalate sequence t e = e
advance_planted_at partial_payoff sequence t e = e
advance_planted_at payoff sequence t e = e

module _ (project_id thread_id : Str) (scenes : List SceneContract) where
  abbrev pub step : EventFields → StoryThread → StoryThread
  step f = advance f.action (Scene.get_sequence project_id f.scene_id scenes)

  unfoldable pub steps : List EventFields → StoryThread → StoryThread
  steps [] t = t
  steps (f ∷ fs) t = steps fs (step f t)

  steps-append :
      (fs gs : List EventFields) (t : StoryThread) → steps (fs ++ gs) t ≡ steps gs (steps fs t)
  unfolding steps
  steps-append [] gs t = refl
  steps-append (f ∷ fs) gs t = steps-append fs gs (step f t)

  -- Events that support a thread keep a status that they do not move.
  steps-kept :
      (status : ThreadStatus) (fs : List EventFields) (t : StoryThread)
      → developed status ≡ status
      → All (λ (f : EventFields). is_support f.action ≡ true) fs
      → t.fields.status ≡ status
      → (steps fs t).fields.status ≡ status
  unfolding steps
  steps-kept status [] t still a e = e
  steps-kept status (f ∷ fs) t still a e =
      steps-kept status fs (step f t) still (a.1)
        (advance_support f.action _ t (a.0) ∙ (ap developed e ∙ still))

  steps-settled :
      (f : EventFields) (after : List EventFields) (t : StoryThread)
      → is_support f.action ≡ false
      → All (λ (g : EventFields). is_support g.action ≡ true) after
      → (steps after (step f t)).fields.status ≡ settled f.action after
  unfolding steps advance developed ThreadStatus-discrete
  steps-settled f after t h a = settles f.action _ after refl h a
    where
      settles :
          (action : ThreadAction) (u : StoryThread) (after : List EventFields)
          → advance action (Scene.get_sequence project_id f.scene_id scenes) t ≡ u
          → is_support action ≡ false
          → All (λ (g : EventFields). is_support g.action ≡ true) after
          → (steps after u).fields.status ≡ settled action after
      settles plant u [] e h a = ap (λ (v : StoryThread). v.fields.status) (sym e)
      settles plant u (g ∷ after) e h a = steps-kept developing after (step g u) refl (a.1) (
          advance_support g.action _ u (a.0)
          ∙ ap (λ (v : StoryThread). developed v.fields.status) (sym e))
      settles payoff u after e h a =
          steps-kept paid_off after u refl a (ap (λ (v : StoryThread). v.fields.status) (sym e))
      settles reinforce u after e h a = cc
      settles misdirect u after e h a = cc
      settles escalate u after e h a = cc
      settles partial_payoff u after e h a = cc

  -- The scene where a thread was planted first is kept.
  planted_at-steps :
      (fs : List EventFields) (t : StoryThread) {n : ℤ}
      → t.fields.planted_at ≡ some n
      → (steps fs t).fields.planted_at ≡ some n
  unfolding steps
  planted_at-steps [] t e = e
  planted_at-steps (f ∷ fs) t e = planted_at-steps fs (step f t) (advance_planted_at f.action _ t e)

  -- What a sequence of events has done to the thread `t` of `s`.
  pub record AreAdded (fs : List EventFields) (t : StoryThread) (s s' : Threads) : Type 0 where
    pub row : get_thread project_id thread_id s' ≡ some (steps fs t)
    pub listed :
        map (λ (e : ThreadEvent). e.fields) (list_thread_events project_id thread_id s')
        ≡ map (λ (e : ThreadEvent). e.fields) (list_thread_events project_id thread_id s) ++ fs

  add_all-AreAdded :
      (fs : List EventFields) (s : Threads) {t : StoryThread} {s' : Threads}
      → get_thread project_id thread_id s ≡ some t
      → add_all project_id thread_id fs scenes s ≡ ok s'
      → AreAdded fs t s s'
  unfolding add_all steps
  add_all-AreAdded [] s {t} there h =
      subst (AreAdded [] t s) (ok_injective h) (record { row = there; listed = sym (append-nil _) })
  add_all-AreAdded (f ∷ fs) s {t} there h =
      let (r, first, rest) = >>=-eq-ok (add_thread_event project_id thread_id f scenes s) _ h in
      let one = add_thread_event-eq-ok project_id thread_id f scenes s there first in
      let others = add_all-AreAdded fs (r.1) one.row rest in
      record {
        row = others.row;
        listed =
            others.listed
            ∙ ap (λ l. map (λ (e : ThreadEvent). e.fields) l ++ fs) one.listed
            ∙ map-last (λ (e : ThreadEvent). e.fields) (list_thread_events project_id thread_id s)
                (r.0) fs
            ∙ ap
                (λ x.
                  map (λ (e : ThreadEvent). e.fields) (list_thread_events project_id thread_id s)
                  ++ x ∷ fs)
                one.event;
      }

  -- Where the events of a thread that is there are added one after another without an error, and
  -- the last one that plants or pays off is followed only by others, the thread is read as paid
  -- off if that event pays off, as planted if it plants and is the last, and as developing if it
  -- plants and others follow; a scene where the thread was planted before is kept, and the events
  -- are listed in their order.
  pub add_all_lem :
      (before : List EventFields) (f : EventFields) (after : List EventFields) (s : Threads)
      {t : StoryThread} {s' : Threads}
      → get_thread project_id thread_id s ≡ some t
      → is_support f.action ≡ false
      → All (λ (g : EventFields). is_support g.action ≡ true) after
      → add_all project_id thread_id (before ++ f ∷ after) scenes s ≡ ok s'
      → (t' : StoryThread) × (get_thread project_id thread_id s' ≡ some t')
        × (t'.fields.status ≡ settled f.action after)
        × ((n : ℤ) → t.fields.planted_at ≡ some n → t'.fields.planted_at ≡ some n)
        × (map (λ (e : ThreadEvent). e.fields) (list_thread_events project_id thread_id s')
            ≡ map (λ (e : ThreadEvent). e.fields) (list_thread_events project_id thread_id s)
              ++ (before ++ f ∷ after))
  unfolding steps
  add_all_lem before f after s {t} there h a done =
      let all = add_all-AreAdded (before ++ f ∷ after) s there done in
      (
        steps (before ++ f ∷ after) t,
        all.row,
        ap (λ (u : StoryThread). u.fields.status) (steps-append before (f ∷ after) t)
            ∙ steps-settled f after (steps before t) h a,
        λ n e. planted_at-steps (before ++ f ∷ after) t e,
        all.listed,
      )
