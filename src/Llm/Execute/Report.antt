-- ===== src/Llm/Execute/Report.antt =====
-- What a run reports: its attempts in order, the last one alone successful, and a value that the
-- validator has accepted.
use ai_writing.Common.{
  ◌≡◌, refl, sym, inl, inr, true, ◌&&◌, arith, Option, none, some, List, [], ◌∷◌, is_empty, codes,
  if◌then◌else◌, length, All, Bool-cases,
}
use ai_writing.Common.Results.{ok, err}
use ai_writing.Llm.{ModelRequest, ModelProfile}
use ai_writing.Llm.Catalog.{candidates}
use ai_writing.Llm.Attempts.{Options, primary, failed, RunUpdate, Execution, Loop, failure_update}
use ai_writing.Llm.Runtime.{
  Runtime, Validator, Outcome, start, nothing_tried, unknown_profile, missing_project, entry,
  gateway_raised,
}
use ai_writing.Llm.Execute.{try_rest, conclude, execute}
use ai_writing.Llm.Execute.Trail.{IsNumbered, HasStatus, IsReturned, Done, try_rest-Done}

module _ {P G V W : Type 0} (rt : Runtime P G W) (options : Options) (validator : Validator V) where
  -- What the recorder is told when the run ends.
  abbrev pub told : RunUpdate → List RunUpdate
  told u = if rt.has_recorder then u ∷ [] else []

  -- A run that returns has made attempts that are numbered from 1 on and of which the last one alone
  -- has succeeded; its count is their number, its value is what the validator makes of its result,
  -- and a recorder is told of that success and count.
  -- A run that raises the error of a gateway has numbered attempts that have all failed; a recorder
  -- that is told of its end is told of the failure, the code of the error and the number of attempts.
  -- A run that raises for want of a project has a recorder, and has made no attempt and told no end.
  abbrev pub IsReported : Outcome V W → Type 0
  IsReported o = elim o.result [
    | ok e ↦ (u : RunUpdate) × (o.finished ≡ told u) × IsReturned validator e u o.attempts
    | err (gateway_raised e) ↦
        IsNumbered 0 o.attempts
        × All (HasStatus failed) o.attempts
        × All
            (λ u.
              (u.status ≡ failed)
              × (u.error_code ≡ some e.code)
              × (u.attempt_count ≡ length o.attempts))
            o.finished
    | err missing_project ↦ (rt.has_recorder ≡ true) × (o.attempts ≡ []) × (o.finished ≡ [])
  ]

  conclude-IsReported :
      (done : Option (Execution V × RunUpdate)) (l : Loop W)
      → Done rt options validator (done, l)
      → IsReported (conclude rt options validator done l)
  unfolding conclude failure_update
  conclude-IsReported (some (e, u)) l h = (u, refl, h)
  conclude-IsReported none l h = (h.numbered, h.failing, all)
    where
      all :
          All
            (λ u.
              (u.status ≡ failed)
              × (u.error_code ≡ some l.last_error.code)
              × (u.attempt_count ≡ length l.attempts))
            (if rt.has_recorder then failure_update l ∷ [] else [])
      all = elim (Bool-cases rt.has_recorder) [
        | inl e ↦ rw e ((refl, refl, sym h.counted), tt)
        | inr e ↦ rw e tt
      ]

  -- A run that returns has numbered attempts of which the last alone has succeeded and a value the
  -- validator made of its result, and tells a recorder of a success with their count; a run that
  -- raises a gateway error has numbered attempts that all failed, and an end told to a recorder is
  -- a failure with the code of that error and the number of attempts; a run that raises for want
  -- of a project has a recorder, makes no attempt and tells no end.
  pub execute-IsReported :
      (request : ModelRequest P) (w : W) → IsReported (execute rt options validator request w)
  unfolding execute start
  execute-IsReported request w =
      from (candidates rt.catalog options.model_profile options.allow_fallback)
    where
      ran :
          (profiles : List ModelProfile)
          → IsReported (
              let (done, l) = try_rest rt options validator primary request profiles (start w) in
              conclude rt options validator done l)
      ran profiles = conclude-IsReported _ _ (
          try_rest-Done rt options validator primary request profiles (start w)
            (record { numbered = tt; counted = refl; failing = tt }))

      from :
          (found : Option (List ModelProfile))
          → IsReported (elim found [
            | none ↦ nothing_tried (gateway_raised unknown_profile) w
            | some profiles ↦
                if rt.has_recorder && is_empty (entry (codes "project_id") request.metadata)
                then nothing_tried missing_project w
                else (let (done, l) =
                      try_rest rt options validator primary request profiles (start w) in
                    conclude rt options validator done l)
          ])
      from none = (tt, tt, tt)
      from (some profiles) =
          elim (Bool-cases
            (rt.has_recorder && is_empty (entry (codes "project_id") request.metadata))) [
              | inl e ↦ rw e (ground arith, refl, refl)
              | inr e ↦ rw e (ran profiles)
            ]
