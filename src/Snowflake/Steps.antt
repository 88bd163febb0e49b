-- ===== src/Snowflake/Steps.antt =====
-- The ten steps and their specification (backend/app/snowflake/step_spec.py).
use ai_writing.Common.{
  ℕ, Bool, true, false, Option, none, some, List, [], ◌∷◌, Str, codes, ◌==◌, nat_eq,
}
use ai_writing.Common.Results.{Result, ok, err}
use ai_writing.Data.Errors.{Error, value_error}
use ai_writing.Sql.{select_one}

-- `SnowflakeStepSpec`; every step has schema version 1.
pub record StepSpec : Type 0 where
  pub number : ℕ
  pub title : Str
  pub artifact_type : Str
  pub description : Str
  pub dependencies : List ℕ
  pub optional : Bool
  pub validator_name : Str
  pub virtual : Bool

abbrev spec : ℕ → Str → Str → Str → List ℕ → Str → StepSpec
spec number title artifact_type description dependencies validator_name = record {
  number = number;
  title = title;
  artifact_type = artifact_type;
  description = description;
  dependencies = dependencies;
  optional = false;
  validator_name = validator_name;
  virtual = false;
}

-- `SNOWFLAKE_STEP_SPECS`
unfoldable pub snowflake_step_specs : List StepSpec
snowflake_step_specs =
    spec 1 (codes "One Sentence") (codes "story_contract")
      (codes "Distill the novel into a single-sentence promise.") [] (codes "markdown_projection")
    ∷ spec 2 (codes "One Paragraph") (codes "plot_seed")
        (codes "Expand the promise into setup, three escalating disasters, and an ending.") (1 ∷ [])
        (codes "one_paragraph")
    ∷ spec 3 (codes "Character Summary") (codes "character_seeds")
        (codes
          "Define each major character's motivation, goal, conflict, epiphany, and viewpoint summary.")
        (1 ∷ 2 ∷ []) (codes "character_summary")
    ∷ spec 4 (codes "One Page Synopsis") (codes "plot_synopsis")
        (codes "Expand and reference every Step 2 story beat in a one-page synopsis.")
        (1 ∷ 2 ∷ 3 ∷ []) (codes "one_page_synopsis")
    ∷ spec 5 (codes "Character Viewpoints") (codes "character_pov_lines")
        (codes "Expand the story from each major character's knowledge and viewpoint.") (3 ∷ 4 ∷ [])
        (codes "character_viewpoints")
    ∷ spec 6 (codes "Expanded Synopsis") (codes "expanded_plot")
        (codes "Expand the causal outline as act, section, and sequence records.") (4 ∷ 5 ∷ [])
        (codes "expanded_synopsis")
    ∷ spec 7 (codes "Character Bible") (codes "canon_entities")
        (codes "Build complete character profiles while keeping confirmed Canon facts explicit.")
        (3 ∷ 5 ∷ 6 ∷ []) (codes "character_bible")
    ∷ spec 8 (codes "Scene List") (codes "scene_contracts")
        (codes "Compile the plan into reviewable scene contracts and story-thread actions.")
        (6 ∷ 7 ∷ []) (codes "scene_list")
    ∷ record (spec 9 (codes "Scene Expansion") (codes "expanded_scenes")
        (codes "Expand scenes into detailed beats, emotional change, and chapter plans.")
        (6 ∷ 7 ∷ 8 ∷ []) (codes "scene_expansion")) { optional = true }
    ∷ record (spec 10 (codes "Draft Manuscript") (codes "manuscript")
        (codes "Track scene-based Manuscript proposal and revision coverage.") (8 ∷ 9 ∷ [])
        (codes "manuscript_coverage")) { virtual = true }
    ∷ []

-- A number that is no step is a ValueError.
abbrev found : Option StepSpec → Result Error StepSpec
found none = err (value_error (codes "Unsupported Snowflake step"))
found (some s) = ok s

-- `_BY_NUMBER[step_number]`
unfoldable pub get_step_spec : ℕ → Result Error StepSpec
unfolding snowflake_step_specs
get_step_spec step_number = found (select_one (λ s. s.number == step_number) snowflake_step_specs)
