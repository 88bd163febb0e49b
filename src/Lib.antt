-- ===== src/Lib.antt =====
-- AI Writing Studio: the backend's data flows. The backend keeps a writer's project in SQLite and
-- changes it only by reviewed proposals. A proposal moves through one state machine of four statuses;
-- its acceptance writes the accepted text with an immutable revision and queues the side effects in
-- an outbox, which a dispatcher runs. Texts come from model providers through a runtime that tries
-- profiles one after another.
--
-- The files and the code they model (paths from the root of the repository):
--   Common, Sql        helpers: Python's ==, `in` and str on code points (Str); the SQL statements
--                      that the repositories send, on a table as the list of its rows in rowid order
--   Data/Errors        the exceptions of the data layer, and the transaction of
--                      backend/app/data/unit_of_work.py
--   Data/RecordId      make_record_id of backend/app/data/helpers.py
--   Data/Json          JSON values as payloads hold them, and how json.dumps writes them
--   Review             backend/app/review/state_machine.py, decide of review/service.py; Review/Status
--                      is the status write that the review tables share, over an interface
--                      (Reviewable) that each kind of row fills
--   Outbox             backend/app/outbox/models.py and data/repositories/outbox.py; Outbox/Service is
--                      outbox/service.py, capabilities.py and one sweep of dispatcher.py
--   Llm                backend/app/llm/gateway.py, capabilities.py (Llm/Catalog), registry.py
--                      (Llm/Registry) and runtime.py (Llm/Attempts, Llm/Runtime, Llm/Execute)
--   Manuscript         backend/app/data/repositories/manuscript.py, data/transactions/manuscript.py
--                      (Manuscript/Flows), data/transactions/revision_jobs.py and outbox/events.py
--                      (Manuscript/Jobs)
--   Canon              backend/app/data/repositories/canon.py and domain_models/canon.py
--   Memory             backend/app/data/repositories/memory.py and domain_models/memory.py
--   Writeback          the write-back proposals of backend/app/data/repositories/review.py and
--                      domain_models/writeback.py; Writeback/Apply is review/writeback_apply.py and
--                      Writeback/Flow data/transactions/writeback.py; Writeback/Gate is
--                      the test on updates of review/service.py
--   Reference          the reference suggestions of backend/app/data/repositories/review.py
--   Narrative          the facts and the states of knowledge of backend/app/data/repositories/narrative.py
--                      (Narrative/Facts) and narrative_maintenance.py (Narrative/Maintenance), with the
--                      classes of domain_models/narrative.py; Narrative/Relations are its relations
--   Threads            the story threads and their events of data/repositories/narrative.py
--   Snowflake          the ten steps of backend/app/snowflake/step_spec.py (Snowflake/Steps) and what they
--                      feed, dependencies.py (Snowflake/Dependencies); Snowflake/Records is
--                      data/repositories/snowflake_records.py; Snowflake/Artifacts is
--                      data/repositories/snowflake.py; Snowflake/Artifacts/Flow
--                      and Snowflake/RecordFlow data/transactions/snowflake.py
--   Projects           backend/app/data/repositories/projects.py
--   Volumes            backend/app/data/repositories/volumes.py
--   Analysis           backend/app/data/repositories/analysis.py
--   Scene              backend/app/data/repositories/scenes.py; Scene/Proposals is scene_proposals.py,
--                      and Scene/Compile data/transactions/scene_compile.py
--   Tests              concrete runs
--
-- How code becomes definitions: a repository method is a function from the table to its result and the
-- new table; a method that can raise returns a Result. A flow threads the store of the tables it
-- touches; an error keeps no store, which is the rollback of its transaction. Steps of concurrent
-- callers are the constructors of a step relation (Outbox/Steps, Manuscript/Versions), one for each
-- committed statement or transaction, since SQLite runs these one at a time. The clock is an
-- argument, and so are the names that uuid4 gives and the verdicts of the payload validations on
-- snowflake revisions. In two places what other connections do in the middle of a routine is an
-- argument too: the handler of a job maps the state, the outbox table with it, to the one at its end
-- (Outbox/Service), and each try of an update of a canon entity has the other writers between its
-- read and its UPDATE (Canon.Others).
--
-- Fuel: next_free (the loop of make_record_id) runs on one round more than there are existing ids.
-- Common/Text.emit divides by ten on fuel above the number. Canon.update_tries runs the three tries
-- of the code. Snowflake/Dependencies.explore runs on one round more than there are steps; it is
-- shown to end with an empty stack.
--
-- Not modelled: HTTP routers, prompts, provider adapters, exports, migrations, backups, the
-- frontend; foreign keys, but for those of facts to their project, of thread events and of volumes;
-- durations and log lines;
-- the contracts and validators of snowflake payloads. Objects arrive as their model classes have
-- made them, but for canon entities, memory records and scene contracts, whose validation is
-- modelled. The step of a source reference is read from ASCII digits. What an accepted write-back
-- proposal writes to the narrative tables is an argument of Writeback/Flow. A clock, a handler and a
-- provider are arguments of the definitions that call them.
pub mod Common
pub mod Sql
pub mod Review
pub mod Data
pub mod Outbox
pub mod Llm
pub mod Manuscript
pub mod Canon
pub mod Memory
pub mod Writeback
pub mod Reference
pub mod Narrative
pub mod Snowflake
pub mod Projects
pub mod Scene
pub mod Threads
pub mod Volumes
pub mod Analysis
pub mod Tests
