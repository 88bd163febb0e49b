-- ===== src/Snowflake/Records/Reads.antt =====
-- The queries of `SnowflakeRecordRepository` (backend/app/data/repositories/snowflake_records.py).
use ai_writing.Common.{
  ℕ, Bool, true, ◌&&◌, ◌||◌, Option, none, some, List, [], ◌∷◌, Str, str_lt, ltb, is_empty,
  contains, ◌==◌, list_eq, nat_eq, if◌then◌else◌,
}
use ai_writing.Sql.{select, select_one, rowcount, order_by, limit, offset}
use ai_writing.Snowflake.Records.{RecordRevision, RecordHead, Records, is_of, is_open}

-- `WHERE h.project_id = ? AND h.step_number = ?`
abbrev pub in_step : Str → ℕ → RecordHead → Bool
in_step project_id step h = h.project_id == project_id && h.step_number == step

-- `ORDER BY revision_no DESC`
abbrev pub newest_first : RecordRevision → RecordRevision → Bool
newest_first a b = ltb b.revision_no a.revision_no

-- `SELECT r2.id … ORDER BY r2.revision_no DESC LIMIT 1`, and the row that has it.
unfoldable pub latest : RecordHead → Records → Option RecordRevision
latest h s =
    select_one (λ r. true)
      (order_by newest_first (select (is_of h.project_id h.step_number h.record_id) s.revisions))

-- `JOIN … ON r.id = h.accepted_revision_id`
unfoldable pub accepted_of : RecordHead → Records → Option RecordRevision
accepted_of h s =
    if is_empty h.accepted_revision_id
    then none
    else select_one (λ r. r.id == h.accepted_revision_id) s.revisions

-- An inner join with one row at most for each head.
unfoldable pub joined : (RecordHead → Option RecordRevision) → List RecordHead → List RecordRevision
joined f [] = []
joined f (h ∷ heads) = let rest = joined f heads in elim (f h) [ none ↦ rest | some r ↦ r ∷ rest ]

-- `ORDER BY r.position, r.record_id`
unfoldable pub by_position : RecordRevision → RecordRevision → Bool
by_position a b =
    ltb a.position b.position || (a.position == b.position && str_lt a.record_id b.record_id)

-- The page and the number of heads.
unfoldable pub list_current : Str → ℕ → ℕ → ℕ → Records → List RecordRevision × ℕ
list_current project_id step n skip s = (
  limit n (
      offset skip (
        order_by by_position
          (joined (λ h. latest h s) (select (in_step project_id step) s.heads)))),
  rowcount (in_step project_id step) s.heads,
)

unfoldable pub list_accepted : Str → ℕ → Records → List RecordRevision
list_accepted project_id step s =
    order_by by_position (joined (λ h. accepted_of h s) (select (in_step project_id step) s.heads))

-- `[by_id[record_id] for record_id in record_ids if record_id in by_id]`; with one row for each
-- record, `by_id` reads the only one.
unfoldable pub in_order : List Str → List RecordRevision → List RecordRevision
in_order [] rows = []
in_order (id ∷ ids) rows =
    let rest = in_order ids rows in
    elim (select_one (λ r. r.record_id == id) rows) [ none ↦ rest | some r ↦ r ∷ rest ]

abbrev pub asked : Str → ℕ → List Str → RecordHead → Bool
asked project_id step ids h = in_step project_id step h && contains ids h.record_id

unfoldable pub get_current_by_record_ids : Str → ℕ → List Str → Records → List RecordRevision
get_current_by_record_ids project_id step ids s =
    in_order ids (joined (λ h. latest h s) (select (asked project_id step ids) s.heads))

unfoldable pub get_accepted_by_record_ids : Str → ℕ → List Str → Records → List RecordRevision
get_accepted_by_record_ids project_id step ids s =
    in_order ids (joined (λ h. accepted_of h s) (select (asked project_id step ids) s.heads))

-- `pending_counts(project_id)[step]`, or 0 where the step has no such row.
unfoldable pub pending_count : Str → ℕ → Records → ℕ
pending_count project_id step s =
    rowcount (λ r. r.project_id == project_id && r.step_number == step && is_open r.status)
      s.revisions

unfoldable pub list_history : Str → ℕ → Str → ℕ → ℕ → Records → List RecordRevision × ℕ
list_history project_id step record_id n skip s = (
  limit n
      (offset skip (order_by newest_first (select (is_of project_id step record_id) s.revisions))),
  rowcount (is_of project_id step record_id) s.revisions,
)
