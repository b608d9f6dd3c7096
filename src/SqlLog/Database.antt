-- ===== src/SqlLog/Database.antt =====
-- `Dialect` of pkg/server/types.go, over the state `D` of a database, and the rows of its queries,
-- without the selectors. A query or a write may fail. The state of the database holds the transaction
-- that is open, on which `commit` and `rollback` work; a rollback after a commit does nothing.
use harikube.Common.{ℕ, Bytes, Bool, Option, List}
use harikube.Api.{Error}

-- The columns of a row: the current and the compact revision at the time of the query, null where
-- they are none, and those of the row itself.
pub record SqlRow : Type 0 where
  pub current_rev : Option ℕ
  pub compact_rev : Option ℕ
  pub id : ℕ
  pub name : Bytes
  pub created : Bool
  pub deleted : Bool
  pub create_revision : ℕ
  pub prev_revision : ℕ
  pub lease : ℕ
  pub value : Bytes
  pub old_value : Bytes

-- What `rows.Scan` gives for a row.
pub data Scanned : Type 0 where
  row : SqlRow → Scanned
  bad_row : Error → Scanned

pub data Query : Type 0 where
  rows : List Scanned → Query
  query_failed : Error → Query

pub record Dialect (D : Type 0) : Type 0 where
  pub list_current : Bytes → Bytes → ℕ → Bool → Bool → D → Query
  pub list : Bytes → Bytes → ℕ → ℕ → Bool → Bool → D → Query
  pub count_current : Bytes → Bytes → D → ℕ × ℕ × Option Error
  pub count : Bytes → Bytes → ℕ → D → ℕ × ℕ × ℕ × Option Error
  pub current_revision : D → ℕ × Option Error
  pub after : Bytes → Bytes → ℕ → ℕ → D → Query
  pub insert : Bytes → Bool → Bool → ℕ → ℕ → ℕ → Bytes → Bytes → D → D × (ℕ × Option Error)
  pub get_compact_revision : D → ℕ × Option Error
  pub fill : ℕ → D → D × Option Error
  pub is_fill : Bytes → Bool
  pub translate_start_key : Bytes → Bytes
  pub begin_tx : D → D × Option Error
  pub tx_compact : ℕ → D → D × (ℕ × Option Error)
  pub tx_set_compact_revision : ℕ → D → D × Option Error
  pub tx_delete_revision : ℕ → D → D × Option Error
  pub commit : D → D × Option Error
  pub rollback : D → D × Option Error
  pub post_compact : D → D × Option Error
