-- ===== src/Traffic/Cells.antt =====
-- The parts of a foot-traffic report that internal/console/web/foottraffic.js reads: zones of
-- hourly cells, and the totals beside them. Left out: the dates' formats, a zone's context and
-- change, and the scope's text.
use afterglow.Prelude.{ℕ, List, String, Option}

pub data CellStatus : Type 0 where
  reported suppressed missing : CellStatus

pub record Cell : Type 0 where
  pub window_start : ℕ
  pub observations : Option ℕ
  pub status : CellStatus

pub record Zone : Type 0 where
  pub id : String
  pub name : String
  pub current : List Cell
  pub previous : List Cell
  pub comparable_windows : ℕ

pub record Sheet : Type 0 where
  pub as_of : ℕ
  pub zones : List Zone
  pub published_observations : ℕ
  pub released_windows : ℕ
  pub suppressed_windows : ℕ
  pub missing_windows : ℕ
  pub minimum_reportable_count : ℕ
