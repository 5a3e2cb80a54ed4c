-- ===== src/Console.antt =====
-- internal/console/web/app.js without the ledger: the request helper, the periodic refresh with its
-- connection banner, the routing of a render, the scenario buttons, and the form that reserves a
-- play.
pub mod Request
pub mod Client
pub mod OneRun
pub mod Refresh
pub mod Routing
pub mod Address
pub mod Suits
pub mod InView
pub mod ReserveForm
mod Tests
