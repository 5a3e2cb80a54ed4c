-- ===== src/Lib.antt =====
-- Afterglow's operations console (internal/console/web): the logic of its pages, modelled as state
-- machines over the code's own variables, with the theorems that make them safe to use over a
-- slow and unreliable network.
--
-- The program is one page of several scripts that share a service. Each script keeps its state in
-- module variables, changes it in listeners and asynchronous functions, and redraws from it. A
-- listener or function becomes a function on a record of these variables, cut at each `await`:
-- the part before it returns the requests that go out, the part after it takes the answer. Any
-- order of clicks and answers is then a path of a step relation or a list of events. Amounts and
-- times are natural numbers in the code's units (micros, milliseconds); none of the operations
-- modelled here leaves the range in which JavaScript's numbers are exact, except the amount of the
-- reserve form, whose test on safe integers is part of the model.
--
-- Which file models which part:
--   * Text, Price: `priceMicros` of internal/console/web/intake.js, and the amount of the reserve
--     form of internal/console/web/app.js, over the code units of the typed text.
--   * Api: what the console reads of the service's answers.
--   * Ledger: `filtered`, `ledgerResults`, the counts of `ledger`, and the listeners that sort,
--     filter, search and turn pages (app.js); Table is `ledgerTable` and the export. `toLowerCase`
--     and `localeCompare` are parameters.
--   * Session: `demoSession` of internal/console/web/demo-reset.js, which every request goes
--     through; Session.Dialog: the dialog that clears the demo.
--   * Assurance: internal/console/web/assurance.js, with the tickets that drop stale answers.
--   * Traffic: internal/console/web/foottraffic.js: Handlers has the listeners and the parts after
--     their awaits, Machine puts them together, Storage has what a reload restores. Display is
--     what `content` writes of a report (Cells), and Controls what `update` sets. Spec says what the
--     page does with a batch, with neither tickets nor flags.
--   * Intake: internal/console/web/intake.js: the example plans, their idempotency keys, and the
--     batches, cut at their awaits; Steps lets commands and answers come in any order, and Page is
--     what `results` and `update` show. `JSON` is a record of parameters.
--   * Proof: `batch`, `observe` and `execute` of internal/console/web/proof.js. An execution is one
--     function of what the service answers, since `running` keeps a second one out; Proof.Storage
--     has what `save` writes meanwhile and what a reload finds. The clock of `observe` is where
--     its list of timely reads ends. Proof.Page is what the page shows of the run, and its buttons;
--     Inline is the panel that other pages show.
--   * Console: `request` (Client puts it on the session), `refresh` with the pause button and the
--     timer, `render`'s choice of what to redraw, with the address that changes meanwhile (Address),
--     and the form that reserves a play (app.js).
--   * Overview: the counts, budgets and bars of the overview and the campaign page, the map of
--     screens, whose coordinates are exact fractions, and the table of reservations (app.js).
--   * Actions: `scenario`, the shared click listener, `details`, `toast` and the cards of `lab`
--     (app.js).
--   * Navigation: the page finder of internal/console/web/navigation.js.
--   * Html: `esc`, `title` and `badge` (app.js), which write text into HTML.
-- In each part the files named for a property prove it (Ledger.Pages, Traffic.Exclusive), and
-- Tests runs the definitions on concrete input. Prelude has the shared lists and lemmas.
--
-- One definition runs on fuel: the polling loop of `observe` (Proof.Observe), with 59 rounds, since
-- each takes at least 350 of its 20,000 milliseconds. The other loops are recursion on the list that
-- they walk through.
--
-- Not modelled: the wording and layout of the templates of HTML, the focus that is kept through a
-- redraw, the id and times of a proof run, the scripts that test the console in a browser, and the
-- service itself, whose answers are inputs here.
pub mod Prelude
pub mod Text
pub mod Price
pub mod Api
pub mod Ledger
pub mod Session
pub mod Assurance
pub mod Traffic
pub mod Intake
pub mod Proof
pub mod Html
pub mod Overview
pub mod Navigation
pub mod Console
pub mod Actions
