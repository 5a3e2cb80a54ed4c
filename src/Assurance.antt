-- ===== src/Assurance.antt =====
-- internal/console/web/assurance.js: the campaign assurance report. Each read of the report takes
-- a ticket; an answer counts only while its ticket is the latest. The state is the closure's
-- variables. The answers that are still out, and the microtasks that `render` queued, are listed
-- beside it. The panel's texts are left out; which of them is shown is kept.
pub mod FollowUp
pub mod Current
mod Tests
use afterglow.Prelude.{
  ℕ, suc, ◌+◌, Bool, true, false, ◌&&◌, ◌||◌, not, List, [], ◌∷◌, String, Option, none, some,
  str_eq, ◌==◌, if◌then◌else◌, filter, is_some, Memᴰ, ◌≡◌, ◌≢◌,
}
use afterglow.Api.{Campaign, Status, accepted, quarantined, failed}

pub record ScreenReport : Type 0 where
  pub screen_id : String
  pub settled_plays : ℕ
  pub settled_micros : ℕ
  pub held_micros : ℕ
  pub decisions : Status → ℕ

pub record Report : Type 0 where
  pub campaign : Campaign
  pub screens : List ScreenReport
  pub budget_consistent : Bool
  pub settled_plays : ℕ
  pub held_plays : ℕ
  pub awaiting_evidence : ℕ
  pub decisions : Status → ℕ

-- The items of `recommendations`, with the number that their text shows.
pub data Advice : Type 0 where
  budget_mismatch : Advice
  missing_playback : ℕ → Advice
  review_evidence : ℕ → Advice
  recover_failures : ℕ → Advice
  watch_progress : ℕ → Advice
  no_exceptions : Advice

-- `if (n) items.push(item)`
unfoldable pub when_some : ℕ → Advice → List Advice → List Advice
when_some n item items = if n == 0 then items else item ∷ items

-- The items that a number of receipts or plays brings in.
unfoldable pub counted_items : Report → List Advice
unfolding when_some
counted_items r = when_some r.awaiting_evidence (missing_playback r.awaiting_evidence) (
    when_some (r.decisions quarantined) (review_evidence (r.decisions quarantined)) (
      when_some (r.decisions failed) (recover_failures (r.decisions failed))
        (when_some (r.decisions accepted) (watch_progress (r.decisions accepted)) [])))

-- `if (!items.length) items.push(…)`
abbrev pub or_clean : List Advice → List Advice
or_clean [] = no_exceptions ∷ []
or_clean (item ∷ items) = item ∷ items

unfoldable pub recommendations : Report → List Advice
unfolding counted_items
recommendations r =
    or_clean (if r.budget_consistent then counted_items r else budget_mismatch ∷ counted_items r)

-- The exceptions column of a screen's row; `None` is shown for 0.
unfoldable pub exceptions : ScreenReport → ℕ
exceptions s = s.decisions quarantined + s.decisions failed

pub record Panel : Type 0 where
  pub selected : String
  pub report : Option Report
  pub loading : Bool
  pub error : String
  pub generation : ℕ

-- Which of its four forms `content` takes.
pub data Content : Type 0 where
  reading choosing : Content
  failing : String → Content
  showing : Report → Content

unfoldable pub content : Panel → Content
content p =
    if p.loading
    then reading
    else if not (str_eq p.error "")
    then failing p.error
    else elim p.report [ none ↦ choosing | some r ↦ showing r ]

-- `disabled` of the export button, and what its click exports.
unfoldable pub export_disabled : Panel → Bool
export_disabled p = not (is_some p.report) || p.loading || not (str_eq p.error "")

unfoldable pub export : Panel → Option Report
export p = if is_some p.report && not p.loading && str_eq p.error "" then p.report else none

pub record Call : Type 0 where
  pub ticket : ℕ
  pub campaign : String

-- The variables that `fetchReport` sets before its `await`.
abbrev pub begun : Panel → Panel
begun p = record p { generation = p.generation + 1; loading = true; error = ""; report = none }

-- `fetchReport` up to its `await`.
unfoldable pub fetch_report : Panel → Panel × List Call
fetch_report p =
    if str_eq p.selected ""
    then (p, [])
    else (begun p, record { ticket = p.generation + 1; campaign = p.selected } ∷ [])

-- The rest of it, where the request answered or threw.
unfoldable pub arrived : ℕ → Report → Panel → Panel
arrived ticket data' p =
    if ticket == p.generation then record p { report = some data'; loading = false } else p

unfoldable pub lost : ℕ → String → Panel → Panel
lost ticket message p =
    if ticket == p.generation then record p { error = message; loading = false } else p

pub record World : Type 0 where
  pub panel : Panel
  pub calls : List Call
  pub queued : ℕ

unfoldable pub with_fetch : World → World
unfolding fetch_report
with_fetch w =
    let (p, sent) = fetch_report w.panel in
    record w { panel = p; calls = elim sent [ [] ↦ w.calls | c ∷ _ ↦ c ∷ w.calls ] }

-- The change handler of the campaign selector.
unfoldable pub select : String → World → World
unfolding with_fetch
select id w = with_fetch (record w { panel = record (w.panel) { selected = id } })

abbrev first_id : List Campaign → String
first_id [] = ""
first_id (c ∷ _) = c.id

-- `render`: the default campaign, and the microtask that it may queue.
unfoldable pub render : List Campaign → World → World
render campaigns w =
    let p = w.panel in
    let q = record p {
      selected = if str_eq p.selected "" then first_id campaigns else p.selected;
    } in
    record w {
      panel = q;
      queued =
          if not (is_some q.report) && not q.loading && str_eq q.error ""
          then suc w.queued
          else w.queued;
    }

unfoldable pub without : ℕ → List Call → List Call
without ticket calls = filter (λ c. not (c.ticket == ticket)) calls

-- What can happen. The refresh button and a completed proof both read the report again. The
-- service answers for the campaign that was asked for; campaigns have names that are not empty.
pub data Step : World → World → Type 0 where
  selected : (w : World) (id : String) → id ≢ "" → Step w (select id w)
  refreshed : (w : World) → Step w (with_fetch w)
  rendered : (w : World) (campaigns : List Campaign) → Step w (render campaigns w)
  tick : (w : World) (n : ℕ) → w.queued ≡ suc n → Step w (with_fetch (record w { queued = n }))
  answered :
      (w : World) (c : Call) (r : Report)
      → Memᴰ c w.calls
      → r.campaign.id ≡ c.campaign
      → Step w (record w { panel = arrived c.ticket r w.panel; calls = without c.ticket w.calls })
  threw :
      (w : World) (c : Call) (message : String)
      → Memᴰ c w.calls
      → Step w
          (record w { panel = lost c.ticket message w.panel; calls = without c.ticket w.calls })

pub data Reach (w : World) : World → Type 0 where
  here : Reach w w
  next : {u v : World} → Reach w u → Step u v → Reach w v

abbrev pub start : World
start = record {
  panel = record { selected = ""; report = none; loading = false; error = ""; generation = 0 };
  calls = [];
  queued = 0;
}
