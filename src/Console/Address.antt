-- ===== src/Console/Address.antt =====
-- How the address, the ledger's controls and the snapshot meet in `render` of
-- internal/console/web/app.js. The browser changes the address at once and fires `hashchange`
-- later, so that a refresh, or a click on what is still drawn, can come between.
use Prim.Native.Nat.{Ordering}
use afterglow.Prelude.{
  ◌≡◌, ℕ, suc, Bool, true, false, ◌&&◌, List, String, Option, none, some, if◌then◌else◌, is_some,
}
use afterglow.Api.{Status, Delivery}
use afterglow.Ledger.{
  View, overview, ledger, recovery, Filter, all, only, newest, LedgerView, LedgerEvent, cleared,
  chosen, typed, navigated, handle, filtered, ledger_results,
}
use afterglow.Console.Routing.{Drawn, whole, rows_only, render}

-- The views that draw `ledgerResults`.
abbrev pub has_results : View → Bool
has_results ledger = true
has_results recovery = true
has_results _ = false

-- The filter buttons of a view.
unfoldable pub has_filter : View → Filter → Bool
has_filter view all = true
has_filter ledger (only s) = true
has_filter recovery (only Status.quarantined) = true
has_filter recovery (only Status.failed) = true
has_filter _ _ = false

pub record App : Type 0 where
  pub hash : String
  pub pending : ℕ  -- how many `hashchange` events are still to come
  pub deliveries : Option (List Delivery)  -- of the snapshot
  pub ledger : LedgerView

abbrev pub start : String → App
start hash = record {
  hash = hash;
  pending = 0;
  deliveries = none;
  ledger = record { active = overview; filter = all; search = ""; page = 0; sort = newest };
}

abbrev pub draws_results : Drawn → Bool
draws_results whole = true
draws_results rows_only = true
draws_results _ = false

-- What a control has to be drawn for: the snapshot is there and the view has it.
unfoldable pub is_offered : LedgerEvent → App → Bool
unfolding has_filter
is_offered cleared a = is_some a.deliveries
is_offered (chosen f) a =
    is_some a.deliveries && (has_results a.ledger.active && has_filter a.ledger.active f)
is_offered (navigated view) a = false
is_offered e a = is_some a.deliveries && has_results a.ledger.active

module _ (lower : String → String) (collate : String → String → Ordering) where
  -- `ledgerResults`, which writes the page number back.
  unfoldable pub drawn_results : Option (List Delivery) → LedgerView → LedgerView
  unfolding filtered ledger_results
  drawn_results none v = v
  drawn_results (some ds) v = (ledger_results v (filtered lower collate v ds)).0

  -- `render`
  unfoldable pub rendered : (mounted searching : Bool) → App → App
  unfolding render drawn_results
  rendered mounted searching a =
      let (now, drawn) = render (is_some a.deliveries) mounted searching a.hash a.ledger.active in
      let v = record a.ledger { active = now } in
      record a {
        ledger = if draws_results drawn && has_results now then drawn_results a.deliveries v else v;
      }

  -- A handler of the ledger: a search redraws the rows alone.
  unfoldable pub handled : (mounted searching : Bool) → LedgerEvent → App → App
  unfolding handle rendered drawn_results
  handled mounted searching (typed text) a = record a {
    ledger = drawn_results a.deliveries (handle (typed text) a.ledger);
  }
  handled mounted searching e a =
      rendered mounted searching (record a { ledger = handle e a.ledger })

  -- The `hashchange` listener.
  unfoldable pub hash_changed : (mounted searching : Bool) → ℕ → App → App
  unfolding handle rendered
  hash_changed mounted searching left a =
      rendered mounted searching (record a { pending = left; ledger = handle cleared a.ledger })

  pub data Step (a : App) : App → Type 0 where
    addressed : (hash : String) → Step a (record a { hash = hash; pending = suc a.pending })
    told :
        (mounted searching : Bool) (left : ℕ)
        → a.pending ≡ suc left
        → Step a (hash_changed mounted searching left a)
    refreshed :
        (mounted searching : Bool) (deliveries : List Delivery)
        → Step a (rendered mounted searching (record a { deliveries = some deliveries }))
    redrawn : (mounted searching : Bool) → Step a (rendered mounted searching a)
    used :
        (mounted searching : Bool) (e : LedgerEvent)
        → is_offered e a ≡ true
        → Step a (handled mounted searching e a)

  pub data Reach (a : App) : App → Type 0 where
    here : Reach a a
    next : {b c : App} → Reach a b → Step b c → Reach a c
