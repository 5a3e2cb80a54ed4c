-- ===== src/Actions/Links.antt =====
-- The buttons in the tables of receipts and reservations find what they are drawn for.
use Prim.Native.Nat.{Ordering}
use mathlib.Core.Path.{subst⁻¹}
use afterglow.Prelude.{
  Pairs, ◌⊎◌, IsDistinct, find-key, All-take, All-drop, All-filter, All-members, ◌≡◌, refl, ap, ◌≢◌,
  ◌*◌, ℕ, Bool, true, false, List, [], ◌∷◌, map, String, Option, none, some, arith, All, Memᴰ,
  str_eq, find, filter, take, Bool-cases, inl, inr,
}
use afterglow.Api.{HoldState, Snapshot, Reservation, Delivery, is_exception}
use afterglow.Ledger.{LedgerView, before, matches, insert, sort_rows, filtered, ledger_results}
use afterglow.Ledger.Table.{
  Table, Row, row, rows, no_match, nothing_to_recover, nothing_yet, ledger_table, results_table,
  recent,
}
use afterglow.Overview.Holds.{HoldRow, Action, action_of, hold_row, holds_table}
use afterglow.Actions.{
  Desk, recording, delivery_details, open_dialog, click, show_delivery, delivery_content, shown,
  delivery, proof,
}

module _ (P : Delivery → Type 0) (le : Delivery → Delivery → Bool) where
  All-insert : (d : Delivery) (ds : List Delivery) → P d → All P ds → All P (insert le d ds)
  unfolding insert
  All-insert d [] p a = (p, tt)
  All-insert d (e ∷ ds) p (q, a) = elim (Bool-cases (le d e)) [
    | inl first ↦ rw first (p, (q, a))
    | inr later ↦ rw later (q, All-insert d ds p a)
  ]

  All-sort_rows : (ds : List Delivery) → All P ds → All P (sort_rows le ds)
  unfolding sort_rows
  All-sort_rows [] a = tt
  All-sort_rows (d ∷ ds) (p, a) = All-insert d (sort_rows le ds) p (All-sort_rows ds a)

abbrev pub links : Table → List String
links no_match = []
links nothing_to_recover = []
links nothing_yet = []
links (rows rs) = map Row.link rs

abbrev pub hold_rows : Option (List HoldRow) → List HoldRow
hold_rows none = []
hold_rows (some rs) = rs

-- The price of a receipt's reservation, where the snapshot has it.
abbrev pub price_of : Snapshot → Delivery → Option ℕ
price_of s x = elim (find (λ r. str_eq r.id x.reservation_id) s.reservations) [
  | none ↦ none
  | some r ↦ some r.cost_micros
]

-- A click on the link opens the details of the receipt that it is drawn for.
abbrev pub Opens : Snapshot → Desk → String → Type 0
Opens s d link =
    (x : Delivery) × Memᴰ x s.deliveries
    × (x.id ≡ link)
    × (click (delivery link) d
        ≡ (open_dialog (delivery_details x (price_of s x) (is_exception x.status)) d, []))

-- The row of a reservation: it shows it, and where it is held it has a button that starts its
-- playback; the others have none.
abbrev pub Plays : Desk → Reservation → HoldRow → Type 0
Plays d r h =
    (h.id ≡ r.id)
    × (h.state ≡ r.state)
    × (h.amount ≡ r.cost_micros)
    × (((r.state ≡ HoldState.held)
          × (h.action ≡ Action.record_playback r.id)
          × (click (proof r.id) d ≡ (d, recording r ∷ [])))
        ⊎ ((r.state ≢ HoldState.held) × (h.action ≡ Action.final)))

links-empty : (compact : Bool) (v : LedgerView) → links (ledger_table compact v []) ≡ []
unfolding ledger_table
links-empty compact v = ground arith

row-links :
    (compact : Bool) (ds : List Delivery) → map Row.link (map (row compact) ds) ≡ map Delivery.id ds
unfolding row
row-links compact [] = refl
row-links compact (x ∷ ds) = ap (λ t. x.id ∷ t) (row-links compact ds)

table-links :
    (compact : Bool) (v : LedgerView) (ds : List Delivery)
    → links (ledger_table compact v ds) ≡ map Delivery.id ds
unfolding ledger_table
table-links compact v [] = links-empty compact v
table-links compact v (x ∷ ds) = row-links compact (x ∷ ds)

delivery_content-own :
    (s : Snapshot) (x : Delivery)
    → find (λ y. str_eq y.id x.id) s.deliveries ≡ some x
    → delivery_content s x.id ≡ some (delivery_details x (price_of s x) (is_exception x.status))
unfolding delivery_content
delivery_content-own s x h = rw (delivery_content, h) refl

show_delivery-own :
    (s : Snapshot) (x : Delivery) (d : Desk)
    → find (λ y. str_eq y.id x.id) s.deliveries ≡ some x
    → show_delivery (some s) x.id d
      ≡ open_dialog (delivery_details x (price_of s x) (is_exception x.status)) d
unfolding show_delivery shown
show_delivery-own s x d h = ap (λ c. shown c d) (delivery_content-own s x h)

module _ (s : Snapshot) (d : Desk) (loaded : d.shell.state ≡ some s) where
  Opens-own :
      IsDistinct (map Delivery.id s.deliveries)
      → (x : Delivery) → Memᴰ x s.deliveries
      → Opens s d x.id
  unfolding click
  Opens-own distinct x m = (
    x,
    m,
    refl,
    simp loaded (
        ap (λ e. (e, []))
          (show_delivery-own s x d (find-key Delivery.id s.deliveries x distinct m))),
  )

  starts_playback :
      IsDistinct (map Reservation.id s.reservations)
      → (r : Reservation) → Memᴰ r s.reservations
      → click (proof r.id) d ≡ (d, recording r ∷ [])
  unfolding click
  starts_playback distinct r m =
      rw (loaded, find-key Reservation.id s.reservations r distinct m) refl

  Plays-state :
      IsDistinct (map Reservation.id s.reservations)
      → (r : Reservation) → Memᴰ r s.reservations
      → (state : HoldState) → r.state ≡ state
      → Plays d r (record (hold_row r) { action = action_of state r.id })
  unfolding hold_row
  Plays-state distinct r m HoldState.held e =
      (refl, refl, refl, inl (e, refl, starts_playback distinct r m))
  Plays-state distinct r m HoldState.settled e = (refl, refl, refl, inr (λ h. ground arith, refl))
  Plays-state distinct r m HoldState.released e = (refl, refl, refl, inr (λ h. ground arith, refl))

  hold_row-Plays :
      IsDistinct (map Reservation.id s.reservations)
      → (r : Reservation) → Memᴰ r s.reservations
      → Plays d r (hold_row r)
  unfolding hold_row
  hold_row-Plays distinct r m = Plays-state distinct r m r.state refl

  All-Opens :
      IsDistinct (map Delivery.id s.deliveries)
      → (compact : Bool) (ds : List Delivery) → All (λ x. Memᴰ x s.deliveries) ds
      → All (Opens s d) (map Row.link (map (row compact) ds))
  unfolding row
  All-Opens distinct compact [] a = tt
  All-Opens distinct compact (x ∷ ds) (m, a) =
      (Opens-own distinct x m, All-Opens distinct compact ds a)

  Opens-table :
      IsDistinct (map Delivery.id s.deliveries)
      → (compact : Bool) (v : LedgerView) (ds : List Delivery) → All (λ x. Memᴰ x s.deliveries) ds
      → All (Opens s d) (links (ledger_table compact v ds))
  unfolding ledger_table
  Opens-table distinct compact v [] a = subst⁻¹ (All (Opens s d)) (links-empty compact v) tt
  Opens-table distinct compact v (x ∷ ds) a = All-Opens distinct compact (x ∷ ds) a

  Pairs-Plays :
      IsDistinct (map Reservation.id s.reservations)
      → (rs : List Reservation) → All (λ r. Memᴰ r s.reservations) rs
      → Pairs (Plays d) rs (map hold_row rs)
  Pairs-Plays distinct [] a = tt
  Pairs-Plays distinct (r ∷ rs) (m, a) = (hold_row-Plays distinct r m, Pairs-Plays distinct rs a)

  Plays-table :
      IsDistinct (map Reservation.id s.reservations)
      → (rs : List Reservation) → All (λ r. Memᴰ r s.reservations) rs
      → Pairs (Plays d) rs (hold_rows (holds_table rs))
  unfolding holds_table
  Plays-table distinct [] a = tt
  Plays-table distinct (r ∷ rs) a = Pairs-Plays distinct (r ∷ rs) a

  -- Where the identifiers of the snapshot's receipts and reservations are distinct: each link in
  -- the table of the ledger, of the recovery queue or of the overview opens the details of the
  -- receipt that it stands for, and the tables have one for each row of the page, and for each of the
  -- three latest; and each reservation has a row, in order, with the button to record its playback
  -- exactly where it is held, which starts that reservation's playback.
  pub tables-AreLive :
      IsDistinct (map Delivery.id s.deliveries)
      → IsDistinct (map Reservation.id s.reservations)
      → (lower : String → String) (collate : String → String → Ordering) (v : LedgerView)
      → All (Opens s d) (links (results_table lower collate v s.deliveries))
        × All (Opens s d) (links (recent v s.deliveries))
        × Pairs (Plays d) s.reservations (hold_rows (holds_table s.reservations))
        × (links (recent v s.deliveries) ≡ map Delivery.id (take 3 s.deliveries))
        × (links (results_table lower collate v s.deliveries)
            ≡ map Delivery.id (ledger_results v (filtered lower collate v s.deliveries)).1.rows)
  unfolding results_table recent
  tables-AreLive receipts holds lower collate v =
      let own = All-members s.deliveries in
      let found =
        All-sort_rows _ (before collate v.sort) (filter (matches lower v) s.deliveries)
          (All-filter _ (matches lower v) s.deliveries own) in
      let r = ledger_results v (filtered lower collate v s.deliveries) in
      (
        Opens-table receipts false r.0 r.1.rows
            (All-take _ 20 _ (All-drop _ (r.0.page * 20) _ found)),
        Opens-table receipts true v (take 3 s.deliveries) (All-take _ 3 s.deliveries own),
        Plays-table holds s.reservations (All-members s.reservations),
        table-links true v (take 3 s.deliveries),
        table-links false r.0 r.1.rows,
      )
