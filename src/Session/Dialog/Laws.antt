-- ===== src/Session/Dialog/Laws.antt =====
-- At most one reset is on its way, and the buttons follow it.
use afterglow.Prelude.{
  eq_iff, Bool-cases, ap, ◌≢◌, ◌&&◌, Bool, Option, str_eq, ◌≡◌, refl, ℕ, zero, suc, ◌≤◌, true,
  false, List, [], ◌∷◌, ◌⊎◌, arith, none, some, String, if◌then◌else◌, ◌+◌, inl, inr,
}
use Prim.Native.String
use afterglow.Session.{Tab, truthy, reload}
use afterglow.Session.Dialog.{
  Dialog, idle_label, Outcome, answered, threw, failure, confirm_end, confirm_click, Session, Event,
  ended, finish, step, run,
}

-- What holds of the dialog between two events.
pub record IsConsistent (s : Session) : Type 0 where
  pub one_request : s.in_flight ≤ 1
  pub follows : s.dialog.disabled ≡ s.dialog.pending
  pub sent_is_pending : 1 ≤ s.in_flight → s.dialog.pending ≡ true
  pub pending_has_cause : s.dialog.pending ≡ true → (s.in_flight ≡ 1) ⊎ (s.tab.invalidated ≡ true)
  pub labelled : s.dialog.label ≡ (if s.dialog.pending then "Clearing…" else idle_label)
  pub stays_open : s.in_flight ≡ 1 → s.dialog.showing ≡ true

finish-IsConsistent :
    (n : ℕ) (o : Outcome) (s : Session)
    → s.in_flight ≡ n
    → IsConsistent s
    → IsConsistent (finish n o s)
unfolding finish reload
finish-IsConsistent zero o s e c = c
finish-IsConsistent (suc n) o s e c = ground arith

step-IsConsistent : (e : Event) (s : Session) → IsConsistent s → IsConsistent (step e s)
unfolding step
step-IsConsistent (ended o) s c = finish-IsConsistent s.in_flight o s refl c
step-IsConsistent _ s c = ground arith

-- From the closed dialog on, after any clicks, key presses and ends of requests: at most one reset
-- is on its way; both buttons are disabled and the label says so exactly while one is pending; the
-- dialog cannot be closed under a request; and it stays pending after its request only where the
-- tab was invalidated and is about to reload.
pub run-IsConsistent : (es : List Event) (s : Session) → IsConsistent s → IsConsistent (run es s)
unfolding run
run-IsConsistent [] s c = c
run-IsConsistent (e ∷ es) s c = run-IsConsistent es (step e s) (step-IsConsistent e s c)

-- The reason for which a reset is not confirmed: what was thrown, or the answer's detail, or a
-- sentence where the answer has none.
abbrev pub IsReason : Outcome → String → Type 0
IsReason (threw message) text = text ≡ message
IsReason (answered ok cleared generation detail) text =
    ((ok && (cleared && truthy generation)) ≡ false)
    × (((detail ≡ some text) × (text ≢ ""))
        ⊎ (((detail ≡ none) ⊎ (detail ≡ some "")) × (text ≡ "The reset could not be confirmed.")))

-- The page after a successful answer that says that the data was cleared and names a generation.
pub record IsCleared (o : Outcome) (d : Dialog) (t : Tab) (after : Dialog × Tab) : Type 0 where
  pub generation : String
  pub detail : Option String
  pub answer : o ≡ answered true true (some generation) detail
  pub named : truthy (some generation) ≡ true
  pub dialog : after.0 ≡ d
  pub invalidated : after.1.invalidated ≡ true
  pub reloads : after.1.reloads ≡ t.reloads + 1
  pub taken : after.1.generation ≡ some generation
  pub told : after.1.broadcast ≡ (if t.shared then some generation else t.broadcast)

-- The page after anything else: the tab is as before, the notice gives the reason, and the dialog
-- can be confirmed again.
pub record IsRefused (o : Outcome) (t : Tab) (after : Dialog × Tab) : Type 0 where
  pub reason : String
  pub given : IsReason o reason
  pub tab : after.1 ≡ t
  pub notice :
      after.0.notice ≡ String.◌++◌ reason " Refresh to check the current state before trying again."
  pub again : (confirm_click after.0).1 ≡ true

confirm_end-IsRefused :
    (o : Outcome) (d : Dialog) (t : Tab) (message : String)
    → failure o ≡ some message
    → IsReason o message
    → IsRefused o t (confirm_end o d t)
unfolding confirm_end confirm_click
confirm_end-IsRefused o d t message e r =
    rw (confirm_end, e)
      (record { reason = message; given = r; tab = refl; notice = refl; again = refl })

unconfirmed :
    (ok cleared : Bool) (g detail : Option String) (d : Dialog) (t : Tab)
    → (ok && (cleared && truthy g)) ≡ false
    → IsRefused (answered ok cleared g detail) t (confirm_end (answered ok cleared g detail) d t)
unfolding failure
unconfirmed ok cleared g none d t h =
    confirm_end-IsRefused (answered ok cleared g none) d t "The reset could not be confirmed."
      (ground arith) (h, inr (inl refl, refl))
unconfirmed ok cleared g (some text) d t h = elim (Bool-cases (str_eq text "")) [
  | inl empty ↦
      let same : text ≡ "" = ground (arith, eq_iff text "") in
      confirm_end-IsRefused (answered ok cleared g (some text)) d t
        "The reset could not be confirmed." (ground arith) (h, inr (inr (ap some same), refl))
  | inr words ↦
      confirm_end-IsRefused (answered ok cleared g (some text)) d t text (ground arith)
        (h, inl (refl, λ e. ground (arith, eq_iff text "")))
]

confirmed_end :
    (g : String) (detail : Option String) (d : Dialog) (t : Tab)
    → failure (answered true true (some g) detail) ≡ none
    → confirm_end (answered true true (some g) detail) d t ≡ (d, reload (some g) true t)
unfolding confirm_end reload
confirmed_end g detail d t e = rw (confirm_end, e) refl

confirm_end-IsCleared :
    (g : String) (detail : Option String) (d : Dialog) (t : Tab)
    → t.invalidated ≡ false
    → truthy (some g) ≡ true
    → IsCleared
        (answered true true (some g) detail)
        d
        t
        (confirm_end (answered true true (some g) detail) d t)
unfolding reload failure
confirm_end-IsCleared g detail d t h word =
    let ends = confirmed_end g detail d t (ground arith) in
    rw ends (record {
      generation = g;
      detail = detail;
      answer = refl;
      named = word;
      dialog = refl;
      invalidated = ground arith;
      reloads = ground arith;
      taken = ground arith;
      told = ground arith;
    })

-- How an end of the request leaves the page: a successful answer that says that the data was
-- cleared and names a generation invalidates the tab with that generation, and tells it to the
-- other tabs where the storage takes it; anything else leaves the tab alone, says why, and lets the
-- reset be tried again.
pub confirm_end-outcome :
    (o : Outcome) (d : Dialog) (t : Tab)
    → t.invalidated ≡ false
    → IsCleared o d t (confirm_end o d t) ⊎ IsRefused o t (confirm_end o d t)
unfolding failure
confirm_end-outcome (threw message) d t h =
    inr (confirm_end-IsRefused (threw message) d t message refl refl)
confirm_end-outcome (answered false cleared g detail) d t h =
    inr (unconfirmed false cleared g detail d t refl)
confirm_end-outcome (answered true false g detail) d t h =
    inr (unconfirmed true false g detail d t refl)
confirm_end-outcome (answered true true none detail) d t h =
    inr (unconfirmed true true none detail d t refl)
confirm_end-outcome (answered true true (some g) detail) d t h =
    elim (Bool-cases (truthy (some g))) [
      | inr empty ↦ inr (unconfirmed true true (some g) detail d t empty)
      | inl word ↦ inl (confirm_end-IsCleared g detail d t h word)
    ]
