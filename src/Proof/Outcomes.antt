-- ===== src/Proof/Outcomes.antt =====
-- What the assertions on the observed decisions say, without the code's tests.
use afterglow.Prelude.{
  ◌≡◌, refl, ◌≢◌, ◌⊎◌, inl, inr, Bool, true, ◌&&◌, not, List, [], ◌∷◌, ◌++◌, String, Option, none,
  some, arith, All, all, str_eq, eq_iff, Bool-cases,
}
use mathlib.Core.Bool.{false≢true}
use afterglow.Api.{Reservation, HoldState, Status, accepted, duplicate, quarantined, same_status}
use afterglow.Proof.{Evidence, is_terminal}
use afterglow.Proof.Stages.{is_pair, is_held_by, is_kept_held, objection, same_ids}
use afterglow.Proof.Identity.{AreTwoCents, are_two_cents-AreTwoCents}

-- Every decision is final.
abbrev pub AreFinal : List Evidence → Type 0
AreFinal rows = All (λ e. e.delivery.status ≢ accepted) rows

-- The first two rows are one settlement and one duplicate.
abbrev pub IsPair : List Evidence → Type 0
IsPair (a ∷ b ∷ rows) =
    ((a.delivery.status ≡ duplicate) × (b.delivery.status ≡ Status.settled))
    ⊎ ((a.delivery.status ≡ Status.settled) × (b.delivery.status ≡ duplicate))
IsPair _ = ⊥

-- The unknown schema is quarantined as such, and its budget is held.
pub record IsKeptHeld (e : Evidence) : Type 0 where
  pub kept : e.delivery.status ≡ quarantined
  pub reason : e.delivery.reason ≡ "unsupported_schema"
  pub hold : Reservation
  pub its_hold : e.reservation ≡ some hold
  pub held : hold.state ≡ HoldState.held

-- The correction settled, the quarantine unchanged, the pair as it was, and two cents in all.
pub record IsVerified (rows : List Evidence) (third fourth : Evidence) : Type 0 where
  pub corrected : fourth.delivery.status ≡ Status.settled
  pub schema : third.delivery.schema_version ≡ 99
  pub quarantine : third.delivery.status ≡ quarantined
  pub pair : IsPair rows
  pub two_cents : AreTwoCents rows

same_status-eq : (a b : Status) → same_status a b ≡ true → a ≡ b
same_status-eq a b h = ground arith

pub is_terminal-AreFinal : (rows : List Evidence) → is_terminal rows ≡ true → AreFinal rows
unfolding is_terminal
is_terminal-AreFinal [] h = tt
is_terminal-AreFinal (e ∷ rows) h =
    (λ s. open_status e.delivery.status s h, is_terminal-AreFinal rows (rest e.delivery.status h))
  where
    open_status :
        (s : Status)
        → s ≡ accepted
        → (not (same_status s accepted)
            && all (λ x. not (same_status x.delivery.status accepted)) rows)
          ≡ true
        → ⊥
    open_status s e k = ground arith

    rest :
        (s : Status)
        → (not (same_status s accepted)
            && all (λ x. not (same_status x.delivery.status accepted)) rows)
          ≡ true
        → all (λ x. not (same_status x.delivery.status accepted)) rows ≡ true
    rest s k = ground arith

pub is_pair-IsPair : (rows : List Evidence) → is_pair rows ≡ true → IsPair rows
is_pair-IsPair [] h = absurd (false≢true h)
is_pair-IsPair (a ∷ []) h = absurd (false≢true h)
is_pair-IsPair (a ∷ b ∷ rows) h =
    elim (Bool-cases
      (same_status a.delivery.status duplicate && same_status b.delivery.status Status.settled)) [
        | inl one ↦ inl (same_status-eq _ _ (ground arith), same_status-eq _ _ (ground arith))
        | inr other ↦ inr (same_status-eq _ _ (ground arith), same_status-eq _ _ (ground arith))
      ]

held_by :
    (o : Option Reservation)
    → is_held_by o ≡ true
    → (h : Reservation) × (o ≡ some h) × (h.state ≡ HoldState.held)
held_by none h = absurd (false≢true h)
held_by (some r) h = (r, refl, ground arith)

both : (a b : Bool) → a && b ≡ true → (a ≡ true) × (b ≡ true)
both a b h = ground arith

three : (a b c : Bool) → a && b && c ≡ true → (a ≡ true) × (b ≡ true) × (c ≡ true)
three a b c h = ground arith

pub is_kept_held-IsKeptHeld : (e : Evidence) → is_kept_held e ≡ true → IsKeptHeld e
is_kept_held-IsKeptHeld e h =
    let (status, why, hold) =
      three (same_status e.delivery.status quarantined)
        (str_eq e.delivery.reason "unsupported_schema") (is_held_by e.reservation) h in
    let (r, its, held) = held_by e.reservation hold in
    record {
      kept = same_status-eq e.delivery.status quarantined status;
      reason = (eq_iff e.delivery.reason "unsupported_schema").0 why;
      hold = r;
      its_hold = its;
      held = held;
    }

pub objection-IsVerified :
    (rows : List Evidence) (third fourth : Evidence)
    → objection rows third fourth ≡ none
    → IsVerified rows third fourth
unfolding objection
objection-IsVerified rows third fourth h = record {
  corrected = same_status-eq fourth.delivery.status Status.settled (ground arith);
  schema = ground arith;
  quarantine = same_status-eq third.delivery.status quarantined (ground arith);
  pair = is_pair-IsPair rows (ground arith);
  two_cents = are_two_cents-AreTwoCents rows (ground arith);
}

pub same_ids-append :
    (ids first : List String)
    → same_ids ids first ≡ true
    → (rest : List String) × (first ≡ ids ++ rest)
same_ids-append [] first h = (first, refl)
same_ids-append (a ∷ ids) [] h = absurd (false≢true h)
same_ids-append (a ∷ ids) (b ∷ first) h =
    let (head, tail) = both (str_eq a b) (same_ids ids first) h in
    let (rest, e) = same_ids-append ids first tail in (rest, rw (e, (eq_iff a b).0 head) refl)
