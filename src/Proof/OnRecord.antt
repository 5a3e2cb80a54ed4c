-- ===== src/Proof/OnRecord.antt =====
-- What a verified stage of a run has on record, and how far a run has come.
use afterglow.Prelude.{
  ◌≡◌, ℕ, zero, suc, ◌≤◌, Bool, true, false, List, [], ◌∷◌, String, Option, none, some, get_elem?,
  take, ◌++◌,
}
use afterglow.Api.{Reservation}
use afterglow.Intake.{Receipt, Item, receipt, malformed}
use afterglow.Proof.{Plan, BatchAnswer, Evidence, Run, Outcome}
use afterglow.Proof.Stages.{receipt_at}
use afterglow.Proof.Outcomes.{AreFinal, IsPair, IsKeptHeld, IsVerified}

-- Two holds, and the envelopes and the correction written for them under the plan's four events.
pub record HasPayload (plan : Plan) (holds : List Reservation) (payload : List Item)
    (correction : Option Receipt) : Type 0 where
  pub first : Reservation
  pub second : Reservation
  pub e0 : String
  pub e1 : String
  pub e2 : String
  pub e3 : String
  pub held_first : get_elem? holds 0 ≡ some first
  pub held_second : get_elem? holds 1 ≡ some second
  pub planned0 : get_elem? plan.events 0 ≡ some e0
  pub planned1 : get_elem? plan.events 1 ≡ some e1
  pub planned2 : get_elem? plan.events 2 ≡ some e2
  pub planned3 : get_elem? plan.events 3 ≡ some e3
  pub written :
      payload
      ≡ receipt (receipt_at 1 e0 first)
        ∷ receipt (receipt_at 1 e1 first)
        ∷ receipt (receipt_at 99 e2 second)
        ∷ malformed
        ∷ []
  pub corrected : correction ≡ some (receipt_at 1 e3 second)

-- An answer of partial success: three accepted, the malformed fourth rejected as such.
pub record IsPartial (a : BatchAnswer) : Type 0 where
  pub multi_status : a.http ≡ 207
  pub three_accepted : a.accepted ≡ 3
  pub one_rejected : a.rejected ≡ 1
  pub fourth_malformed : get_elem? a.statuses 3 ≡ some 400

-- What stage `k` has on record once it is verified.
abbrev pub Shows : ℕ → Run → Type 0
Shows zero r = HasPayload r.plan r.holds r.payload r.correction
Shows (suc zero) r = (a : BatchAnswer) × (r.batch ≡ some a) × IsPartial a
Shows (suc (suc zero)) r =
    (a : BatchAnswer) × (b : BatchAnswer) × (r.replay ≡ some a)
    × (r.batch ≡ some b)
    × IsPartial a
    × (a.replayed ≡ 3)
    × ((rest : List String) × (b.ids ≡ take 3 a.ids ++ rest))
Shows (suc (suc (suc zero))) r =
    (third : Evidence) × AreFinal r.initial
    × IsPair r.initial
    × (get_elem? r.initial 2 ≡ some third)
    × IsKeptHeld third
Shows (suc (suc (suc (suc zero)))) r = (id : String) × (r.corrected ≡ some id)
Shows (suc (suc (suc (suc (suc k))))) r =
    (rows : List Evidence) × (third : Evidence) × (fourth : Evidence) × (r.final ≡ some rows)
    × AreFinal rows
    × (get_elem? rows 2 ≡ some third)
    × (get_elem? rows 3 ≡ some fourth)
    × IsVerified rows third fourth

-- The first `k` stages have their evidence.
abbrev pub ShowsBelow : ℕ → Run → Type 0
ShowsBelow zero r = Unit
ShowsBelow (suc k) r = ShowsBelow k r × Shows k r

-- The flags of `n` stages of which the first `k` are verified.
abbrev pub marks : ℕ → ℕ → List Bool
marks zero k = []
marks (suc n) zero = false ∷ marks n zero
marks (suc n) (suc k) = true ∷ marks n k

-- Stages are verified in order, each with its evidence.
pub record IsProven (r : Run) : Type 0 where
  pub verified : ℕ
  pub at_most : verified ≤ 6
  pub in_order : r.done ≡ marks 6 verified
  pub evidence : ShowsBelow verified r

-- The same of an execution: one that does not throw has verified all six.
abbrev pub Proven : Outcome → Type 0
Proven (q, none) = (q.done ≡ marks 6 6) × ShowsBelow 6 q
Proven (q, some message) = IsProven q

-- What the work of stage `k` has to give.
abbrev pub Proves : ℕ → Outcome → Type 0
Proves k (q, none) = ShowsBelow k q × Shows k q
Proves k (q, some message) = ShowsBelow k q
