-- ===== src/Proof/Resume.antt =====
-- A run that is resumed keeps its identities and what it has verified.
use afterglow.Prelude.{
  ◌≡◌, refl, ◌∙◌, ℕ, zero, suc, Bool, true, false, ◌||◌, not, List, [], ◌∷◌, ◌++◌, String, Option,
  none, some, arith, all, All, get_elem?, set, take, if◌then◌else◌, Option-cases, inl, inr,
}
use afterglow.Api.{Snapshot}
use afterglow.Console.Request.{Result, ok, thrown}
use afterglow.Proof.{
  Run, Outcome, Evidence, assert, awaited, element, and_then, check_batch, observe, Server, step,
}
use afterglow.Proof.Stages.{
  reserve_all, write_payload, reserve_stage, accept_stage, retry_stage, reconcile_stage,
  correct_stage, verify_stage, check_final, is_pair, is_kept_held, steps, works, stages, prepared,
  execute,
}

-- Every stage that was verified still is.
abbrev pub Keeps : List Bool → List Bool → Type 0
Keeps [] [] = Unit
Keeps (a ∷ as') (b ∷ bs) = ((not a || b) ≡ true) × Keeps as' bs
Keeps _ _ = ⊥

pub Keeps-refl : (flags : List Bool) → Keeps flags flags
Keeps-refl [] = tt
Keeps-refl (true ∷ flags) = (refl, Keeps-refl flags)
Keeps-refl (false ∷ flags) = (refl, Keeps-refl flags)

Keeps-trans : (a b c : List Bool) → Keeps a b → Keeps b c → Keeps a c
Keeps-trans [] [] [] h k = tt
Keeps-trans (true ∷ a) (true ∷ b) (true ∷ c) h k = (refl, Keeps-trans a b c h.1 k.1)
Keeps-trans (true ∷ a) (true ∷ b) (false ∷ c) h k = absurd (ground (arith, k.0))
Keeps-trans (true ∷ a) (false ∷ b) (x ∷ c) h k = absurd (ground (arith, h.0))
Keeps-trans (false ∷ a) (x ∷ b) (y ∷ c) h k = (refl, Keeps-trans a b c h.1 k.1)
Keeps-trans [] [] (x ∷ c) h k = elim k [ ]
Keeps-trans [] (x ∷ b) c h k = elim h [ ]
Keeps-trans (false ∷ a) [] c h k = elim h [ ]
Keeps-trans (false ∷ a) (x ∷ b) [] h k = elim k [ ]
Keeps-trans (true ∷ a) [] c h k = elim h [ ]
Keeps-trans (true ∷ a) (false ∷ b) [] h k = elim k [ ]
Keeps-trans (true ∷ a) (true ∷ b) [] h k = elim k [ ]

Keeps-set : (i : ℕ) (flags : List Bool) → Keeps flags (set flags i true)
Keeps-set i [] = tt
Keeps-set zero (true ∷ flags) = (refl, Keeps-refl flags)
Keeps-set zero (false ∷ flags) = (refl, Keeps-refl flags)
Keeps-set (suc i) (true ∷ flags) = (refl, Keeps-set i flags)
Keeps-set (suc i) (false ∷ flags) = (refl, Keeps-set i flags)

-- The work of a stage touches neither the plan nor the flags.
abbrev pub IsSame : Run → Outcome → Type 0
IsSame r o = (o.0.plan ≡ r.plan) × (o.0.done ≡ r.done)

awaited-IsSame {ℓ} :
    {A : Type ℓ} (x : Result A) (r q : Run) (rest : A → Outcome)
    → IsSame r (q, none)
    → ((a : A) → IsSame r (rest a))
    → IsSame r (awaited x q rest)
awaited-IsSame (ok a) r q rest same h = h a
awaited-IsSame (thrown message status) r q rest same h = same

element-IsSame {ℓ} :
    {A : Type ℓ} (x : Option A) (r q : Run) (rest : A → Outcome)
    → IsSame r (q, none)
    → ((a : A) → IsSame r (rest a))
    → IsSame r (element x q rest)
element-IsSame none r q rest same h = same
element-IsSame (some a) r q rest same h = h a

and_then-IsSame :
    (o : Outcome) (r : Run) (rest : Run → Outcome)
    → IsSame r o
    → ((q : Run) → IsSame q (rest q))
    → IsSame r (and_then o rest)
and_then-IsSame (q, none) r rest same h = ((h q).0 ∙ same.0, (h q).1 ∙ same.1)
and_then-IsSame (q, some message) r rest same h = same

assert-IsSame :
    (b : Bool) (text : String) (r q : Run) → IsSame r (q, none) → IsSame r (assert b text q)
assert-IsSame true text r q same = same
assert-IsSame false text r q same = same

branch-IsSame :
    (b : Bool) (r : Run) (x y : Outcome) → IsSame r x → IsSame r y → IsSame r (if b then x else y)
branch-IsSame true r x y h k = h
branch-IsSame false r x y h k = k

reserve_all-IsSame :
    (server : Server) (keys : List String) (r : Run) → IsSame r (reserve_all server keys r)
unfolding reserve_all
reserve_all-IsSame server [] r = (refl, refl)
reserve_all-IsSame server (key ∷ keys) r =
    awaited-IsSame (server.reserve key _) r r _ (refl, refl)
      (λ hold. reserve_all-IsSame server keys (record r { holds = r.holds ++ (hold ∷ []) }))

write_payload-IsSame : (r : Run) → IsSame r (write_payload r)
unfolding write_payload
write_payload-IsSame r =
    element-IsSame (get_elem? r.holds 0) r r _ (refl, refl)
      (λ a.
        element-IsSame (get_elem? r.holds 1) r r _ (refl, refl)
          (λ b.
            element-IsSame (get_elem? r.plan.events 0) r r _ (refl, refl)
              (λ e0.
                element-IsSame (get_elem? r.plan.events 1) r r _ (refl, refl)
                  (λ e1.
                    element-IsSame (get_elem? r.plan.events 2) r r _ (refl, refl)
                      (λ e2.
                        element-IsSame (get_elem? r.plan.events 3) r r _ (refl, refl)
                          (λ e3. (refl, refl)))))))

pub reserve_stage-IsSame : (server : Server) (r : Run) → IsSame r (reserve_stage server r)
unfolding reserve_stage
reserve_stage-IsSame server r =
    and_then-IsSame (reserve_all server r.plan.keys (record r { holds = [] })) r write_payload
      (reserve_all-IsSame server r.plan.keys (record r { holds = [] })) write_payload-IsSame

pub accept_stage-IsSame : (server : Server) (r : Run) → IsSame r (accept_stage server r)
unfolding accept_stage
accept_stage-IsSame server r =
    awaited-IsSame (check_batch (server.first_batch r.payload)) r r _ (refl, refl)
      (λ a. (refl, refl))

pub retry_stage-IsSame : (server : Server) (r : Run) → IsSame r (retry_stage server r)
unfolding retry_stage
retry_stage-IsSame server r =
    awaited-IsSame (check_batch (server.second_batch r.payload)) r r _ (refl, refl)
      (λ a.
        element-IsSame r.batch r (record r { replay = some a }) _ (refl, refl)
          (λ first. assert-IsSame _ _ r (record r { replay = some a }) (refl, refl)))

pub reconcile_stage-IsSame : (server : Server) (r : Run) → IsSame r (reconcile_stage server r)
unfolding reconcile_stage
reconcile_stage-IsSame server r =
    element-IsSame r.batch r r _ (refl, refl)
      (λ b.
        awaited-IsSame (observe (server.first_polls (take 3 b.ids))) r r _ (refl, refl)
          (λ rows.
            branch-IsSame (not (is_pair rows)) r _ _ (refl, refl)
              (element-IsSame (get_elem? rows 2) r (record r { initial = rows }) _ (refl, refl)
                (λ third.
                  assert-IsSame (is_kept_held third) _ r (record r { initial = rows })
                    (refl, refl)))))

pub correct_stage-IsSame : (server : Server) (r : Run) → IsSame r (correct_stage server r)
unfolding correct_stage
correct_stage-IsSame server r =
    awaited-IsSame (server.correct r.correction) r r _ (refl, refl) (λ id. (refl, refl))

check_final-IsSame :
    (rows : List Evidence) (r q : Run) → IsSame r (q, none) → IsSame r (check_final rows q)
unfolding check_final
check_final-IsSame rows r q same =
    element-IsSame (get_elem? rows 3) r q _ same
      (λ fourth. element-IsSame (get_elem? rows 2) r q _ same (λ third. same))

pub verify_stage-IsSame : (server : Server) (r : Run) → IsSame r (verify_stage server r)
unfolding verify_stage
verify_stage-IsSame server r =
    element-IsSame r.batch r r _ (refl, refl)
      (λ b.
        element-IsSame r.corrected r r _ (refl, refl)
          (λ id.
            awaited-IsSame (observe (server.second_polls (take 3 b.ids ++ (id ∷ [])))) r r _
              (refl, refl)
              (λ rows. check_final-IsSame rows r (record r { final = some rows }) (refl, refl))))

-- What a resumed run owes to the run before.
pub record IsResumed (r q : Run) : Type 0 where
  pub same_plan : q.plan ≡ r.plan
  pub still_verified : Keeps r.done q.done

marked-IsResumed :
    (i : ℕ) (o : Outcome) (r q : Run)
    → IsSame q o
    → IsResumed r q
    → IsResumed r (and_then o (λ x. (record x { done = set x.done i true }, none))).0
marked-IsResumed i (x, none) r q same f = record {
  same_plan = same.0 ∙ f.same_plan;
  still_verified =
      Keeps-trans r.done x.done (set x.done i true) (rw same.1 f.still_verified)
        (Keeps-set i x.done);
}
marked-IsResumed i (x, some message) r q same f = record {
  same_plan = same.0 ∙ f.same_plan;
  still_verified = rw same.1 f.still_verified;
}

pub step-IsResumed :
    (i : ℕ) (work : Run → Outcome) (r q : Run)
    → ((x : Run) → IsSame x (work x))
    → IsResumed r q
    → IsResumed r (step i work q).0
unfolding step
step-IsResumed i work r q h f =
    let worked =
      marked-IsResumed i (work (record q { current = i })) r q (h (record q { current = i })) f in
    elim (Option-cases (get_elem? q.done i)) [
      | inl none' ↦ rw (none', step) worked
      | inr (true, e) ↦ rw (e, step) f
      | inr (false, e) ↦ rw (e, step) worked
    ]

and_then-IsResumed :
    (o : Outcome) (r : Run) (rest : Run → Outcome)
    → IsResumed r o.0
    → ((q : Run) → IsResumed r q → IsResumed r (rest q).0)
    → IsResumed r (and_then o rest).0
and_then-IsResumed (q, none) r rest f h = h q f
and_then-IsResumed (q, some message) r rest f h = f

steps-IsResumed :
    (works : List (ℕ × (Run → Outcome))) (r q : Run)
    → All (λ w. (x : Run) → IsSame x (w.1 x)) works
    → IsResumed r q
    → IsResumed r (steps works q).0
unfolding steps
steps-IsResumed [] r q h f = f
steps-IsResumed ((i, work) ∷ works) r q (h, hs) f =
    and_then-IsResumed (step i work q) r (λ x. steps works x) (step-IsResumed i work r q h f)
      (λ x g. steps-IsResumed works r x hs g)

pub stages-IsResumed : (server : Server) (r : Run) → IsResumed r (stages server r).0
unfolding stages
stages-IsResumed server r =
    steps-IsResumed (works server) r r
      (
        reserve_stage-IsSame server,
        (
          accept_stage-IsSame server,
          (
            retry_stage-IsSame server,
            (
              reconcile_stage-IsSame server,
              (correct_stage-IsSame server, (verify_stage-IsSame server, tt)),
            ),
          ),
        ),
      )
      (record { same_plan = refl; still_verified = Keeps-refl r.done })

pub prepared_unfinished :
    (fresh : Result Snapshot) (wanted : String) (uuid : ℕ → String) (r : Run)
    → all (λ d. d) r.done ≡ false
    → prepared fresh wanted uuid (some r) ≡ ok r
unfolding prepared
prepared_unfinished fresh wanted uuid r unfinished = rw unfinished refl

-- An unfinished run that is executed again keeps its campaign, screen, keys and events, and every
-- stage that was verified, whatever the service answers and wherever the execution stops.
pub execute-IsResumed :
    (server : Server) (fresh : Result Snapshot) (wanted : String) (uuid : ℕ → String) (r : Run)
    → all (λ d. d) r.done ≡ false
    → (q : Run) × ((execute server fresh wanted uuid (some r)).0 ≡ some q) × IsResumed r q
unfolding execute
execute-IsResumed server fresh wanted uuid r unfinished =
    rw (prepared_unfinished fresh wanted uuid r unfinished, execute)
      ((stages server r).0, refl, stages-IsResumed server r)
