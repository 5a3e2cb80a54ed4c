-- ===== src/Proof/Verified.antt =====
-- Every stage leaves the earlier evidence alone and records its own.
use afterglow.Prelude.{
  ◌≡◌, refl, Bool, true, false, not, ◌&&◌, List, [], ◌∷◌, ◌++◌, String, Option, none, some, arith,
  get_elem?, take, ◌==◌, if◌then◌else◌, Option-cases, Bool-cases, inl, inr,
}
use afterglow.Console.Request.{Result, ok, thrown}
use afterglow.Proof.{
  BatchAnswer, Evidence, Run, Outcome, assert, awaited, element, and_then, check_batch, is_terminal,
  observe_from, observe, Polls, Server,
}
use afterglow.Proof.Stages.{
  reserve_all, write_payload, reserve_stage, accept_stage, retry_stage, reconcile_stage,
  correct_stage, verify_stage, check_final, is_pair, is_kept_held, objection, same_ids,
}
use afterglow.Proof.Outcomes.{
  is_terminal-AreFinal, is_pair-IsPair, is_kept_held-IsKeptHeld, objection-IsVerified,
  same_ids-append,
}
use afterglow.Proof.OnRecord.{IsPartial, ShowsBelow, Proves}

-- What holds after a piece of code holds after each of its ends.
awaited-ends {ℓ κ} :
    {A : Type ℓ} (Q : Outcome → Type κ) (x : Result A) (q : Run) (rest : A → Outcome)
    → ((message : String) → Q (q, some message))
    → ((a : A) → x ≡ ok a → Q (rest a))
    → Q (awaited x q rest)
awaited-ends Q (ok a) q rest failed h = h a refl
awaited-ends Q (thrown message status) q rest failed h = failed message

element-ends {ℓ κ} :
    {A : Type ℓ} (Q : Outcome → Type κ) (x : Option A) (q : Run) (rest : A → Outcome)
    → ((message : String) → Q (q, some message))
    → ((a : A) → x ≡ some a → Q (rest a))
    → Q (element x q rest)
element-ends Q none q rest failed h = failed _
element-ends Q (some a) q rest failed h = h a refl

assert-ends {κ} :
    (Q : Outcome → Type κ) (b : Bool) (text : String) (q : Run)
    → ((message : String) → Q (q, some message))
    → (b ≡ true → Q (q, none))
    → Q (assert b text q)
assert-ends Q true text q failed h = h refl
assert-ends Q false text q failed h = failed text

check_batch-IsPartial :
    (x : Result BatchAnswer) (a : BatchAnswer) → check_batch x ≡ ok a → IsPartial a
unfolding check_batch
check_batch-IsPartial (thrown message status) a e = absurd (ground arith)
check_batch-IsPartial (ok b) a e = elim (Option-cases (get_elem? b.statuses 3)) [
  | inl missing ↦ absurd (ground arith)
  | inr (s, fourth) ↦ record {
    multi_status = ground arith;
    three_accepted = ground arith;
    one_rejected = ground arith;
    fourth_malformed = ground arith;
  }
]

observe_from-is_terminal :
    (polls : List (Result (List Evidence))) (late : Result (List Evidence)) (rows : List Evidence)
    → observe_from polls late ≡ ok rows
    → is_terminal rows ≡ true
unfolding observe_from
observe_from-is_terminal [] (thrown message status) rows e = absurd (ground arith)
observe_from-is_terminal [] (ok x) rows e = ground arith
observe_from-is_terminal (thrown message status ∷ polls) late rows e = absurd (ground arith)
observe_from-is_terminal (ok x ∷ polls) late rows e =
    ground (arith, observe_from-is_terminal polls late rows)

observe-is_terminal :
    (p : Polls) (rows : List Evidence) → observe p ≡ ok rows → is_terminal rows ≡ true
unfolding observe
observe-is_terminal p rows e = observe_from-is_terminal p.timely p.late rows e

write_payload-Proves : (r : Run) → Proves 0 (write_payload r)
unfolding write_payload
write_payload-Proves r =
    element-ends (Proves 0) (get_elem? r.holds 0) r _ (λ m. tt)
      (λ a p.
        element-ends (Proves 0) (get_elem? r.holds 1) r _ (λ m. tt)
          (λ b q.
            element-ends (Proves 0) (get_elem? r.plan.events 0) r _ (λ m. tt)
              (λ e0 h0.
                element-ends (Proves 0) (get_elem? r.plan.events 1) r _ (λ m. tt)
                  (λ e1 h1.
                    element-ends (Proves 0) (get_elem? r.plan.events 2) r _ (λ m. tt)
                      (λ e2 h2.
                        element-ends (Proves 0) (get_elem? r.plan.events 3) r _ (λ m. tt)
                          (λ e3 h3. (
                            tt,
                            record {
                              first = a;
                              second = b;
                              e0 = e0;
                              e1 = e1;
                              e2 = e2;
                              e3 = e3;
                              held_first = p;
                              held_second = q;
                              planned0 = h0;
                              planned1 = h1;
                              planned2 = h2;
                              planned3 = h3;
                              written = refl;
                              corrected = refl;
                            },
                          )))))))

and_then-Proves : (o : Outcome) → Proves 0 (and_then o write_payload)
and_then-Proves (r, none) = write_payload-Proves r
and_then-Proves (r, some message) = tt

pub reserve_stage-Proves :
    (server : Server) (r : Run) → ShowsBelow 0 r → Proves 0 (reserve_stage server r)
unfolding reserve_stage
reserve_stage-Proves server r below =
    and_then-Proves (reserve_all server r.plan.keys (record r { holds = [] }))

pub accept_stage-Proves :
    (server : Server) (r : Run) → ShowsBelow 1 r → Proves 1 (accept_stage server r)
unfolding accept_stage
accept_stage-Proves server r below =
    awaited-ends (Proves 1) (check_batch (server.first_batch r.payload)) r _ (λ m. below)
      (λ a e. (below, (a, refl, check_batch-IsPartial (server.first_batch r.payload) a e)))

pub retry_stage-Proves :
    (server : Server) (r : Run) → ShowsBelow 2 r → Proves 2 (retry_stage server r)
unfolding retry_stage
retry_stage-Proves server r below =
    awaited-ends (Proves 2) (check_batch (server.second_batch r.payload)) r _ (λ m. below)
      (λ a e.
        let q = record r { replay = some a } in
        element-ends (Proves 2) r.batch q _ (λ m. below)
          (λ b f.
            assert-ends (Proves 2) (a.replayed == 3 && same_ids (take 3 a.ids) b.ids) _ q
              (λ m. below)
              (λ h. (
                below,
                (
                  a,
                  b,
                  refl,
                  f,
                  check_batch-IsPartial (server.second_batch r.payload) a e,
                  ground arith,
                  same_ids-append (take 3 a.ids) b.ids (ground arith),
                ),
              ))))

reconciled :
    (rows : List Evidence) (r : Run)
    → ShowsBelow 3 r
    → is_terminal rows ≡ true
    → let q = record r { initial = rows } in
      Proves 3 (
        if not (is_pair rows)
        then (q, some "Expected one settlement and one duplicate for play A.")
        else element (get_elem? rows 2) q (λ third.
          assert (is_kept_held third) "Unsupported evidence did not preserve the held budget." q))
reconciled rows r below t = elim (Bool-cases (is_pair rows)) [
  | inl pair ↦
      let q = record r { initial = rows } in
      rw pair (
        element-ends (Proves 3) (get_elem? rows 2) q _ (λ m. below)
          (λ third h.
            assert-ends (Proves 3) (is_kept_held third) _ q (λ m. below)
              (λ k. (
                below,
                (
                  third,
                  is_terminal-AreFinal rows t,
                  is_pair-IsPair rows pair,
                  h,
                  is_kept_held-IsKeptHeld third k,
                ),
              ))))
  | inr other ↦ rw other below
]

objected :
    (text : Option String) (rows : List Evidence) (third fourth : Evidence) (q : Run)
    → objection rows third fourth ≡ text
    → ShowsBelow 5 q
    → q.final ≡ some rows
    → is_terminal rows ≡ true
    → get_elem? rows 2 ≡ some third
    → get_elem? rows 3 ≡ some fourth
    → Proves 5 (q, text)
objected none rows third fourth q none' below e t h f = (
  below,
  (
    rows,
    third,
    fourth,
    e,
    is_terminal-AreFinal rows t,
    h,
    f,
    objection-IsVerified rows third fourth none',
  ),
)
objected (some m) rows third fourth q e' below e t h f = below

pub reconcile_stage-Proves :
    (server : Server) (r : Run) → ShowsBelow 3 r → Proves 3 (reconcile_stage server r)
unfolding reconcile_stage
reconcile_stage-Proves server r below =
    element-ends (Proves 3) r.batch r _ (λ m. below)
      (λ b f.
        let polls = server.first_polls (take 3 b.ids) in
        awaited-ends (Proves 3) (observe polls) r _ (λ m. below)
          (λ rows e. reconciled rows r below (observe-is_terminal polls rows e)))

pub correct_stage-Proves :
    (server : Server) (r : Run) → ShowsBelow 4 r → Proves 4 (correct_stage server r)
unfolding correct_stage
correct_stage-Proves server r below =
    awaited-ends (Proves 4) (server.correct r.correction) r _ (λ m. below)
      (λ id e. (below, (id, refl)))

check_final-Proves :
    (rows : List Evidence) (q : Run)
    → ShowsBelow 5 q
    → q.final ≡ some rows
    → is_terminal rows ≡ true
    → Proves 5 (check_final rows q)
unfolding check_final
check_final-Proves rows q below e t =
    element-ends (Proves 5) (get_elem? rows 3) q _ (λ m. below)
      (λ fourth f.
        element-ends (Proves 5) (get_elem? rows 2) q _ (λ m. below)
          (λ third h.
            objected (objection rows third fourth) rows third fourth q refl below e t h f))

pub verify_stage-Proves :
    (server : Server) (r : Run) → ShowsBelow 5 r → Proves 5 (verify_stage server r)
unfolding verify_stage
verify_stage-Proves server r below =
    element-ends (Proves 5) r.batch r _ (λ m. below)
      (λ b f.
        element-ends (Proves 5) r.corrected r _ (λ m. below)
          (λ id g.
            let polls = server.second_polls (take 3 b.ids ++ (id ∷ [])) in
            awaited-ends (Proves 5) (observe polls) r _ (λ m. below)
              (λ rows e.
                check_final-Proves rows (record r { final = some rows }) below refl
                  (observe-is_terminal polls rows e))))
