-- ===== src/Assurance/Current.antt =====
-- The report that is shown belongs to the campaign that is selected.
use afterglow.Prelude.{
  ◌≡◌, refl, ◌≢◌, ℕ, ◌+◌, ◌≤◌, true, false, List, [], ◌∷◌, String, none, some, arith, Memᴰ, All,
  eq_iff, Bool-cases, inl, inr, filter-mem, ==_iff, ◌==◌, not, str_eq,
}
use mathlib.Core.Bool.{false≢true}
use afterglow.Api.{Campaign}
use afterglow.Assurance.{
  begun, Report, Panel, Call, World, arrived, lost, with_fetch, select, render, without, Step,
  selected, refreshed, rendered, tick, answered, threw, Reach, here, next, start,
}

-- What holds of every call that is out, at a panel.
abbrev pub IsOut : Panel → Call → Type 0
IsOut p c = (c.ticket ≤ p.generation) × (c.ticket ≡ p.generation → c.campaign ≡ p.selected)

pub record IsCurrent (w : World) : Type 0 where
  pub belongs : (r : Report) → w.panel.report ≡ some r → r.campaign.id ≡ w.panel.selected
  pub reading_alone : w.panel.loading ≡ true → (w.panel.report ≡ none) × (w.panel.error ≡ "")
  pub awaited :
      w.panel.loading ≡ true → (c : Call) × Memᴰ c w.calls × (c.ticket ≡ w.panel.generation)
  pub calls_out : All (IsOut w.panel) w.calls
  pub unselected : w.panel.selected ≡ "" → (w.calls ≡ []) × (w.panel.report ≡ none)

abbrev HasOldTickets : World → Type 0
HasOldTickets w = All (λ c. c.ticket ≤ w.panel.generation) w.calls

old_tickets :
    (p : Panel) (calls : List Call) → All (IsOut p) calls → All (λ c. c.ticket ≤ p.generation) calls
old_tickets p [] h = tt
old_tickets p (c ∷ calls) ((k, _), h) = (k, old_tickets p calls h)

outdated :
    (p q : Panel) (calls : List Call)
    → q.generation ≡ p.generation + 1
    → All (λ c. c.ticket ≤ p.generation) calls
    → All (IsOut q) calls
outdated p q [] e h = tt
outdated p q (c ∷ calls) e (k, h) =
    ((omega arith, λ same. absurd (omega arith)), outdated p q calls e h)

-- A read that is started makes the world current, whatever was shown before.
with_fetch-IsCurrent :
    (w : World) → w.panel.selected ≢ "" → HasOldTickets w → IsCurrent (with_fetch w)
unfolding with_fetch
with_fetch-IsCurrent w s h =
    let chosen : str_eq w.panel.selected "" ≡ false = ground (arith, eq_iff w.panel.selected "") in
    rw chosen (record {
      belongs = λ r e. cc;
      reading_alone = λ l. (refl, refl);
      awaited = λ l. (_, Memᴰ.head refl, refl);
      calls_out = ((omega arith, λ same. refl), outdated w.panel (begun w.panel) w.calls refl h);
      unselected = λ e. absurd (s e);
    })

with_fetch_unselected : (w : World) → w.panel.selected ≡ "" → with_fetch w ≡ w
unfolding with_fetch
with_fetch_unselected w e = rw e

refetch-IsCurrent : (w : World) → IsCurrent w → IsCurrent (with_fetch w)
refetch-IsCurrent w c = elim (Bool-cases (str_eq w.panel.selected "")) [
  | inl empty ↦ rw (with_fetch_unselected w ((eq_iff _ _).0 empty)) c
  | inr chosen ↦
      with_fetch-IsCurrent w (λ e. ground (arith, eq_iff w.panel.selected ""))
        (old_tickets w.panel w.calls c.calls_out)
]

-- Removing the answered call from those that are out.
without-IsOut :
    (p : Panel) (ticket : ℕ) (calls : List Call)
    → All (IsOut p) calls
    → All (IsOut p) (without ticket calls)
unfolding without
without-IsOut p ticket [] h = tt
without-IsOut p ticket (c ∷ calls) (k, h) = elim (Bool-cases (not (c.ticket == ticket))) [
  | inl stays ↦ rw stays (k, without-IsOut p ticket calls h)
  | inr goes ↦ rw goes (without-IsOut p ticket calls h)
]

IsOut-call :
    (p : Panel) (c : Call) (calls : List Call) → Memᴰ c calls → All (IsOut p) calls → IsOut p c
IsOut-call p c [] m h = elim m [ ]
IsOut-call p c (d ∷ calls) (Memᴰ.head e) (k, h) = rw e k
IsOut-call p c (d ∷ calls) (Memᴰ.tail m) (k, h) = IsOut-call p c calls m h

still_awaited :
    (w : World) (ticket : ℕ)
    → (c : Call) × Memᴰ c w.calls × (c.ticket ≡ w.panel.generation)
    → ticket ≢ w.panel.generation
    → (c : Call) × Memᴰ c (without ticket w.calls) × (c.ticket ≡ w.panel.generation)
unfolding without
still_awaited w ticket (c, m, e) other =
    (c, filter-mem (λ c. not (c.ticket == ticket)) w.calls m (ground arith), e)

chosen_when_out : {w : World} {c : Call} → IsCurrent w → Memᴰ c w.calls → w.panel.selected ≢ ""
chosen_when_out {w} {c} current m empty = none_out (rw ((current.unselected empty).0) at m)
  where
    none_out : Memᴰ c [] → ⊥
    none_out m = elim m [ ]

answered-IsCurrent :
    (w : World) (c : Call) (r : Report)
    → Memᴰ c w.calls
    → r.campaign.id ≡ c.campaign
    → IsCurrent w
    → IsCurrent (record w { panel = arrived c.ticket r w.panel; calls = without c.ticket w.calls })
unfolding arrived
answered-IsCurrent w c r m honest i =
    let (old, mine) = IsOut-call w.panel c w.calls m i.calls_out in
    let chosen = chosen_when_out i m in
    elim (Bool-cases (c.ticket == w.panel.generation)) [
      | inl latest ↦
          let same : c.ticket ≡ w.panel.generation = (==_iff _ _).0 latest in
          rw latest (record {
            belongs = λ d e. ground (arith, mine same);
            reading_alone = λ l. cc;
            awaited = λ l. absurd (false≢true l);
            calls_out = without-IsOut w.panel c.ticket w.calls i.calls_out;
            unselected = λ e. absurd (chosen e);
          })
      | inr stale ↦ rw stale (record {
        belongs = i.belongs;
        reading_alone = i.reading_alone;
        awaited = λ l. still_awaited w c.ticket (i.awaited l) (λ e. ground arith);
        calls_out = without-IsOut w.panel c.ticket w.calls i.calls_out;
        unselected = λ e. absurd (chosen e);
      })
    ]

lost-IsCurrent :
    (w : World) (c : Call) (message : String)
    → Memᴰ c w.calls
    → IsCurrent w
    → IsCurrent
        (record w { panel = lost c.ticket message w.panel; calls = without c.ticket w.calls })
unfolding lost
lost-IsCurrent w c message m i =
    let chosen = chosen_when_out i m in
    elim (Bool-cases (c.ticket == w.panel.generation)) [
      | inl latest ↦ rw latest (record {
        belongs = i.belongs;
        reading_alone = λ l. absurd (false≢true l);
        awaited = λ l. absurd (false≢true l);
        calls_out = without-IsOut w.panel c.ticket w.calls i.calls_out;
        unselected = λ e. absurd (chosen e);
      })
      | inr stale ↦ rw stale (record {
        belongs = i.belongs;
        reading_alone = i.reading_alone;
        awaited = λ l. still_awaited w c.ticket (i.awaited l) (λ e. ground arith);
        calls_out = without-IsOut w.panel c.ticket w.calls i.calls_out;
        unselected = λ e. absurd (chosen e);
      })
    ]

render-IsCurrent :
    (w : World) (campaigns : List Campaign) → IsCurrent w → IsCurrent (render campaigns w)
unfolding render
render-IsCurrent w campaigns i = elim (Bool-cases (str_eq w.panel.selected "")) [
  | inl empty ↦
      let (no_calls, no_report) = i.unselected ((eq_iff _ _).0 empty) in
      rw empty (record {
        belongs = λ r e. cc;
        reading_alone = i.reading_alone;
        awaited = i.awaited;
        calls_out = rw no_calls tt;
        unselected = λ e. (no_calls, no_report);
      })
  | inr chosen ↦ rw chosen (record {
    belongs = i.belongs;
    reading_alone = i.reading_alone;
    awaited = i.awaited;
    calls_out = i.calls_out;
    unselected = i.unselected;
  })
]

Step-IsCurrent : {u v : World} → Step u v → IsCurrent u → IsCurrent v
Step-IsCurrent (selected w id named) i =
    unfold select in
    with_fetch-IsCurrent (record w { panel = record (w.panel) { selected = id } }) named
      (old_tickets w.panel w.calls i.calls_out)
Step-IsCurrent (refreshed w) i = refetch-IsCurrent w i
Step-IsCurrent (rendered w campaigns) i = render-IsCurrent w campaigns i
Step-IsCurrent (tick w n e) i =
    refetch-IsCurrent (record w { queued = n })
      (record {
        belongs = i.belongs;
        reading_alone = i.reading_alone;
        awaited = i.awaited;
        calls_out = i.calls_out;
        unselected = i.unselected;
      })
Step-IsCurrent (answered w c r m honest) i = answered-IsCurrent w c r m honest i
Step-IsCurrent (threw w c message m) i = lost-IsCurrent w c message m i

-- In every state that selections, refreshes, renders, microtasks, answers and failures in any
-- order lead to: a report that is held is the selected campaign's; while one is read, neither an
-- old report nor an old error is held, and the request with the latest ticket is still out.
pub Reach-IsCurrent : {v : World} → Reach start v → IsCurrent v
Reach-IsCurrent here = record {
  belongs = λ r e. cc;
  reading_alone = λ l. (refl, refl);
  awaited = λ l. absurd (false≢true l);
  calls_out = tt;
  unselected = λ e. (refl, refl);
}
Reach-IsCurrent (next r s) = Step-IsCurrent s (Reach-IsCurrent r)
