-- ===== src/Session/Pinned.antt =====
-- A tab works on one generation of the demo data until it reloads.
use afterglow.Prelude.{
  Bool-cases, if◌then◌else◌, ◌≡◌, refl, Bool, true, false, [], String, Option, none, some, arith,
  eq_iff, Memᴰ, ◌⊎◌, inl, inr, ap, ◌∙◌,
}
use afterglow.Session.{
  load, Tab, World, Call, Step, send, answer, storage, reset, save, Reach, here, next, truthy,
  send_answer, on_storage, save_run,
}

-- Nothing happens to an invalidated tab.
Step-frozen : {u v : World} → Step u v → u.tab.invalidated ≡ true → v.tab ≡ u.tab
unfolding send_answer on_storage save_run
Step-frozen (send w r p) h = refl
Step-frozen (answer w c ok n m) h = ground arith
Step-frozen (storage w n) h = ground arith
Step-frozen (reset w n p) h = ground arith
Step-frozen (save w p) h = ground arith

-- What holds of a tab at every moment.
pub record IsSound (t : Tab) : Type 0 where
  pub one_reload : t.reloads ≡ (if t.invalidated then 1 else 0)
  pub cleared :
      t.invalidated ≡ true
      → t.writable ≡ true
      → (t.proof_saved ≡ false) × (t.traffic_saved ≡ false) × (t.saved_generation ≡ t.generation)

Step-IsSound : {u v : World} → Step u v → IsSound u.tab → IsSound v.tab
unfolding send_answer on_storage save_run
Step-IsSound (send w r p) s = s
Step-IsSound (answer w c ok n m) s = ground arith
Step-IsSound (storage w n) s = ground arith
Step-IsSound (reset w n p) s = ground arith
Step-IsSound (save w p) s = ground arith

pub answer_keeps :
    (resetting ok : Bool) (next : Option String) (t : Tab) (g : String)
    → t.generation ≡ some g
    → truthy (some g) ≡ true
    → (send_answer resetting ok next t).0.invalidated ≡ false
    → (send_answer resetting ok next t).0.generation ≡ some g
unfolding send_answer
answer_keeps resetting ok none t g e k h = ground arith
answer_keeps resetting ok (some n) t g e k h = ground (arith, eq_iff g n)

Step-keeps :
    {u v : World} (g : String)
    → Step u v
    → u.tab.generation ≡ some g
    → truthy (some g) ≡ true
    → v.tab.invalidated ≡ false
    → v.tab.generation ≡ some g
unfolding on_storage save_run
Step-keeps g (send w r p) e k h = e
Step-keeps g (answer w c ok n m) e k h = answer_keeps c.resetting ok n w.tab g e k h
Step-keeps g (storage w n) e k h = ground arith
Step-keeps g (reset w n p) e k h = ground arith
Step-keeps g (save w p) e k h = ground arith

active_before : {u v : World} → Step u v → v.tab.invalidated ≡ false → u.tab.invalidated ≡ false
active_before s h = ground (arith, Step-frozen s)

Reach-keeps :
    {w v : World} (g : String)
    → Reach w v
    → w.tab.generation ≡ some g
    → truthy (some g) ≡ true
    → v.tab.invalidated ≡ false
    → v.tab.generation ≡ some g
Reach-keeps g here e k h = e
Reach-keeps g (next r s) e k h = Step-keeps g s (Reach-keeps g r e k (active_before s h)) k h

Step-calls :
    {u v : World} (g : String) (c : Call)
    → Step u v
    → (u.tab.invalidated ≡ false → u.tab.generation ≡ some g)
    → truthy (some g) ≡ true
    → Memᴰ c v.calls
    → Memᴰ c u.calls ⊎ (c.sent ≡ some g)
Step-calls g c (send w r p) e k (Memᴰ.head same) =
    let known : w.tab.generation ≡ some g = e p in inr (rw (same, known) (rw k))
Step-calls g c (send w r p) e k (Memᴰ.tail m) = inl m
Step-calls g c (answer w d ok n l) e k m = inl m
Step-calls g c (storage w n) e k m = inl m
Step-calls g c (reset w n p) e k m = inl m
Step-calls g c (save w p) e k m = inl m

Reach-calls :
    {w v : World} (g : String) (c : Call)
    → Reach w v
    → w.tab.generation ≡ some g
    → truthy (some g) ≡ true
    → Memᴰ c v.calls
    → Memᴰ c w.calls ⊎ (c.sent ≡ some g)
Reach-calls g c here e k m = inl m
Reach-calls g c (next r s) e k m = elim (Step-calls g c s (λ h. Reach-keeps g r e k h) k m) [
  | inl earlier ↦ Reach-calls g c r e k earlier
  | inr carried ↦ inr carried
]

-- Once a tab knows its generation, then through every run of requests, answers, broadcasts, resets
-- and saves it keeps it until it is invalidated, and each request sent meanwhile carries it.
pub Reach-pinned :
    {w v : World} (g : String)
    → Reach w v
    → w.tab.generation ≡ some g
    → truthy (some g) ≡ true
    → ((v.tab.invalidated ≡ true) ⊎ (v.tab.generation ≡ some g))
      × ((c : Call) → Memᴰ c v.calls → Memᴰ c w.calls ⊎ (c.sent ≡ some g))
Reach-pinned {v = v} g r e k = (
  elim (Bool-cases v.tab.invalidated) [
    | inl gone ↦ inl gone
    | inr lives ↦ inr (Reach-keeps g r e k lives)
  ],
  λ c m. Reach-calls g c r e k m,
)

-- An answer with another generation than the tab's is never handed to the caller, unless it is the
-- success of a reset: what `send` returns without throwing belongs to the tab's generation or
-- names none.
pub send_answer-accepts :
    (resetting ok : Bool) (next : Option String) (t : Tab) (g : String)
    → t.generation ≡ some g
    → truthy (some g) ≡ true
    → (send_answer resetting ok next t).1 ≡ false
    → (next ≡ some g) ⊎ (truthy next ≡ false) ⊎ ((resetting ≡ true) × (ok ≡ true))
unfolding send_answer
send_answer-accepts resetting ok none t g e k h = inr (inl refl)
send_answer-accepts resetting ok (some n) t g e k h = ground (arith, eq_iff g n)

Reach-IsSound : {w v : World} → Reach w v → IsSound w.tab → IsSound v.tab
Reach-IsSound here s = s
Reach-IsSound (next r st) s = Step-IsSound st (Reach-IsSound r s)

Reach-frozen : {w v : World} → Reach w v → w.tab.invalidated ≡ true → v.tab ≡ w.tab
Reach-frozen here h = refl
Reach-frozen (next r s) h =
    let same = Reach-frozen r h in Step-frozen s (ap Tab.invalidated same ∙ h) ∙ same

-- A loaded page that nothing was sent from.
abbrev pub fresh : (writable shared : Bool) → Option String → Option String → Bool → Bool → World
fresh writable shared saved broadcast proof traffic = record {
  tab = load writable shared saved broadcast proof traffic;
  calls = [];
}

-- The generation that the cause of a step names.
abbrev pub named : {u v : World} → Step u v → Option String
named (send w r p) = none
named (answer w c ok n m) = n
named (storage w n) = n
named (reset w n p) = some n
named (save w p) = none

-- A tab that a step invalidates takes the generation that the step's cause names.
Step-named :
    {u v : World} (s : Step u v)
    → u.tab.invalidated ≡ false
    → v.tab.invalidated ≡ true
    → (v.tab.generation ≡ named s)
      × (truthy (named s) ≡ true)
      × (v.tab.saved_generation ≡ (if u.tab.writable then named s else u.tab.saved_generation))
unfolding send_answer on_storage save_run
Step-named (send w r p) h k = ground arith
Step-named (answer w c ok n m) h k = ground arith
Step-named (storage w n) h k = ground arith
Step-named (reset w n p) h k = ground arith
Step-named (save w p) h k = ground arith

-- How a tab comes through one more step: it was gone, it lives on, or it is invalidated with the
-- generation that the cause of the step names, which it saves where its storage works.
abbrev pub ComesThrough : {u v : World} → Step u v → Type 0
ComesThrough {u} {v} s =
    (u.tab.invalidated ≡ true)
    ⊎ (v.tab.invalidated ≡ false)
    ⊎ ((v.tab.generation ≡ named s)
        × (truthy (named s) ≡ true)
        × (v.tab.saved_generation ≡ (if u.tab.writable then named s else u.tab.saved_generation)))

Step-ComesThrough : {u v : World} (s : Step u v) → ComesThrough s
Step-ComesThrough {u} {v} s = elim (Bool-cases u.tab.invalidated) [
  | inl gone ↦ inl gone
  | inr lives ↦ elim (Bool-cases v.tab.invalidated) [
    | inl ends ↦ inr (inr (Step-named s lives ends))
    | inr stays ↦ inr (inl stays)
  ]
]

-- From any load of the page: the document reloads at most once, exactly when it is invalidated;
-- where storage works, no saved run is left then and the saved generation is the tab's; an
-- invalidated tab never changes again, whatever answers, broadcasts or saves still arrive; and the
-- step that invalidates a tab gives it the generation that the answer, the broadcast or the reset
-- names, which is also saved where storage works.
pub load-IsSound :
    (writable shared : Bool) (saved broadcast : Option String) (proof traffic : Bool)
    {v u x : World}
    → Reach (fresh writable shared saved broadcast proof traffic) v
    → Reach v u
    → (s : Step v x)
    → IsSound v.tab × ((v.tab.invalidated ≡ false) ⊎ (u.tab ≡ v.tab)) × ComesThrough s
unfolding load
load-IsSound writable shared saved broadcast proof traffic {v} r q s = (
  Reach-IsSound r (ground arith),
  elim (Bool-cases v.tab.invalidated) [
    | inl gone ↦ inr (Reach-frozen q gone)
    | inr lives ↦ inl lives
  ],
  Step-ComesThrough s,
)
