-- ===== src/Intake/Idempotent.antt =====
-- One idempotency key stands for one reservation, over everything that the intake page asks for.
use mathlib.Core.Path.{subst, subst⁻¹}
use afterglow.Prelude.{
  sym, ap, ◌∙◌, ◌≡◌, List, [], ◌∷◌, ◌++◌, String, Option, none, some, arith, Memᴰ,
}
use afterglow.Api.{ReservationInput}
use afterglow.Intake.{Panel, Task, Json}
use afterglow.Intake.Commands.{perform, resume}
use afterglow.Intake.Keys.{
  Request, asks, IsAsked, brings, Follows, no_request, repeated, first, perform-Follows,
  resume-Follows,
}
use afterglow.Intake.Steps.{World, Step, command, answer, Reach, here, next}

-- What a step starts, and the key that it may bring.
abbrev pub starts : {json : Json} {u v : World} → Step json u v → List Request
starts {json} (command w c ok) = asks (perform json c w.panel).1
starts {json} (answer w earlier later t reply e fit) = asks (resume json t reply w.panel).1

abbrev pub new_key : {json : Json} {u v : World} → Step json u v → Option String
new_key (command w c ok) = none
new_key (answer w earlier later t reply e fit) = brings t reply

-- All requests for a reservation of a run, the last first.
abbrev pub requests : {json : Json} {w v : World} → Reach json w v → List Request
requests here = []
requests (next r s) = starts s ++ requests r

-- `crypto.randomUUID` never gives a key that was used before.
abbrev pub IsFresh : {json : Json} {w v : World} → Reach json w v → Type 0
IsFresh here = Unit
IsFresh (next r s) =
    IsFresh r
    × ((k : String) (i : ReservationInput) → new_key s ≡ some k → Memᴰ (k, i) (requests r) → ⊥)

-- A key stands for one content.
abbrev pub IsIdempotent : List Request → Type 0
IsIdempotent h = (k : String) (i j : ReservationInput) → Memᴰ (k, i) h → Memᴰ (k, j) h → i ≡ j

known : (h : List Request) (x y : Request) → Memᴰ y h → Memᴰ x (y ∷ h) → Memᴰ x h
known h x y m (Memᴰ.head e) = subst⁻¹ (λ z. Memᴰ z h) e m
known h x y m (Memᴰ.tail n) = n

cons-IsIdempotent :
    (h : List Request) (k : String) (c : ReservationInput)
    → ((i : ReservationInput) → Memᴰ (k, i) h → ⊥)
    → IsIdempotent h
    → IsIdempotent ((k, c) ∷ h)
cons-IsIdempotent h k c new t l i j (Memᴰ.head e) (Memᴰ.head f) =
    ap (λ (x : Request). x.1) e ∙ sym (ap (λ (x : Request). x.1) f)
cons-IsIdempotent h k c new t l i j (Memᴰ.head e) (Memᴰ.tail n) =
    absurd (new j (subst (λ x. Memᴰ (x, j) h) (ap (λ (x : Request). x.0) e) n))
cons-IsIdempotent h k c new t l i j (Memᴰ.tail m) (Memᴰ.head f) =
    absurd (new i (subst (λ x. Memᴰ (x, i) h) (ap (λ (x : Request). x.0) f) m))
cons-IsIdempotent h k c new t l i j (Memᴰ.tail m) (Memᴰ.tail n) = t l i j m n

Follows-IsIdempotent :
    (h : List Request) (fresh : Option String) (o : Panel × List Task)
    → Follows h fresh o
    → ((k : String) (i : ReservationInput) → fresh ≡ some k → Memᴰ (k, i) h → ⊥)
    → IsIdempotent h
    → IsIdempotent (asks o.1 ++ h) × IsAsked (asks o.1 ++ h) o.0
Follows-IsIdempotent h fresh (q, ts) (no_request e a) new i = rw e (i, a)
Follows-IsIdempotent h fresh (q, ts) (repeated k c m a) new i = (
  λ l x y m1 m2. i l x y (known h (l, x) (k, c) m m1) (known h (l, y) (k, c) m m2),
  λ plan x n. Memᴰ.tail (a plan x n),
)
Follows-IsIdempotent h fresh (q, ts) (first k c e a) new i =
    (cons-IsIdempotent h k c (λ x m. new k x e m) i, a)

Step-IsIdempotent :
    {json : Json} {u v : World} (h : List Request) (s : Step json u v)
    → ((k : String) (i : ReservationInput) → new_key s ≡ some k → Memᴰ (k, i) h → ⊥)
    → IsIdempotent h × IsAsked h u.panel
    → IsIdempotent (starts s ++ h) × IsAsked (starts s ++ h) v.panel
Step-IsIdempotent {json} h (command w c ok) new (i, a) =
    Follows-IsIdempotent h none (perform json c w.panel) (perform-Follows h json c w.panel a) new i
Step-IsIdempotent {json} h (answer w earlier later t reply e fit) new (i, a) =
    Follows-IsIdempotent h (brings t reply) (resume json t reply w.panel)
      (resume-Follows h json t reply w.panel fit a) new i

Reach-IsAsked :
    (json : Json) (w : World) {v : World}
    → w.panel.plan ≡ none
    → (r : Reach json w v) → IsFresh r
    → IsIdempotent (requests r) × IsAsked (requests r) v.panel
Reach-IsAsked json w e here f = (λ k i j m n. elim m [ ], λ plan x n. ground arith)
Reach-IsAsked json w e (next r s) (f, new) =
    Step-IsIdempotent (requests r) s new (Reach-IsAsked json w e r f)

-- Whatever is clicked, answered or lost, from a page without a plan: any two requests for a
-- reservation with one idempotency key have one content, given that fresh keys are fresh. So a
-- service that keeps to the keys makes one hold for each, however often it is asked again.
pub Reach-IsIdempotent :
    (json : Json) (w : World) {v : World}
    → w.panel.plan ≡ none
    → (r : Reach json w v) → IsFresh r
    → IsIdempotent (requests r)
Reach-IsIdempotent json w e r f = (Reach-IsAsked json w e r f).0
