-- ===== src/Console/OneRun.antt =====
-- What the callers of `request` are given while a document lives comes from one run of the demo.
use afterglow.Prelude.{
  ℕ, Bool-cases, ◌≡◌, refl, Bool, true, false, List, [], ◌∷◌, String, Option, none, some, arith,
  inl, inr,
}
use afterglow.Session.{load, Tab, truthy, send_answer, on_storage, reload, save_run}
use afterglow.Session.Pinned.{send_answer-accepts, answer_keeps}
use afterglow.Console.Request.{Result, thrown}
use afterglow.Console.Client.{
  Document, Event, answered, storage, reset, save, happen, happen_all, Answer, request_answered,
  cleared_text,
}

-- The caller was given an answer of the generation `g`, or one that names none, or the error that
-- says that the page is about to reload.
pub data Belongs {A : Type 0} (g : String) : Option String × Result A → Type 0 where
  of_run : {s : Option String} {r : Result A} → s ≡ some g → Belongs g (s, r)
  unnamed : {s : Option String} {r : Result A} → truthy s ≡ false → Belongs g (s, r)
  refused : {s : Option String} {r : Result A} → r ≡ thrown cleared_text none → Belongs g (s, r)

pub data AllBelong {A : Type 0} (g : String) : List (Option String × Result A) → Type 0 where
  nothing : AllBelong g []
  also :
      {x : Option String × Result A} {l : List (Option String × Result A)}
      → Belongs g x
      → AllBelong g l
      → AllBelong g (x ∷ l)

data Sees {A : Type 0} (t : Tab) (l : List (Option String × Result A)) : Type 0 where
  known :
      (g : String)
      → truthy (some g) ≡ true
      → AllBelong g l
      → (t.invalidated ≡ false → t.generation ≡ some g)
      → Sees t l
  unknown : ((g : String) → AllBelong g l) → truthy t.generation ≡ false → Sees t l

-- What `send` does with the answer of a request that is not a reset.
abbrev sent : {A : Type 0} → Answer A → Tab → Tab × Bool
sent a t = send_answer false a.good a.generation t

accepted-lives :
    {A : Type 0} (a : Answer A) (t : Tab) → (sent a t).1 ≡ false → t.invalidated ≡ false
unfolding send_answer
accepted-lives a t h = ground arith

answered-lives :
    {A : Type 0} (a : Answer A) (t : Tab) → (sent a t).0.invalidated ≡ false → t.invalidated ≡ false
unfolding send_answer
answered-lives a t h = ground arith

reload-ends :
    (next : Option String) (shout : Bool) (t : Tab) → (reload next shout t).invalidated ≡ true
unfolding reload
reload-ends next shout t = ground arith

request_answered-tab :
    {A : Type 0} (failed : ℕ → String) (a : Answer A) (t : Tab)
    → (request_answered failed a t).0 ≡ (sent a t).0
unfolding request_answered
request_answered-tab failed a t = refl

request_answered-refuses :
    {A : Type 0} (failed : ℕ → String) (a : Answer A) (t : Tab)
    → (sent a t).1 ≡ true
    → (request_answered failed a t).1 ≡ thrown cleared_text none
unfolding request_answered
request_answered-refuses failed a t h = rw h refl

accepted-Belongs :
    {A : Type 0} (a : Answer A) (t : Tab) (r : Result A) (g : String)
    → truthy (some g) ≡ true
    → (t.invalidated ≡ false → t.generation ≡ some g)
    → (sent a t).1 ≡ false
    → Belongs g (a.generation, r)
accepted-Belongs a t r g k e h =
    elim (send_answer-accepts false a.good a.generation t g (e (accepted-lives a t h)) k h) [
      | inl same ↦ of_run same
      | inr (inl empty) ↦ unnamed empty
      | inr (inr (resets, good)) ↦ absurd ground arith
    ]

answered-Belongs :
    {A : Type 0} (failed : ℕ → String) (a : Answer A) (t : Tab) (g : String)
    → truthy (some g) ≡ true
    → (t.invalidated ≡ false → t.generation ≡ some g)
    → Belongs g (a.generation, (request_answered failed a t).1)
answered-Belongs failed a t g k e = elim (Bool-cases (sent a t).1) [
  | inl throws ↦ refused (request_answered-refuses failed a t throws)
  | inr passes ↦ accepted-Belongs a t (request_answered failed a t).1 g k e passes
]

-- The first answer that names a generation settles it.
learns :
    {A : Type 0} (a : Answer A) (t : Tab) (n : Option String) (r : Result A)
    (l : List (Option String × Result A))
    → (t.invalidated ≡ true → r ≡ thrown cleared_text none)
    → ((g : String) → AllBelong g l)
    → truthy t.generation ≡ false
    → Sees (send_answer false a.good n t).0 ((n, r) ∷ l)
unfolding send_answer
learns a t none r l h b e = unknown (λ g. also (unnamed refl) (b g)) (ground arith)
learns a t (some n) r l h b e = elim (Bool-cases t.invalidated) [
  | inl gone ↦ rw gone (unknown (λ g. also (refused (h gone)) (b g)) e)
  | inr lives ↦ elim (Bool-cases (truthy (some n))) [
    | inl named ↦ rw (lives, named, e) (known n named (also (of_run refl) (b n)) (λ h. refl))
    | inr empty ↦ rw (lives, empty) (unknown (λ g. also (unnamed empty) (b g)) e)
  ]
]

gone-refused :
    {A : Type 0} (failed : ℕ → String) (a : Answer A) (t : Tab)
    → t.invalidated ≡ true
    → (request_answered failed a t).1 ≡ thrown cleared_text none
unfolding request_answered send_answer
gone-refused failed a t h = rw h refl

answered-Sees :
    {A : Type 0} (failed : ℕ → String) (a : Answer A) (t : Tab)
    (l : List (Option String × Result A))
    → Sees t l
    → Sees (request_answered failed a t).0 ((a.generation, (request_answered failed a t).1) ∷ l)
answered-Sees failed a t l (known g k b e) = rw (request_answered-tab failed a t) (
    known g k (also (answered-Belongs failed a t g k e) b)
      (λ h. answer_keeps false a.good a.generation t g (e (answered-lives a t h)) k h))
answered-Sees failed a t l (unknown b e) =
    rw (request_answered-tab failed a t)
      (learns a t a.generation (request_answered failed a t).1 l (gone-refused failed a t) b e)

happen-Sees :
    {A : Type 0} (failed : ℕ → String) (e : Event A) (d : Document A)
    → Sees d.tab d.given
    → Sees (happen failed e d).tab (happen failed e d).given
unfolding happen on_storage reload save_run
happen-Sees failed (answered a) d s = answered-Sees failed a d.tab d.given s
happen-Sees failed (storage v) d (known g k b e) = known g k b (λ h. ground arith)
happen-Sees failed (storage v) d (unknown b e) = unknown b (ground arith)
happen-Sees failed (reset v) d (known g k b e) = known g k b (λ h. ground arith)
happen-Sees failed (reset v) d (unknown b e) =
    known "1" refl (b "1") (λ h. ground (arith, reload-ends (some v) true d.tab))
happen-Sees failed (save p) d (known g k b e) = known g k b (λ h. ground arith)
happen-Sees failed (save p) d (unknown b e) = unknown b (ground arith)

happen_all-Sees :
    {A : Type 0} (failed : ℕ → String) (es : List (Event A)) (d : Document A)
    → Sees d.tab d.given
    → Sees (happen_all failed es d).tab (happen_all failed es d).given
unfolding happen_all
happen_all-Sees failed [] d s = s
happen_all-Sees failed (e ∷ es) d s =
    happen_all-Sees failed es (happen failed e d) (happen-Sees failed e d s)

Sees-AllBelong :
    {A : Type 0} {t : Tab} {l : List (Option String × Result A)}
    → Sees t l
    → (g : String) × AllBelong g l
Sees-AllBelong (known g k b e) = (g, b)
Sees-AllBelong (unknown b e) = ("", b "")

-- A document that has just been loaded.
abbrev pub opened :
    {A : Type 0}
    → (writable shared : Bool) → (saved broadcast : Option String) → Bool
    → Bool
    → Document A
opened writable shared saved broadcast proof traffic = record {
  tab = load writable shared saved broadcast proof traffic;
  given = [];
}

opened-Sees : {A : Type 0} (t : Tab) (o : Option String) → t.generation ≡ o → Sees {A = A} t []
opened-Sees t none e = unknown (λ g. nothing) (rw e)
opened-Sees t (some n) e = elim (Bool-cases (truthy (some n))) [
  | inl named ↦ known n named nothing (λ h. e)
  | inr empty ↦ unknown (λ g. nothing) (rw e empty)
]

-- From any load of the page, whatever answers arrive and whatever broadcasts, resets and saves come
-- between them, there is one generation of the demo data to which every answer belongs whose value
-- or message the caller of `request` was given: an answer of another generation gives the error
-- that the data was cleared. Answers that name no generation are not told apart.
pub happen_all-AllBelong :
    {A : Type 0} (failed : ℕ → String) (es : List (Event A)) (writable shared : Bool)
    (saved broadcast : Option String) (proof traffic : Bool)
    → (g : String) × AllBelong g
        (happen_all failed es (opened writable shared saved broadcast proof traffic)).given
happen_all-AllBelong failed es w s g b p t =
    let d = opened w s g b p t in
    Sees-AllBelong (happen_all-Sees failed es d (opened-Sees d.tab d.tab.generation refl))
