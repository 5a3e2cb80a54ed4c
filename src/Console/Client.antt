-- ===== src/Console/Client.antt =====
-- `request` of internal/console/web/app.js on top of `demoSession.fetch` of
-- internal/console/web/demo-reset.js: what the pages get to see during the life of a document.
use afterglow.Prelude.{
  ℕ, Bool, true, false, List, [], ◌∷◌, String, Option, none, some, if◌then◌else◌,
}
use afterglow.Session.{Tab, send_answer, on_storage, reload, save_run}
use afterglow.Console.Request.{Result, thrown, Body, read_answer}

-- An answer of the service: its success, status, body and generation header.
pub record Answer {ℓ} (A : Type ℓ) : Type ℓ where
  pub good : Bool
  pub status : ℕ
  pub body : Option (Body A)
  pub generation : Option String

abbrev pub cleared_text : String
cleared_text = "Demo data was cleared. Reloading this page."

-- The rest of `request` once the service has answered.
unfoldable pub request_answered {ℓ} :
    {A : Type ℓ} → (failed : ℕ → String) → Answer A → Tab → Tab × Result A
unfolding send_answer
request_answered failed a t =
    let (t', throws) = send_answer false a.good a.generation t in
    (t', if throws then thrown cleared_text none else read_answer failed a.good a.status a.body)

-- A document, and what the callers of `request` were given, each with the generation of the answer.
pub record Document (A : Type 0) : Type 0 where
  pub tab : Tab
  pub given : List (Option String × Result A)

pub data Event (A : Type 0) : Type 0 where
  answered : Answer A → Event A
  storage : Option String → Event A  -- another tab's broadcast
  reset : String → Event A  -- a reset that this tab asked for has succeeded
  save : (proof : Bool) → Event A

unfoldable pub happen : {A : Type 0} → (failed : ℕ → String) → Event A → Document A → Document A
unfolding request_answered on_storage reload save_run
happen failed (answered a) d =
    let answer = request_answered failed a d.tab in
    record { tab = answer.0; given = (a.generation, answer.1) ∷ d.given }
happen failed (storage v) d = record d { tab = on_storage v d.tab }
happen failed (reset next) d = record d { tab = reload (some next) true d.tab }
happen failed (save proof) d = record d { tab = save_run proof d.tab }

unfoldable pub happen_all :
    {A : Type 0} → (failed : ℕ → String) → List (Event A) → Document A → Document A
unfolding happen
happen_all failed [] d = d
happen_all failed (e ∷ es) d = happen_all failed es (happen failed e d)
