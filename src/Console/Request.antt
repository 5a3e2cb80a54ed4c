-- ===== src/Console/Request.antt =====
-- `request` of app.js: what an answer of the service is turned into.
use afterglow.Prelude.{
  ◌≡◌, refl, ℕ, Bool, true, false, String, Option, none, some, ◌⊎◌, inl, inr, arith, str_eq,
  if◌then◌else◌,
}

-- `error.status` is missing on what is thrown for other reasons than the status.
pub data Result {ℓ} (A : Type ℓ) : Type ℓ where
  ok : A → Result A
  thrown : (message : String) → (status : Option ℕ) → Result A

-- The body of an answer: the parsed JSON, with its `detail`, or null where it does not parse.
pub record Body {ℓ} (A : Type ℓ) : Type ℓ where
  pub value : A
  pub detail : Option String

-- `data?.detail || fallback`
abbrev pub detail_or : String → Option String → String
detail_or fallback none = fallback
detail_or fallback (some text) = if str_eq text "" then fallback else text

module _ {ℓ} {A : Type ℓ} (failed : ℕ → String) where
  -- `failed` gives "Request failed (status). Please try again."
  unfoldable pub read_answer : Bool → ℕ → Option (Body A) → Result A
  read_answer false status none = thrown (failed status) (some status)
  read_answer false status (some body) =
      thrown (detail_or (failed status) body.detail) (some status)
  read_answer true status none =
      thrown "The server returned an unreadable response. Please retry." none
  read_answer true status (some body) = ok body.value

  -- A caller gets a value exactly from a successful answer with a readable body; an unsuccessful
  -- answer throws an error with its status, whose message is not empty, provided that the fallback
  -- never is; and an unreadable success throws one without a status.
  pub read_answer-cases :
      ((n : ℕ) → str_eq (failed n) "" ≡ false)
      → (good : Bool) (status : ℕ) (body : Option (Body A))
      → ((a : A) × (d : Option String) × (good ≡ true)
          × (body ≡ some (record { value = a; detail = d }))
          × (read_answer good status body ≡ ok a))
        ⊎ ((message : String) × (good ≡ false)
            × (read_answer good status body ≡ thrown message (some status))
            × (str_eq message "" ≡ false))
        ⊎ ((good ≡ true)
            × (body ≡ none)
            × (read_answer good status body
                ≡ thrown "The server returned an unreadable response. Please retry." none))
  unfolding read_answer
  read_answer-cases named false status none = inr (inl (_, refl, refl, named status))
  read_answer-cases named false status (some body) =
      inr (inl (_, refl, refl, detail_case body.detail))
    where
      detail_case : (d : Option String) → str_eq (detail_or (failed status) d) "" ≡ false
      detail_case none = named status
      detail_case (some text) = ground (arith, named status)
  read_answer-cases named true status none = inr (inr (refl, refl, refl))
  read_answer-cases named true status (some body) = inl (body.value, body.detail, refl, refl, refl)
