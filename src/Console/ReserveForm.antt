-- ===== src/Console/ReserveForm.antt =====
-- The form that reserves a play (the submit handler of app.js): a request key belongs to a content.
use afterglow.Prelude.{
  ◌≡◌, refl, ◌≢◌, ℕ, Bool, true, false, String, Option, none, some, arith, str_eq, eq_iff, ap, ◌∙◌,
  ◌⊎◌, Bool-cases, sym, if◌then◌else◌, List, Option-cases, inl, inr,
}
use mathlib.Core.Bool.{false≢true}
use text.Mathlib.TextPositions.{eq_refl}
use afterglow.Api.{ReservationInput}
use afterglow.Price.{PriceError, micros, refused, reserve_cost}

-- What the text below the form says: why the price is refused, or why the request failed.
pub data Complaint : Type 0 where
  about_price : PriceError → Complaint
  about_request : String → Complaint

pub record Form : Type 0 where
  pub disabled : Bool
  pub fingerprint : Option String
  pub request_key : String
  pub error : Option Complaint  -- `#reserve-error`

pub record Entry : Type 0 where
  pub campaign : String
  pub screen : String
  pub price : List ℕ

-- What the handler posts: the content, and the `Idempotency-Key`.
pub record Post : Type 0 where
  pub payload : ReservationInput
  pub key : String

abbrev pub payload_of : Entry → ℕ → ReservationInput
payload_of e cost = record { campaign_id = e.campaign; screen_id = e.screen; cost_micros = cost }

abbrev pub same_fingerprint : Option String → String → Bool
same_fingerprint none b = false
same_fingerprint (some a) b = str_eq a b

module _ (stringify : ReservationInput → String) where
  -- The fields of the form that hold the last content and its key; `uuid` is a fresh key.
  unfoldable pub keyed : String → ReservationInput → Form → Form
  keyed uuid payload f =
      if same_fingerprint f.fingerprint (stringify payload)
      then f
      else record f { fingerprint = some (stringify payload); request_key = uuid }

  -- The handler up to its await.
  unfoldable pub submit : String → Entry → Form → Form × Option Post
  unfolding keyed
  submit uuid e f = if f.disabled then (f, none) else elim (reserve_cost e.price) [
    | refused problem ↦ (record f { error = some (about_price problem) }, none)
    | micros cost ↦
        let g = keyed uuid (payload_of e cost) (record f { disabled = true; error = none }) in
        (g, some (record { payload = payload_of e cost; key = g.request_key }))
  ]

-- The answer, or its failure while the form is still on the page.
unfoldable pub submit_failed : String → Form → Form
submit_failed message f = record f { disabled = false; error = some (about_request message) }

unfoldable pub submit_answered : Form → Form
submit_answered f = record f { disabled = false }

-- What is relied on of `JSON.stringify`: two different contents are written differently.
abbrev pub TellsApart : (ReservationInput → String) → ReservationInput → ReservationInput → Type 0
TellsApart stringify a b = stringify a ≡ stringify b → a ≡ b

module _ (stringify : ReservationInput → String) where
  keyed-fingerprint :
      (uuid : String) (payload : ReservationInput) (f : Form)
      → (keyed stringify uuid payload f).fingerprint ≡ some (stringify payload)
  unfolding keyed
  keyed-fingerprint uuid payload f = elim (Option-cases f.fingerprint) [
    | inl nothing ↦ rw nothing (ground arith)
    | inr (old, e) ↦ ground (arith, eq_iff old (stringify payload))
  ]

  submit_idle :
      (uuid : String) (e : Entry) (f : Form) (cost : ℕ)
      → f.disabled ≡ false
      → reserve_cost e.price ≡ micros cost
      → let g =
          keyed stringify uuid (payload_of e cost) (record f { disabled = true; error = none }) in
        submit stringify uuid e f
        ≡ (g, some (record { payload = payload_of e cost; key = g.request_key }))
  unfolding submit
  submit_idle uuid e f cost idle c = rw c (simp idle refl)

  keyed_again :
      (uuid : String) (payload : ReservationInput) (f : Form)
      → f.fingerprint ≡ some (stringify payload)
      → keyed stringify uuid payload f ≡ f
  unfolding keyed
  keyed_again uuid payload f e = simp (e, eq_refl (stringify payload)) refl

  keyed_anew :
      (uuid : String) (payload last : ReservationInput) (f : Form)
      → TellsApart stringify payload last
      → f.fingerprint ≡ some (stringify last)
      → payload ≢ last
      → (keyed stringify uuid payload f).request_key ≡ uuid
  unfolding keyed
  keyed_anew uuid payload last f told e other =
      elim (Bool-cases (str_eq (stringify last) (stringify payload))) [
        | inl same ↦
            absurd (other (told (sym ((eq_iff (stringify last) (stringify payload)).0 same))))
        | inr differ ↦ rw (e, differ) refl
      ]

  resubmit_same :
      (later message : String) (d : Entry) (g : Form) (price : ℕ)
      → g.fingerprint ≡ some (stringify (payload_of d price))
      → reserve_cost d.price ≡ micros price
      → (submit stringify later d (submit_failed message g)).1
        ≡ some (record { payload = payload_of d price; key = g.request_key })
  unfolding submit_failed
  resubmit_same later message d g price e k =
      let again = record g { disabled = true; error = none } in
      rw (submit_idle later d (submit_failed message g) price refl k)
        (rw (keyed_again later (payload_of d price) again e) refl)

  resubmit_other :
      (later message : String) (d : Entry) (g : Form) (price : ℕ) (last : ReservationInput)
      → TellsApart stringify (payload_of d price) last
      → g.fingerprint ≡ some (stringify last)
      → payload_of d price ≢ last
      → reserve_cost d.price ≡ micros price
      → (submit stringify later d (submit_failed message g)).1
        ≡ some (record { payload = payload_of d price; key = later })
  unfolding submit_failed
  resubmit_other later message d g price last told e other k =
      let again = record g { disabled = true; error = none } in
      rw (submit_idle later d (submit_failed message g) price refl k)
        (rw (keyed_anew later (payload_of d price) last again told e other) refl)

  payload-cases : (a b : ReservationInput) → TellsApart stringify a b → (a ≡ b) ⊎ (a ≢ b)
  payload-cases a b told = elim (Bool-cases (str_eq (stringify a) (stringify b))) [
    | inl same ↦ inl (told ((eq_iff (stringify a) (stringify b)).0 same))
    | inr differ ↦ inr (λ e. false≢true (sym differ ∙ rw e (eq_refl (stringify b))))
  ]

  -- A submission whose outcome is unknown, and the next one: the next is sent under the same key
  -- exactly where its content is the same, and under its fresh key where the content differs,
  -- provided that the text format tells the two contents apart.
  pub submit_again :
      (fresh later message : String) (e d : Entry) (f : Form) (cost price : ℕ)
      → TellsApart stringify (payload_of d price) (payload_of e cost)
      → f.disabled ≡ false
      → reserve_cost e.price ≡ micros cost
      → reserve_cost d.price ≡ micros price
      → (key : String) × ((submit stringify fresh e f).1
          ≡ some (record { payload = payload_of e cost; key = key }))
        × (((payload_of d price ≡ payload_of e cost)
              × ((submit stringify later d (submit_failed message (submit stringify fresh e f).0)).1
                  ≡ some (record { payload = payload_of e cost; key = key })))
            ⊎ ((payload_of d price ≢ payload_of e cost)
                × ((submit stringify later d
                      (submit_failed message (submit stringify fresh e f).0)).1
                    ≡ some (record { payload = payload_of d price; key = later }))))
  submit_again fresh later message e d f cost price told idle c k =
      let reserve = record f { disabled = true; error = none } in
      let g = keyed stringify fresh (payload_of e cost) reserve in
      let written = keyed-fingerprint fresh (payload_of e cost) reserve in
      rw (submit_idle fresh e f cost idle c) (
        g.request_key,
        refl,
        elim (payload-cases (payload_of d price) (payload_of e cost) told) [
          | inl same ↦ inl (
            same,
            resubmit_same later message d g price
                  (written ∙ ap (λ p. some (stringify p)) (sym same)) k
                ∙ ap (λ p. some (record { payload = p; key = g.request_key })) same,
          )
          | inr differ ↦ inr (
            differ,
            resubmit_other later message d g price (payload_of e cost) told written differ k,
          )
        ],
      )
