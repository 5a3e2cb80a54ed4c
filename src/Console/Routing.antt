-- ===== src/Console/Routing.antt =====
-- `render` of app.js: which view the address asks for, and how much of the page is redrawn.
use afterglow.Prelude.{
  ◌≡◌, refl, Bool, true, false, ◌&&◌, not, String, arith, str_eq, if◌then◌else◌, sym, ◌⊎◌, inl, inr,
}
use afterglow.Ledger.{
  View, foot_traffic, assurance, proof, intake, overview, campaigns, ledger, recovery, lab,
  architecture,
}

-- `Object.hasOwn(views, hash) ? hash : "overview"`
unfoldable pub view_of : String → View
view_of hash =
    if str_eq hash "foot-traffic"
    then foot_traffic
    else if str_eq hash "assurance"
    then assurance
    else if str_eq hash "proof"
    then proof
    else if str_eq hash "intake"
    then intake
    else if str_eq hash "campaigns"
    then campaigns
    else if str_eq hash "ledger"
    then ledger
    else if str_eq hash "recovery"
    then recovery
    else if str_eq hash "lab"
    then lab
    else if str_eq hash "architecture"
    then architecture
    else overview

abbrev pub same_view : View → View → Bool
same_view foot_traffic foot_traffic = true
same_view assurance assurance = true
same_view proof proof = true
same_view intake intake = true
same_view overview overview = true
same_view campaigns campaigns = true
same_view ledger ledger = true
same_view recovery recovery = true
same_view lab lab = true
same_view architecture architecture = true
same_view _ _ = false

-- The views that redraw themselves, so that what a reader typed into them stays.
abbrev pub keeps_itself : View → Bool
keeps_itself foot_traffic = true
keeps_itself assurance = true
keeps_itself proof = true
keeps_itself intake = true
keeps_itself _ = false

-- What a render does: nothing before the first snapshot, nothing to a view that keeps itself and
-- stands, the ledger's rows alone under a focused search or sort, or the whole view.
pub data Drawn : Type 0 where
  nothing kept rows_only whole : Drawn

-- `mounted`: whether the panel of the active view is on the page. `searching`: whether the focus is
-- in the ledger's search or sort.
unfoldable pub draw : (loaded mounted searching : Bool) → View → View → View × Drawn
draw loaded mounted searching next active =
    if not loaded
    then (active, nothing)
    else if keeps_itself next && same_view next active && mounted
    then (active, kept)
    else if searching && same_view next active
    then (active, rows_only)
    else (next, whole)

unfoldable pub render : (loaded mounted searching : Bool) → String → View → View × Drawn
unfolding view_of draw
render loaded mounted searching hash active = draw loaded mounted searching (view_of hash) active

same_view_sound : (a b : View) → same_view a b ≡ true → a ≡ b
same_view_sound a b h = ground arith

chosen :
    (keeps same mounted searching : Bool) (next active : View)
    → (same ≡ true → active ≡ next)
    → let r : View × Drawn =
        if keeps && same && mounted
        then (active, kept)
        else if searching && same
        then (active, rows_only)
        else (next, whole) in
      (r.0 ≡ next) × ((r.1 ≡ whole) ⊎ ((same ≡ true) × ((keeps ≡ true) ⊎ (searching ≡ true))))
chosen true false mounted true next active sound = (refl, inl refl)
chosen true false mounted false next active sound = (refl, inl refl)
chosen false false mounted true next active sound = (refl, inl refl)
chosen false false mounted false next active sound = (refl, inl refl)
chosen true true true searching next active sound = (sound refl, inr (refl, inl refl))
chosen true true false true next active sound = (sound refl, inr (refl, inl refl))
chosen true true false false next active sound = (refl, inl refl)
chosen false true mounted true next active sound = (sound refl, inr (refl, inr refl))
chosen false true mounted false next active sound = (refl, inl refl)

-- Once a snapshot is there, every render leaves the view of the address active; and it redraws the
-- whole view, unless the view was active before and either keeps itself or is being searched or
-- sorted.
pub render-active :
    (mounted searching : Bool) (hash : String) (active : View)
    → let (now, drawn) = render true mounted searching hash active in
      (now ≡ view_of hash)
      × ((drawn ≡ whole)
          ⊎ ((same_view (view_of hash) active ≡ true)
              × ((keeps_itself (view_of hash) ≡ true) ⊎ (searching ≡ true))))
unfolding render
render-active mounted searching hash active =
    chosen (keeps_itself (view_of hash)) (same_view (view_of hash) active) mounted searching
      (view_of hash) active (λ same. sym (same_view_sound (view_of hash) active same))
