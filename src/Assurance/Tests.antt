-- ===== src/Assurance/Tests.antt =====
-- Runs of the assurance page on concrete input.
use afterglow.Prelude.{◌≡◌, refl, ◌↔◌, true, false, [], ◌∷◌, none, some, Memᴰ}
use afterglow.Api.{Campaign, quarantined}
use afterglow.Assurance.{
  Report, recommendations, Panel, content, showing, export_disabled, export, here, next, rendered,
  tick, start, render, with_fetch, missing_playback, review_evidence,
}
use afterglow.Assurance.Current.{IsCurrent, Reach-IsCurrent}
use afterglow.Assurance.FollowUp.{Applies, recommendations_iff, export-content}

abbrev campaign : Campaign
campaign = record {
  id = "c1";
  name = "One";
  budget_micros = 5;
  reserved_micros = 1;
  spent_micros = 2;
}

abbrev report : Report
report = record {
  campaign = campaign;
  screens = [];
  budget_consistent = true;
  settled_plays = 2;
  held_plays = 1;
  awaiting_evidence = 3;
  decisions = λ s. elim s [ quarantined ↦ 4 | _ ↦ 0 ];
}

advice_given : recommendations report ≡ missing_playback 3 ∷ review_evidence 4 ∷ []
unfolding recommendations
advice_given = refl

recommendations_iff_example :
    Memᴰ (review_evidence 4) (recommendations report) ↔ Applies report (review_evidence 4)
recommendations_iff_example = recommendations_iff report (review_evidence 4)

abbrev panel : Panel
panel = record {
  selected = "c1";
  report = some report;
  loading = false;
  error = "";
  generation = 1;
}

exported_report :
    ((r : Report) → (export panel ≡ some r) ↔ (content panel ≡ showing r))
    × ((export_disabled panel ≡ true) ↔ (export panel ≡ none))
exported_report = export-content panel

Reach-IsCurrent_example :
    IsCurrent (with_fetch (record (render (campaign ∷ []) start) { queued = 0 }))
unfolding render
Reach-IsCurrent_example =
    Reach-IsCurrent (
      next (next here (rendered start (campaign ∷ [])))
        (tick (render (campaign ∷ []) start) 0 refl))
