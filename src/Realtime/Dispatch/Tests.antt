-- ===== src/Realtime/Dispatch/Tests.antt =====
-- A dispatch of three attempts, and the accounting theorems at it.
use ota_api.Realtime.Dispatch.{
  DispatchRelease, Kind, count, disconnected, increment, new_metrics, scan, skip,
}
use ota_api.Realtime.Dispatch.Accounting.{
  Event, IsAccounted, apply, counted, run, run-IsAccounted, scanned, skipped,
}
use ota_api.Realtime.Dispatch.Exactness.{listed, run-listed_exact, tally}
use ota_api.Prelude.{
  List, [], get, nat_eq, option_text_eq, refl, set, text, text_eq, true, ◌∷◌, ◌≡◌,
}

abbrev offered : DispatchRelease
offered = record { release_id = text "r"; release_sequence = 7 }

abbrev events : List Event
events =
    scanned
    ∷ counted Kind.eligible offered
    ∷ counted Kind.updated offered
    ∷ skipped disconnected
    ∷ []

complete_events : (run events new_metrics).complete ≡ true
unfolding run apply new_metrics scan skip count get set increment
complete_events = refl

run-IsAccounted_example : IsAccounted (run events new_metrics)
run-IsAccounted_example = run-IsAccounted events

run-listed_exact_example :
    listed Kind.updated 7 (run events new_metrics) ≡ tally Kind.updated 7 events
run-listed_exact_example = run-listed_exact events Kind.updated 7 complete_events
