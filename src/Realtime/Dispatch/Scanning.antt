-- ===== src/Realtime/Dispatch/Scanning.antt =====
-- The counter of the subscribers scanned, against the other counters.
use ota_api.Realtime.Dispatch.{
  DispatchMetrics, DispatchRelease, DispatchSkipReason, Kind, ReleaseCounts, count, count_in,
  increment, skip,
}
use ota_api.Prelude.{Option, arith, nat_eq, none, option_text_eq, refl, some, text_eq, ◌≡◌}

scanned-count_in :
    (kind : Kind) (r : DispatchRelease) (m : DispatchMetrics) (o : Option ReleaseCounts)
    → (count_in kind r m o).scanned ≡ m.scanned
unfolding count_in
scanned-count_in kind r m (some entry) = refl
scanned-count_in kind r m none = ground arith

pub scanned-count :
    (kind : Kind) (r : DispatchRelease) (m : DispatchMetrics) → (count kind r m).scanned ≡ m.scanned
unfolding count
scanned-count kind r m = scanned-count_in kind r (record m { counts = increment kind m.counts }) _

pub scanned-skip :
    (reason : DispatchSkipReason) (m : DispatchMetrics) → (skip reason m).scanned ≡ m.scanned
unfolding skip
scanned-skip reason m = refl
