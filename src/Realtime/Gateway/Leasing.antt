-- ===== src/Realtime/Gateway/Leasing.antt =====
-- A dispatch that ends well held the lease at every place where it is checked.
use ota_api.Realtime.Dispatch.{DispatchMetrics}
use ota_api.Realtime.Gateway.{Gateway}
use ota_api.Realtime.Gateway.Dispatching.{LeaseCheck, at_end, at_start, before_subscriber}
use ota_api.Prelude.{Bool, Option, option_text_eq, some, text_eq, true, ℕ, ◌%◌, ◌<◌, ◌≡◌}

-- The callback confirmed the lease to a dispatch that ended with the counters: before anything was
-- scanned, before every hundredth subscriber with the progress made by then, and at the end.
pub record IsConfirmed (valid : LeaseCheck → DispatchMetrics → Option Bool)
    (ended : DispatchMetrics) : Type 0 where
  pub first : (m : DispatchMetrics) × (m.scanned ≡ 0) × (valid at_start m ≡ some true)
  pub between :
      (i : ℕ)
      → 0 < i
      → i < ended.scanned
      → i % 100 ≡ 0
      → (m : DispatchMetrics) × (m.scanned ≡ i) × (valid (before_subscriber i) m ≡ some true)
  pub last : valid at_end ended ≡ some true
