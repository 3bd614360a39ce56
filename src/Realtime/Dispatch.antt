-- ===== src/Realtime/Dispatch.antt =====
-- src/realtime/dispatch/dispatch-progress.ts: the bounded counters of one dispatch.
pub mod Accounting
pub mod Exactness
pub mod Scanning
mod Tests
use ota_api.Contracts.Releases.{UpdateSkipReason}
use ota_api.Prelude.{
  Bool, List, Option, Text, [], false, get, if◌then◌else◌, ite, length, ltb, nat_eq, none,
  option_text_eq, set, some, text_eq, true, ℕ, ◌+◌,
}

pub data DispatchSkipReason : Type 0 where
  update : UpdateSkipReason → DispatchSkipReason
  subscription_changed disconnected unchanged revoke_emit_failed : DispatchSkipReason

pub record DispatchRelease : Type 0 where
  pub release_id : Text
  pub release_sequence : ℕ

pub data Kind : Type 0 where
  eligible updated revoked emit_errors : Kind

-- the four counters, one for each kind
pub record Counters : Type 0 where
  pub eligible : ℕ
  pub updated : ℕ
  pub revoked : ℕ
  pub emit_errors : ℕ

abbrev pub zeros : Counters
zeros = record { eligible = 0; updated = 0; revoked = 0; emit_errors = 0 }

-- `counts[kind] += 1`
unfoldable pub increment : Kind → Counters → Counters
increment Kind.eligible c = record c { eligible = c.eligible + 1 }
increment Kind.updated c = record c { updated = c.updated + 1 }
increment Kind.revoked c = record c { revoked = c.revoked + 1 }
increment Kind.emit_errors c = record c { emit_errors = c.emit_errors + 1 }

pub record ReleaseCounts : Type 0 where
  pub release : DispatchRelease
  pub counts : Counters

-- `DispatchProgress`, whose `releaseSummary.entries` are the values of the map of releases; its
-- limit is the constant below.
pub record DispatchMetrics : Type 0 where
  pub scanned : ℕ
  pub counts : Counters
  pub skip_summary : DispatchSkipReason → ℕ
  pub complete : Bool
  pub omitted_counts : Counters
  pub releases : List (ℕ × ReleaseCounts)

abbrev pub limit : ℕ
limit = 100

unfoldable pub new_metrics : DispatchMetrics
new_metrics = record {
  scanned = 0;
  counts = zeros;
  skip_summary = λ _. 0;
  complete = true;
  omitted_counts = zeros;
  releases = [];
}

unfoldable pub scan : DispatchMetrics → DispatchMetrics
scan m = record m { scanned = m.scanned + 1 }

pub DispatchSkipReason-discrete : Discrete DispatchSkipReason
DispatchSkipReason-discrete = hlevel

unfoldable pub skip : DispatchSkipReason → DispatchMetrics → DispatchMetrics
unfolding DispatchSkipReason-discrete
skip reason m = record m {
  skip_summary =
      λ r. ite (DispatchSkipReason-discrete r reason) (m.skip_summary r + 1) (m.skip_summary r);
}

-- the entry of the release, after the entry is made where there is room
count_in : Kind → DispatchRelease → DispatchMetrics → Option ReleaseCounts → DispatchMetrics
count_in kind release m (some entry) = record m {
  releases =
      set release.release_sequence (record entry { counts = increment kind entry.counts })
        m.releases;
}
count_in kind release m none =
    if ltb (length m.releases) limit
    then record m {
      releases =
          set release.release_sequence (record { release = release; counts = increment kind zeros })
            m.releases;
    }
    else record m { complete = false; omitted_counts = increment kind m.omitted_counts }

unfoldable pub count : Kind → DispatchRelease → DispatchMetrics → DispatchMetrics
unfolding count_in
count kind release m =
    let n = record m { counts = increment kind m.counts } in
    count_in kind release n (get release.release_sequence n.releases)
