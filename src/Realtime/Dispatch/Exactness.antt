-- ===== src/Realtime/Dispatch/Exactness.antt =====
-- A complete summary is exact for every release; the totals are exact in any case.
use ota_api.Realtime.Dispatch.{
  count_in, DispatchMetrics, DispatchRelease, Kind, ReleaseCounts, count, increment, new_metrics,
  scan, skip, zeros,
}
use ota_api.Realtime.Dispatch.Accounting.{
  Event, apply, at, at-increment-gain, counted, gain, run, scanned, skipped,
}
use ota_api.Prelude.{
  List, Option, [], ap, arith, get, get-set, if◌then◌else◌, nat_eq, none, option_text_eq, refl,
  some, text_eq, true, ℕ, ◌+◌, ◌==◌, ◌∙◌, ◌∷◌, ◌≡◌,
}

-- How often an event of the kind was counted, for any release and for the one of a sequence.
pub occurrences : Kind → List Event → ℕ
occurrences k [] = 0
occurrences k (counted j r ∷ es) = gain k j + occurrences k es
occurrences k (scanned ∷ es) = occurrences k es
occurrences k (skipped reason ∷ es) = occurrences k es

pub tally : Kind → ℕ → List Event → ℕ
tally k s [] = 0
tally k s (counted j r ∷ es) = (if r.release_sequence == s then gain k j else 0) + tally k s es
tally k s (scanned ∷ es) = tally k s es
tally k s (skipped reason ∷ es) = tally k s es

abbrev at_entry : Kind → Option ReleaseCounts → ℕ
at_entry k none = 0
at_entry k (some e) = at k e.counts

-- The counter in the entry of a release, zero where it is not listed.
abbrev pub listed : Kind → ℕ → DispatchMetrics → ℕ
listed k s m = at_entry k (get s m.releases)

count_in-listed :
    (kind : Kind) (r : DispatchRelease) (m : DispatchMetrics) (o : Option ReleaseCounts) (k : Kind)
    (s : ℕ)
    → get r.release_sequence m.releases ≡ o
    → (count_in kind r m o).complete ≡ true
    → (m.complete ≡ true)
      × (listed k s (count_in kind r m o)
          ≡ listed k s m + (if r.release_sequence == s then gain k kind else 0))
unfolding count_in
count_in-listed kind r m (some old) k s e c =
    let entry : ReleaseCounts = record old { counts = increment kind old.counts } in
    let same : r.release_sequence ≡ s → get s m.releases ≡ some old = λ p. rw (← p) e in
    (
      c,
      ground (
        arith,
        same,
        get-set r.release_sequence s entry m.releases,
        at-increment-gain k kind old.counts,
      ),
    )
count_in-listed kind r m none k s e c =
    let entry : ReleaseCounts = record { release = r; counts = increment kind zeros } in
    let same : r.release_sequence ≡ s → get s m.releases ≡ none = λ p. rw (← p) e in
    ground
      (arith, same, get-set r.release_sequence s entry m.releases, at-increment-gain k kind zeros)

count-listed :
    (kind : Kind) (r : DispatchRelease) (m : DispatchMetrics) (k : Kind) (s : ℕ)
    → (count kind r m).complete ≡ true
    → (m.complete ≡ true)
      × (listed k s (count kind r m)
          ≡ listed k s m + (if r.release_sequence == s then gain k kind else 0))
unfolding count
count-listed kind r m k s c =
    count_in-listed kind r (record m { counts = increment kind m.counts }) _ k s refl c

run-listed :
    (es : List Event) (m : DispatchMetrics) (k : Kind) (s : ℕ)
    → (run es m).complete ≡ true
    → (m.complete ≡ true) × (listed k s (run es m) ≡ listed k s m + tally k s es)
unfolding run tally apply scan skip
run-listed [] m k s c = (c, omega arith)
run-listed (scanned ∷ es) m k s c = run-listed es (scan m) k s c
run-listed (skipped reason ∷ es) m k s c = run-listed es (skip reason m) k s c
run-listed (counted j r ∷ es) m k s c =
    let (c', e) = run-listed es (count j r m) k s c in
    let (c'', f) = count-listed j r m k s c' in (c'', omega (arith, e, f))

-- Where the summary of a dispatch is complete, the entry of each release holds for each kind
-- exactly the number of events that were counted for that release.
pub run-listed_exact :
    (es : List Event) (k : Kind) (s : ℕ)
    → (run es new_metrics).complete ≡ true
    → listed k s (run es new_metrics) ≡ tally k s es
unfolding new_metrics get
run-listed_exact es k s c = omega (arith, (run-listed es new_metrics k s c).1)

count-counts :
    (kind : Kind) (r : DispatchRelease) (m : DispatchMetrics)
    → (count kind r m).counts ≡ increment kind m.counts
unfolding count
count-counts kind r m = from (get r.release_sequence m.releases)
  where
    from :
        (o : Option ReleaseCounts)
        → (count_in kind r (record m { counts = increment kind m.counts }) o).counts
          ≡ increment kind m.counts
    from none = ground arith
    from (some e) = ground arith

run-occurrences :
    (es : List Event) (m : DispatchMetrics) (k : Kind)
    → at k (run es m).counts ≡ at k m.counts + occurrences k es
unfolding run occurrences apply scan skip
run-occurrences [] m k = omega arith
run-occurrences (scanned ∷ es) m k = run-occurrences es (scan m) k
run-occurrences (skipped reason ∷ es) m k = run-occurrences es (skip reason m) k
run-occurrences (counted j r ∷ es) m k = omega (
  arith,
  run-occurrences es (count j r m) k,
  ap (at k) (count-counts j r m) ∙ at-increment-gain k j m.counts,
)
