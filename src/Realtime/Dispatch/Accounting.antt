-- ===== src/Realtime/Dispatch/Accounting.antt =====
-- The counters of a dispatch account for every attempt, within bounded memory.
use ota_api.Realtime.Dispatch.{
  Counters, DispatchMetrics, DispatchRelease, DispatchSkipReason, Kind, ReleaseCounts, count,
  increment, limit, scan, skip, zeros, new_metrics, count_in,
}
use ota_api.Prelude.{
  Bool-cases, List, Option, [], arith, get, inl, inr, length, ltb, nat_eq, none, option_text_eq,
  refl, set, some, text_eq, true, ℕ, ◌+◌, ◌∷◌, ◌≡◌, ◌≤◌,
}

-- The counter of one kind.
abbrev pub at : Kind → Counters → ℕ
at Kind.eligible c = c.eligible
at Kind.updated c = c.updated
at Kind.revoked c = c.revoked
at Kind.emit_errors c = c.emit_errors

-- The sum of one counter over all entries.
pub total : Kind → List (ℕ × ReleaseCounts) → ℕ
total k [] = 0
total k ((_, e) ∷ es) = at k e.counts + total k es

pub record IsAccounted (m : DispatchMetrics) : Type 0 where
  pub balanced : (k : Kind) → at k m.counts ≡ total k m.releases + at k m.omitted_counts
  pub bounded : length m.releases ≤ limit
  pub exact : m.complete ≡ true → (k : Kind) → at k m.omitted_counts ≡ 0

pub data Event : Type 0 where
  scanned : Event
  skipped : DispatchSkipReason → Event
  counted : Kind → DispatchRelease → Event

unfoldable pub apply : Event → DispatchMetrics → DispatchMetrics
apply scanned m = scan m
apply (skipped reason) m = skip reason m
apply (counted kind release) m = count kind release m

unfoldable pub run : List Event → DispatchMetrics → DispatchMetrics
run [] m = m
run (e ∷ es) m = run es (apply e m)

-- how much an event of the kind `j` is to add to the counter `k`
unfoldable pub gain : Kind → Kind → ℕ
gain Kind.eligible Kind.eligible = 1
gain Kind.updated Kind.updated = 1
gain Kind.revoked Kind.revoked = 1
gain Kind.emit_errors Kind.emit_errors = 1
gain k j = 0

pub at-increment-gain : (k j : Kind) (c : Counters) → at k (increment j c) ≡ at k c + gain k j
unfolding increment gain
at-increment-gain Kind.eligible Kind.eligible c = omega arith
at-increment-gain Kind.eligible Kind.updated c = omega arith
at-increment-gain Kind.eligible Kind.revoked c = omega arith
at-increment-gain Kind.eligible Kind.emit_errors c = omega arith
at-increment-gain Kind.updated Kind.eligible c = omega arith
at-increment-gain Kind.updated Kind.updated c = omega arith
at-increment-gain Kind.updated Kind.revoked c = omega arith
at-increment-gain Kind.updated Kind.emit_errors c = omega arith
at-increment-gain Kind.revoked Kind.eligible c = omega arith
at-increment-gain Kind.revoked Kind.updated c = omega arith
at-increment-gain Kind.revoked Kind.revoked c = omega arith
at-increment-gain Kind.revoked Kind.emit_errors c = omega arith
at-increment-gain Kind.emit_errors Kind.eligible c = omega arith
at-increment-gain Kind.emit_errors Kind.updated c = omega arith
at-increment-gain Kind.emit_errors Kind.revoked c = omega arith
at-increment-gain Kind.emit_errors Kind.emit_errors c = omega arith

total-set_new :
    (k : Kind) (s : ℕ) (e : ReleaseCounts) (m : List (ℕ × ReleaseCounts))
    → get s m ≡ none
    → (total k (set s e m) ≡ total k m + at k e.counts) × (length (set s e m) ≡ length m + 1)
unfolding total get set
total-set_new k s e [] h = omega arith
total-set_new k s e ((j, x) ∷ m) h = ground (arith, total-set_new k s e m)

total-set_old :
    (k : Kind) (s : ℕ) (e old : ReleaseCounts) (m : List (ℕ × ReleaseCounts))
    → get s m ≡ some old
    → (total k (set s e m) + at k old.counts ≡ total k m + at k e.counts)
      × (length (set s e m) ≡ length m)
unfolding total get set
total-set_old k s e old [] h = cc
total-set_old k s e old ((j, x) ∷ m) h = ground (arith, total-set_old k s e old m)

-- one counter above what the entries and the omitted counts hold
record IsAhead (kind : Kind) (m : DispatchMetrics) : Type 0 where
  ahead : (k : Kind) → at k m.counts ≡ total k m.releases + at k m.omitted_counts + gain k kind
  bounded : length m.releases ≤ limit
  exact : m.complete ≡ true → (k : Kind) → at k m.omitted_counts ≡ 0

count_in-IsAccounted :
    (kind : Kind) (r : DispatchRelease) (m : DispatchMetrics) (o : Option ReleaseCounts)
    → get r.release_sequence m.releases ≡ o
    → IsAhead kind m
    → IsAccounted (count_in kind r m o)
unfolding count_in
count_in-IsAccounted kind r m (some old) e v =
    let entry : ReleaseCounts = record old { counts = increment kind old.counts } in
    record {
      balanced = λ k. ground (
        arith,
        v.ahead k,
        at-increment-gain k kind old.counts,
        total-set_old k r.release_sequence entry old m.releases e,
      );
      bounded =
          ground (arith, total-set_old kind r.release_sequence entry old m.releases e, v.bounded);
      exact = v.exact;
    }
count_in-IsAccounted kind r m none e v = elim (Bool-cases (ltb (length m.releases) limit)) [
  | inl room ↦
      let entry : ReleaseCounts = record { release = r; counts = increment kind zeros } in
      rw room (record {
        balanced = λ k. ground (
          arith,
          v.ahead k,
          at-increment-gain k kind zeros,
          total-set_new k r.release_sequence entry m.releases e,
        );
        bounded =
            ground (arith, total-set_new kind r.release_sequence entry m.releases e, v.bounded);
        exact = v.exact;
      })
  | inr no_room ↦ rw no_room (record {
    balanced = λ k. ground (arith, v.ahead k, at-increment-gain k kind m.omitted_counts);
    bounded = v.bounded;
    exact = λ c k. cc;
  })
]

count-IsAccounted :
    (kind : Kind) (r : DispatchRelease) (m : DispatchMetrics)
    → IsAccounted m
    → IsAccounted (count kind r m)
unfolding count
count-IsAccounted kind r m v =
    count_in-IsAccounted kind r (record m { counts = increment kind m.counts }) _ refl
      (record {
        ahead = λ k. omega (arith, v.balanced k, at-increment-gain k kind m.counts);
        bounded = v.bounded;
        exact = v.exact;
      })

apply-IsAccounted : (e : Event) (m : DispatchMetrics) → IsAccounted m → IsAccounted (apply e m)
unfolding apply scan skip
apply-IsAccounted scanned m v = record {
  balanced = v.balanced;
  bounded = v.bounded;
  exact = v.exact;
}
apply-IsAccounted (skipped reason) m v = record {
  balanced = v.balanced;
  bounded = v.bounded;
  exact = v.exact;
}
apply-IsAccounted (counted kind r) m v = count-IsAccounted kind r m v

run_from-IsAccounted :
    (es : List Event) (m : DispatchMetrics) → IsAccounted m → IsAccounted (run es m)
unfolding run
run_from-IsAccounted [] m v = v
run_from-IsAccounted (e ∷ es) m v = run_from-IsAccounted es (apply e m) (apply-IsAccounted e m v)

-- After any events each counter is the sum over the releases listed and what was omitted; at most a
-- hundred releases are listed; and nothing was omitted where the summary says that it is complete.
pub run-IsAccounted : (es : List Event) → IsAccounted (run es new_metrics)
unfolding new_metrics total
run-IsAccounted es =
    run_from-IsAccounted es _
      (record { balanced = λ k. ground arith; bounded = omega arith; exact = λ c k. ground arith })
