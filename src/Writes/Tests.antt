-- ===== src/Writes/Tests.antt =====
-- A write whose commit is lost, and the theorems at it.
use ota_api.Writes.{
  ApplicationRow, Driver, FailureCode, WriteError, acknowledgement_lost, failure_code,
  with_application_write, with_audited_application_write, query_failed,
}
use ota_api.Writes.Durability.{
  IsFaithful, with_application_write-IsFaithful, with_audited_application_write-cases,
}
use ota_api.Prelude.{
  Result, err, nat_eq, ok, option_text_eq, some, text, text_eq, true, ℕ, ◌+◌, ◌≡◌, ◌⊎◌,
}

abbrev prepared : ApplicationRow
prepared = record { table_prefix = text "shop"; status = text "ready"; schema_version = 1 }

abbrev losing : Driver
losing = record {
  connects = true;
  acquires = some true;
  begins = true;
  reads = some (some prepared);
  commits = acknowledgement_lost;
  stays_active = true;
  rolls_back = true;
  unlocks = true;
  releases = true;
  thrown = query_failed;
}

abbrev add_one : ℕ → Result WriteError (ℕ × ℕ)
add_one n = ok (n, n + 1)

abbrev add_ten : FailureCode → ℕ → Result WriteError (Unit {0} × ℕ)
add_ten code n = ok (tt, n + 10)

with_application_write-IsFaithful_example :
    let w = with_application_write losing (text "shop") add_one 4 in
    IsFaithful add_one 4 w.outcome w.stored w.result
with_application_write-IsFaithful_example =
    with_application_write-IsFaithful add_one 4 losing (text "shop")

with_audited_application_write-cases_example :
    let r = with_audited_application_write losing losing (text "shop") add_ten add_one 4 in
    (r.0 ≡ 4)
    ⊎ (((a : ℕ) × (add_one 4 ≡ ok (a, r.0)))
        ⊎ ((e : WriteError) × (r.1 ≡ err e) × (add_ten (failure_code e) 4 ≡ ok (tt, r.0))))
with_audited_application_write-cases_example =
    with_audited_application_write-cases add_one 4 losing (text "shop") add_ten losing
