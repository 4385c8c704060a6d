-- ===== src/Tests/Snapshots.antt =====
-- hysteria/online_snapshot.py: the snapshot of one online user, eleven seconds later.
use hy.Prelude.{◌+◌, ◌≤◌, ◌≡◌, refl, arith, some}
use hy.Python.Numbers.{pos}
use hy.Python.Json.{Value, int, object, field, end, text}
use hy.Store.{ok}
use hy.Online.{
  Metadata, instant, schema_version, snapshot_sha256, build_metadata, validate_fresh_snapshot,
}
use hy.Online.Freshness.{
  Sha256Digests, validate_fresh_snapshot-build_metadata, validate_fresh_snapshot_binds,
}
use hy.Tests.World.{canonical}

abbrev snapshot : Value
snapshot = object (field "alice" (int (pos 1)) end)

abbrev metadata : Metadata
metadata = record {
  schema_version = schema_version;
  captured_at_unix = instant 1_000_000;
  snapshot_sha256 = text "0123456789abcdef0123456789abcdef0123456789abcdef0123456789abcdef";
}

sha256 : Sha256Digests canonical
unfolding hy.Text.len hy.Prelude.all
sha256 s = (refl, refl)

was_built : build_metadata canonical snapshot (instant 1_000_000) ≡ ok metadata
unfolding build_metadata snapshot_sha256
was_built = refl

validate_fresh_snapshot-build_metadata_example :
    validate_fresh_snapshot canonical snapshot
      (some metadata)
      (instant 12_000_000)
      (instant 20_000_000)
    ≡ ok snapshot
validate_fresh_snapshot-build_metadata_example =
    validate_fresh_snapshot-build_metadata canonical snapshot 1_000_000 12_000_000 20_000_000
      metadata sha256 was_built (ground arith) (ground arith) (ground arith)

is_valid :
    validate_fresh_snapshot canonical snapshot
      (some metadata)
      (instant 12_000_000)
      (instant 20_000_000)
    ≡ ok snapshot
unfolding validate_fresh_snapshot hy.Online.is_schema_version hy.Online.is_fresh
    hy.Online.expected_digest hy.Online.check_digest hy.Online.check_stamp hy.Prelude.all
    snapshot_sha256
is_valid = refl

validate_fresh_snapshot_binds_example :
    (snapshot_sha256 canonical snapshot ≡ snapshot_sha256 canonical snapshot)
    × (1_000_000 ≤ 12_000_000)
    × (12_000_000 ≤ 1_000_000 + 20_000_000)
validate_fresh_snapshot_binds_example =
    validate_fresh_snapshot_binds canonical snapshot snapshot snapshot 1_000_000 12_000_000
      20_000_000 metadata sha256 was_built is_valid
