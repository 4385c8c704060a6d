-- ===== src/Online/Freshness.antt =====
-- hysteria/online_snapshot.py: metadata vouch for the snapshot they were built from, and while fresh.
use hy.Prelude.{
  ℕ, ◌+◌, ◌≤◌, ◌<◌, String, true, not, ◌||◌, ◌≡◌, refl, inl, inr, Option, none, some, arith,
  Bool-cases, Option-cases, str_eq, str_eq_iff, str_eq_refl, ◌==◌, ap, ◌∙◌, all, ltb,
}
use hy.Text.{codes, len}
use hy.Python.Json.{Value, null, boolean, int, float, text, array, object}
use hy.Store.{ok, >>=-ok}
use hy.Online.{
  instant, Metadata, Canonical, snapshot_sha256, schema_version, build_metadata, is_schema_version,
  is_fresh, expected_digest, check_digest, check_stamp, validate_fresh_snapshot,
}

-- A digest is 64 characters of ASCII, as hexadecimal ones are.
abbrev pub Hex : String → Type 0
Hex s = (len s ≡ 64) × (all (λ c. ltb c 128) (codes s) ≡ true)

abbrev pub Sha256Digests : Canonical → Type 0
Sha256Digests lib = (s : String) → Hex (lib.sha256 s)

built :
    (lib : Canonical) (snapshot : Value) (t : ℕ) (m : Metadata)
    → build_metadata lib snapshot (instant t) ≡ ok m
    → (digest : String) × (snapshot_sha256 lib snapshot ≡ ok digest)
      × (m ≡ record {
        schema_version = schema_version;
        captured_at_unix = instant t;
        snapshot_sha256 = text digest;
      })
unfolding build_metadata
built lib snapshot t m h =
    let (digest, found, made) = >>=-ok (snapshot_sha256 lib snapshot) _ h in
    (digest, found, ground (arith, made))

digest_length :
    (lib : Canonical) (snapshot : Value) (digest : String)
    → Sha256Digests lib
    → snapshot_sha256 lib snapshot ≡ ok digest
    → Hex digest
unfolding snapshot_sha256
digest_length lib (object fs) digest sha h = elim (Option-cases (lib.dumps (object fs))) [
  | inl none_dumped ↦ absurd (ground (arith, h, none_dumped))
  | inr (payload, dumped) ↦
      let same : lib.sha256 payload ≡ digest = ground (arith, h, dumped) in
      rw (← same) (sha payload)
]
digest_length lib null digest sha h = absurd (ground (arith, h))
digest_length lib (boolean b) digest sha h = absurd (ground (arith, h))
digest_length lib (int z) digest sha h = absurd (ground (arith, h))
digest_length lib (float f) digest sha h = absurd (ground (arith, h))
digest_length lib (text s) digest sha h = absurd (ground (arith, h))
digest_length lib (array vs) digest sha h = absurd (ground (arith, h))

-- Metadata that are of the schema and fresh leave the digest to be checked.
fresh_checked :
    (lib : Canonical) (snapshot : Value) (m : Metadata) (now ttl : ℕ)
    → is_schema_version m.schema_version ≡ true
    → (t : ℕ) → m.captured_at_unix ≡ instant t
    → is_fresh (instant t) now ttl ≡ true
    → 0 < ttl
    → validate_fresh_snapshot lib snapshot (some m) (instant now) (instant ttl)
      ≡ check_digest lib snapshot (expected_digest m.snapshot_sha256)
unfolding validate_fresh_snapshot check_stamp
fresh_checked lib snapshot m now ttl schema t stamped fresh some_ttl =
    ground (arith, schema, fresh, stamped)

digest_checked :
    (lib : Canonical) (snapshot : Value) (digest : String)
    → snapshot_sha256 lib snapshot ≡ ok digest
    → all (λ c. ltb c 128) (codes digest) ≡ true
    → check_digest lib snapshot (some digest) ≡ ok snapshot
unfolding check_digest
digest_checked lib snapshot digest found ascii = rw found (rw (ascii, str_eq_refl digest) refl)

-- Metadata that were built from a snapshot validate it from that instant on, and for the time to live.
pub validate_fresh_snapshot-build_metadata :
    (lib : Canonical) (snapshot : Value) (t now ttl : ℕ) (m : Metadata)
    → Sha256Digests lib
    → build_metadata lib snapshot (instant t) ≡ ok m
    → t ≤ now
    → now ≤ t + ttl
    → 0 < ttl
    → validate_fresh_snapshot lib snapshot (some m) (instant now) (instant ttl) ≡ ok snapshot
validate_fresh_snapshot-build_metadata lib snapshot t now ttl m sha h after before some_ttl =
    let (digest, found, made) = built lib snapshot t m h in
    let long = digest_length lib snapshot digest sha found in
    let expected : expected_digest (text digest) ≡ some digest =
      unfold expected_digest in ground (arith, long.0) in
    rw made (
      fresh_checked lib snapshot
        (record {
          schema_version = schema_version;
          captured_at_unix = instant t;
          snapshot_sha256 = text digest;
        })
        now ttl (unfold is_schema_version in refl) t refl
        (unfold is_fresh in ground (arith, after, before)) some_ttl
      ∙ ap (check_digest lib snapshot) expected
      ∙ digest_checked lib snapshot digest found long.1)

check_digest_binds :
    (lib : Canonical) (snapshot other : Value) (expected : Option String)
    → check_digest lib snapshot expected ≡ ok other
    → (digest : String) × (expected ≡ some digest) × (snapshot_sha256 lib snapshot ≡ ok digest)
unfolding check_digest
check_digest_binds lib snapshot other none h = absurd (ground (arith, h))
check_digest_binds lib snapshot other (some expected) h =
    let (digest, found, rest) = >>=-ok (snapshot_sha256 lib snapshot) _ h in
    elim (Bool-cases (all (λ c. ltb c 128) (codes expected))) [
      | inr foreign ↦ absurd (ground (arith, rest, foreign))
      | inl ascii ↦ elim (Bool-cases (str_eq digest expected)) [
        | inl same ↦ (expected, refl, found ∙ ap ok ((str_eq_iff digest expected).0 same))
        | inr differs ↦ absurd (ground (arith, rest, ascii, differs))
      ]
    ]

fresh_and_checked :
    (lib : Canonical) (snapshot result : Value) (m : Metadata) (now ttl : ℕ)
    → validate_fresh_snapshot lib snapshot (some m) (instant now) (instant ttl) ≡ ok result
    → (t : ℕ) → m.captured_at_unix ≡ instant t
    → (is_fresh (instant t) now ttl ≡ true)
      × (check_digest lib snapshot (expected_digest m.snapshot_sha256) ≡ ok result)
unfolding validate_fresh_snapshot check_stamp
fresh_and_checked lib snapshot result m now ttl h t stamped =
    elim (Bool-cases (ttl == 0 || not (is_schema_version m.schema_version))) [
      | inl bad ↦ absurd (ground (arith, h, bad))
      | inr good ↦ elim (Bool-cases (is_fresh (instant t) now ttl)) [
        | inr stale ↦ absurd (ground (arith, h, stale, good, stamped))
        | inl fresh ↦ (fresh, ground (arith, h, fresh, good, stamped))
      ]
    ]

-- Metadata that were built from one snapshot, and that validate a snapshot, were built from one of the same
-- digest, at an instant that is not in the future and no further back than the time to live.
pub validate_fresh_snapshot_binds :
    (lib : Canonical) (original snapshot result : Value) (t now ttl : ℕ) (m : Metadata)
    → Sha256Digests lib
    → build_metadata lib original (instant t) ≡ ok m
    → validate_fresh_snapshot lib snapshot (some m) (instant now) (instant ttl) ≡ ok result
    → (snapshot_sha256 lib snapshot ≡ snapshot_sha256 lib original) × (t ≤ now) × (now ≤ t + ttl)
validate_fresh_snapshot_binds lib original snapshot result t now ttl m sha h valid =
    let (digest, found, made) = built lib original t m h in
    let long = digest_length lib original digest sha found in
    let expected : expected_digest m.snapshot_sha256 ≡ some digest =
      rw made (unfold expected_digest in ground (arith, long.0)) in
    let (age, checked) =
      fresh_and_checked lib snapshot result m now ttl valid t
        (ap (λ (x : Metadata). x.captured_at_unix) made) in
    let (other, same, mine) =
      check_digest_binds lib snapshot result (expected_digest m.snapshot_sha256) checked in
    (
      mine ∙ ground (arith, same, expected, found),
      unfold is_fresh in ground (arith, age),
      unfold is_fresh in ground (arith, age),
    )
