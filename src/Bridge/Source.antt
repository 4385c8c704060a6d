-- ===== src/Bridge/Source.antt =====
-- hysteria/auth_service.py, `normalize_client_addr`: the bounds of the source that the limiter counts.
use hy.Prelude.{
  ℕ, ◌≤◌, Bool, ◌&&◌, ◌≡◌, inl, inr, Option, none, some, List, ◌∷◌, ◌++◌, arith, leb, ◌==◌,
  if◌then◌else◌, length, all, Bool-cases, Option-cases, length-append,
}
use hy.Store.{ok, err, invalid_request, >>=-ok}
use hy.Users.{name_code}
use hy.Bridge.Address.{
  Net, Ip, check_text, split_host, port_number, split_zone, partition, canonical_host, found_host,
  normalize_text, max_addr_bytes,
}

-- A text of 1 to 45 characters.
abbrev pub Short : List ℕ → Type 0
Short s = (1 ≤ length s) × (length s ≤ 45)

-- The compressed form of an address, and of the IPv4 address it maps, is of that length.
abbrev pub Compresses : Net → Type 0
Compresses lib =
    (s : List ℕ) (ip : Ip)
    → lib.ip_address s ≡ some ip
    → Short ip.compressed × ((m : List ℕ) → ip.ipv4_mapped ≡ some m → Short m)

-- A zone, if there is one, has at most 32 characters.
abbrev Zoned : Option (List ℕ) → Type 0
Zoned none = Unit {0}
Zoned (some zone) = length zone ≤ 32

split_zone-Zoned :
    (host address : List ℕ) (zone : Option (List ℕ))
    → split_zone host ≡ ok (address, zone)
    → Zoned zone
unfolding split_zone
split_zone-Zoned host address none h = tt
split_zone-Zoned host address (some zone) h = elim (Option-cases (partition 37 host)) [
  | inl whole ↦ absurd (ground (arith, h, whole))
  | inr ((a, z), cut) ↦
      elim (Bool-cases (leb 1 (length z) && leb (length z) 32 && all name_code z)) [
        | inr bad ↦ absurd (ground (arith, h, cut, bad))
        | inl good ↦
            let same : z ≡ zone = ground (arith, h, cut, good) in rw (← same) (ground (arith, good))
      ]
]

canonical_host-bounds :
    (ip : Ip) (zone : Option (List ℕ)) (six : Bool) (host : List ℕ)
    → Short ip.compressed
    → ((m : List ℕ) → ip.ipv4_mapped ≡ some m → Short m)
    → Zoned zone
    → canonical_host ip zone ≡ ok (six, host)
    → (1 ≤ length host) × (length host ≤ 78)
unfolding canonical_host
canonical_host-bounds ip none six host short mapped z h = elim (Option-cases ip.ipv4_mapped) [
  | inl none_mapped ↦
      let same : host ≡ ip.compressed = ground (arith, h, none_mapped) in
      rw same (ground (arith, short))
  | inr (m, maps) ↦ elim (Bool-cases ip.six) [
    | inl new ↦
        let same : host ≡ m = ground (arith, h, maps, new) in
        rw same (ground (arith, mapped m maps))
    | inr old ↦
        let same : host ≡ ip.compressed = ground (arith, h, maps, old) in
        rw same (ground (arith, short))
  ]
]
canonical_host-bounds ip (some zone) six host short mapped z h =
    elim (Option-cases ip.ipv4_mapped) [
      | inr (m, maps) ↦ absurd (ground (arith, h, maps))
      | inl none_mapped ↦ elim (Bool-cases ip.six) [
        | inr old ↦ absurd (ground (arith, h, none_mapped, old))
        | inl new ↦
            let same : host ≡ ip.compressed ++ 37 ∷ zone = ground (arith, h, none_mapped, new) in
            rw same (ground (arith, short, z, length-append ip.compressed (37 ∷ zone)))
      ]
    ]

-- The source of an address that is accepted has at least one character and at most 78, where the compressed
-- form of an address has 1 to 45: within the 128 that the limiter takes.
pub normalize_text_source :
    (lib : Net) (addr canonical source : List ℕ)
    → Compresses lib
    → normalize_text lib addr ≡ ok (canonical, source)
    → (1 ≤ length source) × (length source ≤ 78)
unfolding normalize_text
normalize_text_source lib addr canonical source compresses h =
    let (sound, e1, r1) =
      >>=-ok (if length addr == 0 then err invalid_request else check_text lib max_addr_bytes addr)
        _ h in
    let (parts, e2, r2) = >>=-ok (split_host addr) _ r1 in
    let (port, e3, r3) = >>=-ok (port_number parts.1) _ r2 in
    let ((address, zone), e4, r4) = >>=-ok (split_zone parts.0) _ r3 in
    let ((six, host), e5, r5) = >>=-ok (found_host lib (address, zone)) _ r4 in
    let same : source ≡ host = ground (arith, r5) in
    elim (Option-cases (lib.ip_address address)) [
      | inl unknown ↦ absurd (unfold found_host in ground (arith, e5, unknown))
      | inr (ip, known) ↦
          let (short, mapped) = compresses address ip known in
          let found : canonical_host ip zone ≡ ok (six, host) =
            unfold found_host in ground (arith, e5, known) in
          rw same (
            canonical_host-bounds ip zone six host short mapped
              (split_zone-Zoned parts.0 address zone e4) found)
    ]
