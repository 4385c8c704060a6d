-- ===== src/Bridge/Address.antt =====
-- hysteria/auth_service.py, `normalize_client_addr`: the canonical form of `IP:port`, on code points, and
-- the source that the limiter counts. InvalidRequest is the fault `invalid_request`; an address without
-- a UTF-8 form raises UnicodeEncodeError, which is the fault `value_error`.
use hy.Prelude.{
  ℕ, Bool, true, false, not, ◌&&◌, ◌||◌, Option, none, some, List, [], ◌∷◌, ◌++◌, ltb, leb, ◌==◌,
  if◌then◌else◌, length, any, all,
}
use hy.Text.{codes}
use hy.Python.Numbers.{all_digits, value_from, show_natural}
use hy.Python.Json.{Value, null, boolean, int, float, text, array, object}
use hy.Store.{Result, ok, err, invalid_request, value_error, ◌>>=◌}
use hy.Users.{name_code}

abbrev pub max_addr_bytes : ℕ
max_addr_bytes = 512

-- An address of the `ipaddress` module: its version, its compressed form, and that of the IPv4 address
-- that it maps, if it is an IPv6 address that maps one.
pub record Ip : Type 0 where
  pub six : Bool
  pub compressed : List ℕ
  pub ipv4_mapped : Option (List ℕ)

-- The library: `ipaddress.ip_address`, none its ValueError, and the bytes of s.encode("utf-8").
pub record Net : Type 0 where
  pub ip_address : List ℕ → Option Ip
  pub utf8_length : List ℕ → Option ℕ

unfoldable pub is_control : ℕ → Bool
is_control c = ltb c 32 || c == 127

-- s.partition(c): what is before the first c and after it, if there is one.
unfoldable pub partition : ℕ → List ℕ → Option (List ℕ × List ℕ)
partition c [] = none
partition c (d ∷ s) =
    let rest = partition c s in
    if d == c then some ([], s) else elim rest [ none ↦ none | some (a, b) ↦ some (d ∷ a, b) ]

-- s.rpartition(c)
unfoldable pub rpartition : ℕ → List ℕ → Option (List ℕ × List ℕ)
rpartition c [] = none
rpartition c (d ∷ s) = elim (rpartition c s) [
  | some (a, b) ↦ some (d ∷ a, b)
  | none ↦ if d == c then some ([], s) else none
]

abbrev pub has_code : ℕ → List ℕ → Bool
has_code c s = any (λ d. d == c) s

-- The port after "]:".
unfoldable pub bracketed : List ℕ → List ℕ → Result (List ℕ × List ℕ)
bracketed host [] = err invalid_request
bracketed host (c ∷ port) =
    if length host == 0 || not (c == 58) || has_code 93 port
    then err invalid_request
    else ok (host, port)

unfoldable pub bare : Option (List ℕ × List ℕ) → Result (List ℕ × List ℕ)
bare none = err invalid_request
bare (some (host, port)) =
    if length host == 0 || has_code 58 host then err invalid_request else ok (host, port)

-- The texts of the host and of the port.
unfoldable pub split_host : List ℕ → Result (List ℕ × List ℕ)
unfolding partition rpartition bracketed bare
split_host [] = err invalid_request
split_host (c ∷ s) =
    if c == 91
    then (elim (partition 93 s) [
      | none ↦ err invalid_request
      | some (host, rest) ↦ bracketed host rest
    ])
    else bare (rpartition 58 (c ∷ s))

unfoldable pub port_number : List ℕ → Result ℕ
unfolding all_digits value_from
port_number s =
    if all_digits s && leb 1 (value_from 0 s) && leb (value_from 0 s) 65535
    then ok (value_from 0 s)
    else err invalid_request

-- The address and its zone, if there is one.
unfoldable pub split_zone : List ℕ → Result (List ℕ × Option (List ℕ))
unfolding partition
split_zone host = elim (partition 37 host) [
  | none ↦ ok (host, none)
  | some (address, zone) ↦
      if leb 1 (length zone) && leb (length zone) 32 && all name_code zone
      then ok (address, some zone)
      else err invalid_request
]

-- The version and the canonical host of an address in a zone, or in none.
unfoldable pub canonical_host : Ip → Option (List ℕ) → Result (Bool × List ℕ)
canonical_host ip none = elim ip.ipv4_mapped [
  | none ↦ ok (ip.six, ip.compressed)
  | some mapped ↦ if ip.six then ok (false, mapped) else ok (ip.six, ip.compressed)
]
canonical_host ip (some zone) = elim ip.ipv4_mapped [
  | none ↦ if ip.six then ok (true, ip.compressed ++ 37 ∷ zone) else err invalid_request
  | some mapped ↦ err invalid_request
]

unfoldable pub found_host : Net → List ℕ × Option (List ℕ) → Result (Bool × List ℕ)
unfolding canonical_host
found_host lib (address, zone) = elim (lib.ip_address address) [
  | none ↦ err invalid_request
  | some ip ↦ canonical_host ip zone
]

-- "[host]:port", or "host:port"
unfoldable pub with_port : Bool → List ℕ → ℕ → List ℕ
unfolding show_natural
with_port true host port = 91 ∷ host ++ 93 ∷ 58 ∷ show_natural port
with_port false host port = host ++ 58 ∷ show_natural port

-- The tests of the text as a whole.
unfoldable pub check_text : Net → ℕ → List ℕ → Result Bool
unfolding is_control
check_text lib maximum s = elim (lib.utf8_length s) [
  | none ↦ err value_error
  | some bytes ↦ if ltb maximum bytes || any is_control s then err invalid_request else ok true
]

-- The canonical address, and the source: its host.
unfoldable pub normalize_text : Net → List ℕ → Result (List ℕ × List ℕ)
normalize_text lib s =
    (if length s == 0 then err invalid_request else check_text lib max_addr_bytes s) >>= λ sound.
    split_host s >>= λ parts. port_number parts.1 >>= λ port. split_zone parts.0 >>= λ zoned.
    found_host lib zoned >>= λ host. ok (with_port host.0 host.1 port, host.1)

unfoldable pub normalize_client_addr : Net → Value → Result (List ℕ × List ℕ)
unfolding normalize_text
normalize_client_addr lib (text s) = normalize_text lib (codes s)
normalize_client_addr lib null = err invalid_request
normalize_client_addr lib (boolean b) = err invalid_request
normalize_client_addr lib (int z) = err invalid_request
normalize_client_addr lib (float f) = err invalid_request
normalize_client_addr lib (array vs) = err invalid_request
normalize_client_addr lib (object fs) = err invalid_request
