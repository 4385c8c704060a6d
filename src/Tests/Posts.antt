-- ===== src/Tests/Posts.antt =====
-- hysteria/auth_service.py: a POST of the small host's user, an address, and a watchdog of two sockets.
use hy.Prelude.{
  ℕ, ◌≤◌, ◌≡◌, refl, arith, some, none, true, false, not, List, [], ◌∷◌, String, leb, ◌&&◌,
  if◌then◌else◌, length, inl, inr, Bool-cases, str_eq, ◌⊎◌,
}
use hy.Dict.{get}
use hy.Text.{codes, contains}
use hy.Python.Numbers.{pos}
use hy.Python.Json.{object, text, int, field, end}
use hy.Store.{ok}
use hy.Bridge.Address.{Net, Ip, normalize_text}
use hy.Bridge.Message.{Wire}
use hy.Bridge.Handler.{Post, Response, Strings, do_post, content_length_of, content_type_is_json}
use hy.Bridge.Headers.{Announces, IsJson}
use hy.Bridge.Answers.{AcceptedAs, do_post_accepts}
use hy.Bridge.Source.{Compresses, normalize_text_source}
use hy.Bridge.Watchdog.{Watchdog, started, turn}
use hy.Bridge.Expiry.{Event, registers, unregisters, turns, history, turn_lem}
use hy.Tests.World.{setting, visit, server, served}

abbrev plain : List ℕ → Ip
plain s = record { six = false; compressed = s; ipv4_mapped = none }

abbrev net : Net
net = record {
  ip_address = λ s. if leb 1 (length s) && leb (length s) 45 then some (plain s) else none;
  utf8_length = λ s. some (length s);
}

abbrev wire : Wire
wire = record {
  net = net;
  parse = λ body. ok (
      object (
        field "addr" (text "10.0.0.1:4000")
          (field "auth" (text "alice:token") (field "tx" (int (pos 0)) end))));
}

abbrev strings : Strings
strings = record { from_codes = λ s. "10.0.0.1" }

abbrev post : Post
post = record {
  path = "/auth";
  has_transfer_encoding = false;
  content_lengths = codes "2" ∷ [];
  content_type = codes "Application/JSON; charset=UTF-8";
  body = some (codes "{}");
}

abbrev response : Response
response = record { status = 200; accepted = true; id = some "alice" }

posted : do_post setting wire visit strings 1_000_000 server post ≡ ok (response, served)
unfolding do_post hy.Bridge.Handler.with_length hy.Bridge.Handler.content_length_of
    hy.Bridge.Handler.with_body hy.Bridge.Handler.content_type_is_json hy.Bridge.Handler.decided
    hy.Bridge.Message.decode_auth_request hy.Bridge.Message.decode_value
    hy.Bridge.Message.decode_fields hy.Bridge.Message.exact_fields hy.Bridge.Message.auth_text
    hy.Bridge.Message.tx_rate hy.Bridge.Address.normalize_client_addr hy.Bridge.Address.check_text
    hy.Bridge.Address.split_host hy.Bridge.Address.port_number hy.Bridge.Address.split_zone
    hy.Bridge.Address.found_host hy.Bridge.Address.with_port hy.Users.value_of
    hy.Auth.Payload.authenticate_payload hy.Auth.Decision.authenticate hy.Users.is_valid_username
    hy.Auth.Counts.deadline_expired hy.Auth.Decision.with_user hy.Auth.User.read_user
    hy.Auth.Decision.with_credential hy.Auth.Credential.verify_user_credential
    hy.Auth.Decision.with_quota hy.Auth.Quota.within_quota hy.Cycle.cycle_length_from_meta
    hy.Cycle.cycle_start_for hy.Cycle.anchor_for hy.Cycle.cycle_anchor_date hy.Cycle.days_of
    hy.Cycle.start_of hy.Auth.Decision.with_devices hy.Auth.Decision.max_devices
    hy.Auth.Decision.with_counts hy.Auth.Counts.get_online_counts hy.Auth.Decision.online_count
    hy.Admission.reserve_device_admission hy.Auth.Decision.after_slot hy.Auth.Decision.confirm
    hy.Auth.Decision.confirmed hy.Auth.Decision.source_of hy.Prelude.any hy.Auth.Payload.split_colon
posted = refl

do_post_accepts_example :
    (post.path ≡ "/auth")
    × (post.has_transfer_encoding ≡ false)
    × IsJson post.content_type
    × ((announced : ℕ) × Announces post announced
        × AcceptedAs setting wire visit strings 1_000_000 server served response post.body
            announced)
do_post_accepts_example =
    do_post_accepts setting wire visit strings 1_000_000 server served response post posted refl

compresses : Compresses net
compresses s ip h = elim (Bool-cases (leb 1 (length s) && leb (length s) 45)) [
  | inr long ↦ absurd (ground (arith, h, long))
  | inl short ↦
      let same : plain s ≡ ip = ground (arith, h, short) in
      rw (← same)
        ((ground (arith, short), ground (arith, short)), λ m e. absurd (ground (arith, e)))
]

abbrev source : List ℕ
source = codes "10.0.0.1"

normalized : normalize_text net (codes "10.0.0.1:4000") ≡ ok (codes "10.0.0.1:4000", source)
unfolding normalize_text hy.Bridge.Address.check_text hy.Bridge.Address.split_host
    hy.Bridge.Address.port_number hy.Bridge.Address.split_zone hy.Bridge.Address.found_host
    hy.Bridge.Address.with_port hy.Prelude.any
normalized = refl

normalize_text_source_example : (1 ≤ length source) × (length source ≤ 78)
normalize_text_source_example =
    normalize_text_source net (codes "10.0.0.1:4000") (codes "10.0.0.1:4000") source compresses
      normalized

abbrev events : List Event
events = registers "a" 5 ∷ registers "b" 9 ∷ registers "c" 3 ∷ unregisters "c" ∷ turns 4 ∷ []

abbrev watched : Watchdog
watched = history events started

live : watched.closed ≡ false
unfolding history hy.Bridge.Watchdog.register hy.Bridge.Watchdog.unregister turn
live = refl

armed : contains "a" watched.armed ≡ true
unfolding history hy.Bridge.Watchdog.register hy.Bridge.Watchdog.unregister turn contains
    hy.Prelude.any
armed = refl

turn_lem_example :
    (deadline : ℕ) × (get "a" watched.deadlines ≡ some deadline)
    × (contains "a" (turn 6 watched).0 ≡ leb deadline 6)
    × (contains "a" (turn 6 watched).1.armed ≡ not (leb deadline 6))
turn_lem_example = turn_lem events 6 "a" watched refl live armed
