-- ===== src/Tests/World.antt =====
-- A small host: one metered user with a token and two devices, and the library by concrete functions.
use hy.Prelude.{
  ℕ, zero, suc, ◌+◌, ◌-◌, ◌*◌, ◌/◌, ◌%◌, true, none, some, List, [], ◌∷◌, leb, ◌==◌, if◌then◌else◌,
  length,
}
use hy.Text.{codes, len}
use hy.Python.Numbers.{pos}
use hy.Python.Json.{Value, boolean, int, text, object, Fields, end, field}
use hy.Store.{absent, holds, calm}
use hy.Users.{Library}
use hy.Cycle.{Now}
use hy.Display.{Floats, Multiplier, number}
use hy.Online.{Canonical, instant}
use hy.Auth.Inputs.{Dates}
use hy.Auth.Password.{Crypto}
use hy.Auth.Counts.{Call}
use hy.Auth.Quota.{Policy, Ledgers}
use hy.Auth.Decision.{Setting, Request, Visit, Server}

-- Texts of ten characters are days, those of more are moments and uuids.
abbrev pub library : Library
library = record {
  strptime_day = λ s. if length s == 10 then some (length s) else none;
  fromisoformat = λ s. if leb 11 (length s) then some (record { local = 5; zone = none }) else none;
  uuid_hex = λ s. if length s == 36 then some "uuid" else none;
  str_value = λ v. [];
}

abbrev pub dates : Dates
dates = record {
  is_iso_day = λ s. len s == 10;
  day_key = λ d. if d == 100 then "2024-05-02" else "2024-05-01";
}

abbrev pub floats : Floats
floats = record { parse = λ s. number (record { digits = 228; scale = 100 }); show = λ v. [] }

abbrev pub deployed : Multiplier
deployed = record { digits = 228; scale = 100 }

abbrev pub policy : Policy
policy = record {
  users = library;
  dates = dates;
  floats = floats;
  deployed = deployed;
  reaches = λ used m quota. leb (quota * m.scale) (used * m.digits);
}

-- Two characters for each byte.
abbrev pub b64encode : List ℕ → List ℕ
b64encode [] = []
b64encode (b ∷ bytes) = (65 + b / 16) ∷ (65 + b % 16) ∷ b64encode bytes

abbrev pub b64pairs : List ℕ → List ℕ
b64pairs [] = []
b64pairs (h ∷ []) = []
b64pairs (h ∷ l ∷ s) = ((h - 65) * 16 + (l - 65)) ∷ b64pairs s

abbrev pub repeat : ℕ → ℕ → List ℕ
repeat zero b = []
repeat (suc n) b = b ∷ repeat n b

abbrev pub crypto : Crypto
crypto = record {
  utf8 = λ s. some s;
  b64decode = λ s. some (b64pairs s);
  b64encode = b64encode;
  pbkdf2 = λ password salt rounds. repeat 32 (length password % 256);
}

abbrev pub canonical : Canonical
canonical = record {
  dumps = λ v. some "canonical";
  sha256 = λ s. "0123456789abcdef0123456789abcdef0123456789abcdef0123456789abcdef";
}

abbrev pub setting : Setting
setting = record { policy = policy; crypto = crypto; canonical = canonical }

abbrev pub alice : Fields
alice = field "sub_token" (text "token") (
    field "metered" (boolean true)
      (field "monthly_quota_bytes" (int (pos 1000)) (field "max_devices" (int (pos 2)) end)))

abbrev pub users : Value
users = object (field "alice" (object alice) end)

abbrev pub daily : Value
daily = object (field "2024-05-02" (object (field "alice" (int (pos 100)) end)) end)

abbrev pub now : Now
now = record { today = 100; day = 2; last_month_days = 30 }

abbrev pub ledgers : Ledgers
ledgers = record {
  now = now;
  meta = holds (object end);
  daily = holds daily;
  multiplier = absent;
  environment = none;
}

abbrev pub call : Call
call = record {
  started = 10;
  answered = 11;
  fallback = 12;
  reply =
      some (record {
        status = 200;
        size = 20;
        json = some (object (field "alice" (int (pos 1)) end));
      });
  snapshot = record { size = 0; file = absent };
  metadata = record { size = 0; file = absent };
  now = instant 0;
}

abbrev pub visit : Visit
visit = record {
  users_before = holds users;
  today_before = 100;
  users_after = holds users;
  today_after = 100;
  ledgers = ledgers;
  online = call;
  host = calm;
  instant = 1_000_000;
  entered = 1;
  clock = record { start = 2; acquiring = 3; hashing = 4; hashed = 5 };
  left = 20;
}

abbrev pub request : Request
request = record {
  username = "alice";
  password = codes "token";
  addr = some "10.0.0.1:4000";
  source = some "10.0.0.1";
  deadline = some 1_000_000;
  allow_password = true;
}

abbrev pub server : Server
server = record { slots = absent; limiter = none }

-- The server after the request: one device slot is reserved.
abbrev pub served : Server
served = record {
  slots = holds (("alice", record { observed = some 1; pending = 1_000_000 ∷ [] }) ∷ []);
  limiter = none;
}
