-- ===== src/Config/Tests.antt =====
-- A run of `Load` of internal/config/config.go with parsers that know one number.
use costume_tree.Common.{
  ℕ, ◌*◌, ◌^◌, ◌<◌, ◌≡◌, refl, Option, none, some, ok, Text, text, text_eq, is_empty, ℤ,
  if◌then◌else◌, arith, Bool-cases, inl, inr,
}
use costume_tree.Config
use costume_tree.Config.{
  Variable, Settings, pg_host, pg_user, pg_password, pg_port, second, default_max_body_bytes,
}
use costume_tree.Config.Bounds.{IsWithinBounds, load-IsWithinBounds}

abbrev parse_port : Text → Option ℕ
parse_port value = if text_eq value (text "6000") then some 6000 else none

parse_port-bound : (value : Text) (n : ℕ) → parse_port value ≡ some n → n < 2 ^ 16
parse_port-bound value n e = elim (Bool-cases (text_eq value (text "6000"))) [
  | inl h ↦ let same : 6000 ≡ n = cc (rw h at e) in omega arith
  | inr h ↦ let no = rw h at e in cc
]

abbrev parse_none : Text → Option ℤ
parse_none value = none

abbrev same : Text → Text
same value = value

abbrev environment : Variable → Option Text
environment pg_host = some (text "localhost")
environment pg_user = some (text "ann")
environment pg_password = some (text "pin")
environment pg_port = some (text "6000")
environment _ = none

abbrev loaded : Settings
loaded = record {
  address = text ":8080";
  host = text "localhost";
  port = 6000;
  user = text "ann";
  password = text "pin";
  database = text "costume_tree";
  sslmode = text "prefer";
  max_open_conns = 20;
  directory = text ".";
  shutdown = 10 * second;
  request = 30 * second;
  body_bytes = default_max_body_bytes;
}

load-environment : Config.load parse_port parse_none parse_none same environment ≡ ok loaded
unfolding Config.load Config.text_setting Config.required_setting Config.port_setting
    Config.conns_setting Config.directory_setting Config.duration_setting Config.bytes_setting
    is_empty text_eq
load-environment = refl

load-IsWithinBounds_example : IsWithinBounds loaded
load-IsWithinBounds_example =
    load-IsWithinBounds parse_port parse_none parse_none same parse_port-bound environment loaded
      load-environment
