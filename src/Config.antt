-- ===== src/Config.antt =====
-- Package `config` (internal/config/config.go): `Load` over the environment's lookup. The parsers of
-- the standard library are parameters: strconv's for 16-bit and 64-bit numbers, time.ParseDuration
-- (in nanoseconds) and filepath.Clean.
pub mod Bounds
mod Tests
use costume_tree.Common.{
  ℕ, ◌+◌, ◌*◌, ◌^◌, Bool, true, false, not, ◌&&◌, ◌||◌, Option, none, some, ◌==◌, ltb, leb,
  if◌then◌else◌, Outcome, ok, err, and_then, Text, text, is_empty, ℤ, pos, negsuc,
}

-- The variables that `Load` reads.
pub data Variable : Type 0 where
  costume_tree_addr pg_host pg_user pg_password pg_port pg_database pg_sslmode : Variable
  db_max_open_conns costumetree_dir shutdown_timeout request_timeout max_body_bytes : Variable

-- What the messages say of a variable.
pub data ConfigError : Type 0 where
  must_not_be_empty required out_of_range parse must_be_positive : Variable → ConfigError

pub record Settings : Type 0 where
  pub address : Text
  pub host : Text
  pub port : ℕ
  pub user : Text
  pub password : Text
  pub database : Text
  pub sslmode : Text
  pub max_open_conns : ℕ
  pub directory : Text
  pub shutdown : ℕ
  pub request : ℕ
  pub body_bytes : ℕ

-- 24 << 20 and 64 << 20
abbrev pub default_max_body_bytes : ℕ
default_max_body_bytes = 24 * 2 ^ 20

abbrev pub max_configured_body_bytes : ℕ
max_configured_body_bytes = 64 * 2 ^ 20

abbrev pub second : ℕ
second = 1000000000

infixl 5 ◌>>=◌
abbrev ◌>>=◌ {ℓ κ} :
    {A : Type ℓ} {B : Type κ}
    → Outcome ConfigError A
    → (A → Outcome ConfigError B)
    → Outcome ConfigError B
m >>= f = and_then m f

-- A text that may be unset but not empty
unfoldable pub text_setting : Variable → Text → Option Text → Outcome ConfigError Text
text_setting name default none = ok default
text_setting name default (some value) =
    if is_empty value then err (must_not_be_empty name) else ok value

-- A round of the loop over the required variables
unfoldable pub required_setting : Variable → Option Text → Outcome ConfigError Text
required_setting name none = err (required name)
required_setting name (some value) = if is_empty value then err (required name) else ok value

-- What a parser has given, if it is a positive number up to a bound
unfoldable pub positive_up_to : Variable → ℕ → ℤ → Outcome ConfigError ℕ
positive_up_to name bound (pos n) = if n == 0 || ltb bound n then err (out_of_range name) else ok n
positive_up_to name bound (negsuc n) = err (out_of_range name)

module _ (parse_uint_16 : Text → Option ℕ) (parse_int_64 : Text → Option ℤ)
    (parse_duration : Text → Option ℤ) (clean : Text → Text) where
  unfoldable pub port_parsed : Option ℕ → Outcome ConfigError ℕ
  port_parsed none = err (out_of_range pg_port)
  port_parsed (some port) = if port == 0 then err (out_of_range pg_port) else ok port

  unfoldable pub port_setting : Option Text → Outcome ConfigError ℕ
  unfolding port_parsed
  port_setting none = ok 5432
  port_setting (some value) = port_parsed (parse_uint_16 value)

  unfoldable pub conns_parsed : Option ℤ → Outcome ConfigError ℕ
  conns_parsed (some (pos n)) = if n == 0 then err (out_of_range db_max_open_conns) else ok n
  conns_parsed _ = err (out_of_range db_max_open_conns)

  unfoldable pub conns_setting : Option Text → Outcome ConfigError ℕ
  unfolding conns_parsed
  conns_setting none = ok 20
  conns_setting (some value) = conns_parsed (parse_int_64 value)

  unfoldable pub directory_setting : Option Text → Outcome ConfigError Text
  directory_setting none = ok (text ".")
  directory_setting (some value) =
      if is_empty value then err (must_not_be_empty costumetree_dir) else ok (clean value)

  -- `parsePositiveDuration`, on what time.ParseDuration gives
  unfoldable pub positive_duration : Variable → Option ℤ → Outcome ConfigError ℕ
  positive_duration name none = err (parse name)
  positive_duration name (some (pos n)) = if n == 0 then err (must_be_positive name) else ok n
  positive_duration name (some (negsuc n)) = err (must_be_positive name)

  unfoldable pub duration_setting : Variable → ℕ → Option Text → Outcome ConfigError ℕ
  unfolding positive_duration
  duration_setting name default none = ok default
  duration_setting name default (some value) = positive_duration name (parse_duration value)

  unfoldable pub bytes_parsed : Option ℤ → Outcome ConfigError ℕ
  unfolding positive_up_to
  bytes_parsed none = err (parse max_body_bytes)
  bytes_parsed (some n) = positive_up_to max_body_bytes max_configured_body_bytes n

  unfoldable pub bytes_setting : Option Text → Outcome ConfigError ℕ
  unfolding bytes_parsed
  bytes_setting none = ok default_max_body_bytes
  bytes_setting (some value) = bytes_parsed (parse_int_64 value)

  unfoldable pub load : (Variable → Option Text) → Outcome ConfigError Settings
  load lookup = do
    address ← text_setting costume_tree_addr (text ":8080") (lookup costume_tree_addr)
    host ← required_setting pg_host (lookup pg_host)
    user ← required_setting pg_user (lookup pg_user)
    password ← required_setting pg_password (lookup pg_password)
    port ← port_setting (lookup pg_port)
    database ← text_setting pg_database (text "costume_tree") (lookup pg_database)
    sslmode ← text_setting pg_sslmode (text "prefer") (lookup pg_sslmode)
    max_open_conns ← conns_setting (lookup db_max_open_conns)
    directory ← directory_setting (lookup costumetree_dir)
    shutdown ← duration_setting shutdown_timeout (10 * second) (lookup shutdown_timeout)
    request ← duration_setting request_timeout (30 * second) (lookup request_timeout)
    body_bytes ← bytes_setting (lookup max_body_bytes)
    ok (record {
      address = address;
      host = host;
      port = port;
      user = user;
      password = password;
      database = database;
      sslmode = sslmode;
      max_open_conns = max_open_conns;
      directory = directory;
      shutdown = shutdown;
      request = request;
      body_bytes = body_bytes;
    })
