-- ===== src/Config/Bounds.antt =====
-- The settings that `Load` of internal/config/config.go accepts are within their bounds.
use costume_tree.Common.{
  ℕ, ◌*◌, ◌^◌, ◌≤◌, ◌<◌, ◌≡◌, refl, ap, subst, inl, inr, false, Option, none, some, ◌==◌, Outcome,
  ok, and_then-eq-ok, Text, text, is_empty, ℤ, pos, negsuc, arith, Bool-cases,
}
use costume_tree.Config.{
  Variable, ConfigError, Settings, max_configured_body_bytes, text_setting, required_setting,
  port_parsed, port_setting, conns_parsed, conns_setting, directory_setting, positive_duration,
  duration_setting, bytes_parsed, bytes_setting, load, second, costume_tree_addr, pg_host, pg_user,
  pg_password, pg_database, pg_sslmode, shutdown_timeout, request_timeout,
}

pub record IsWithinBounds (s : Settings) : Type 0 where
  pub address : is_empty s.address ≡ false
  pub host : is_empty s.host ≡ false
  pub user : is_empty s.user ≡ false
  pub password : is_empty s.password ≡ false
  pub database : is_empty s.database ≡ false
  pub sslmode : is_empty s.sslmode ≡ false
  pub port_positive : 0 < s.port
  pub port_bound : s.port < 2 ^ 16
  pub conns_positive : 0 < s.max_open_conns
  pub shutdown_positive : 0 < s.shutdown
  pub request_positive : 0 < s.request
  pub bytes_positive : 0 < s.body_bytes
  pub bytes_bound : s.body_bytes ≤ max_configured_body_bytes

text_setting-ok :
    (name : Variable) (default : Text) (o : Option Text) (v : Text)
    → is_empty default ≡ false
    → text_setting name default o ≡ ok v
    → is_empty v ≡ false
unfolding text_setting
text_setting-ok name default none v d e = ground arith
text_setting-ok name default (some value) v d e = ground arith

required_setting-ok :
    (name : Variable) (o : Option Text) (v : Text)
    → required_setting name o ≡ ok v
    → is_empty v ≡ false
unfolding required_setting
required_setting-ok name none v e = cc
required_setting-ok name (some value) v e = ground arith

ten_seconds-positive : 0 < 10 * second
ten_seconds-positive = omega arith

half_minute-positive : 0 < 30 * second
half_minute-positive = omega arith

ok-IsWithinBounds :
    (o : Outcome ConfigError Settings) (r s : Settings)
    → o ≡ ok r
    → o ≡ ok s
    → IsWithinBounds r
    → IsWithinBounds s
ok-IsWithinBounds o r s e f h = let same : r ≡ s = cc in subst IsWithinBounds same h

module _ (parse_uint_16 : Text → Option ℕ) (parse_int_64 : Text → Option ℤ)
    (parse_duration : Text → Option ℤ) (clean : Text → Text)
    (uint_16_bound : (value : Text) (n : ℕ) → parse_uint_16 value ≡ some n → n < 2 ^ 16) where
  port_parsed-ok :
      (o : Option ℕ) (v : ℕ)
      → port_parsed parse_uint_16 parse_int_64 parse_duration clean o ≡ ok v
      → (o ≡ some v) × (0 < v)
  unfolding port_parsed
  port_parsed-ok none v e = cc
  port_parsed-ok (some n) v e = elim (Bool-cases (n == 0)) [
    | inl h ↦ let no = rw h at e in cc
    | inr h ↦ let same : n ≡ v = cc (rw h at e) in (ap some same, ground arith)
  ]

  port_setting-ok :
      (o : Option Text) (v : ℕ)
      → port_setting parse_uint_16 parse_int_64 parse_duration clean o ≡ ok v
      → (0 < v) × (v < 2 ^ 16)
  unfolding port_setting
  port_setting-ok none v e = (ground arith, ground arith)
  port_setting-ok (some value) v e =
      let (parsed, positive) = port_parsed-ok (parse_uint_16 value) v e in
      (positive, uint_16_bound value v parsed)

  conns_setting-ok :
      (o : Option Text) (v : ℕ)
      → conns_setting parse_uint_16 parse_int_64 parse_duration clean o ≡ ok v
      → 0 < v
  unfolding conns_setting
  conns_setting-ok none v e = ground arith
  conns_setting-ok (some value) v e = positive (parse_int_64 value) v e
    where
      positive :
          (o : Option ℤ) (v : ℕ)
          → conns_parsed parse_uint_16 parse_int_64 parse_duration clean o ≡ ok v
          → 0 < v
      positive none v e = cc
      positive (some (pos n)) v e = ground arith
      positive (some (negsuc n)) v e = cc

  positive_duration-ok :
      (name : Variable) (o : Option ℤ) (v : ℕ)
      → positive_duration parse_uint_16 parse_int_64 parse_duration clean name o ≡ ok v
      → 0 < v
  unfolding positive_duration
  positive_duration-ok name none v e = cc
  positive_duration-ok name (some (pos n)) v e = ground arith
  positive_duration-ok name (some (negsuc n)) v e = cc

  duration_setting-ok :
      (name : Variable) (default : ℕ) (o : Option Text) (v : ℕ)
      → 0 < default
      → duration_setting parse_uint_16 parse_int_64 parse_duration clean name default o ≡ ok v
      → 0 < v
  unfolding duration_setting
  duration_setting-ok name default none v d e = ground arith
  duration_setting-ok name default (some value) v d e =
      positive_duration-ok name (parse_duration value) v e

  bytes_setting-ok :
      (o : Option Text) (v : ℕ)
      → bytes_setting parse_uint_16 parse_int_64 parse_duration clean o ≡ ok v
      → (0 < v) × (v ≤ max_configured_body_bytes)
  unfolding bytes_setting
  bytes_setting-ok none v e = (ground arith, ground arith)
  bytes_setting-ok (some value) v e = bounded (parse_int_64 value) v e
    where
      bounded :
          (o : Option ℤ) (v : ℕ)
          → bytes_parsed parse_uint_16 parse_int_64 parse_duration clean o ≡ ok v
          → (0 < v) × (v ≤ max_configured_body_bytes)
      bounded none v e = cc
      bounded (some (pos n)) v e = ground arith
      bounded (some (negsuc n)) v e = cc

  -- If a 16-bit number is what the parser of the port gives, the settings that `Load` accepts are
  -- within their bounds: no text is empty but perhaps the cleaned directory, the port is from 1 to
  -- 65535, the connections and both timeouts are positive, and a body has 1 byte to 64 MiB.
  pub load-IsWithinBounds :
      (lookup : Variable → Option Text) (s : Settings)
      → load parse_uint_16 parse_int_64 parse_duration clean lookup ≡ ok s
      → IsWithinBounds s
  unfolding load is_empty
  load-IsWithinBounds lookup s e =
      let (address, a, e₁) =
        and_then-eq-ok (text_setting costume_tree_addr (text ":8080") (lookup costume_tree_addr)) _
          e in
      let (host, h, e₂) = and_then-eq-ok (required_setting pg_host _) _ e₁ in
      let (user, u, e₃) = and_then-eq-ok (required_setting pg_user _) _ e₂ in
      let (password, w, e₄) = and_then-eq-ok (required_setting pg_password _) _ e₃ in
      let (port, p, e₅) = and_then-eq-ok (port_setting _ _ _ _ _) _ e₄ in
      let (database, d, e₆) =
        and_then-eq-ok (text_setting pg_database (text "costume_tree") (lookup pg_database)) _ e₅ in
      let (sslmode, m, e₇) =
        and_then-eq-ok (text_setting pg_sslmode (text "prefer") (lookup pg_sslmode)) _ e₆ in
      let (conns, c, e₈) = and_then-eq-ok (conns_setting _ _ _ _ _) _ e₇ in
      let (directory, r, e₉) = and_then-eq-ok (directory_setting _ _ _ _ _) _ e₈ in
      let (shutdown, t, e₁₀) =
        and_then-eq-ok (duration_setting _ _ _ _ shutdown_timeout _ _) _ e₉ in
      let (request, q, e₁₁) = and_then-eq-ok (duration_setting _ _ _ _ request_timeout _ _) _ e₁₀ in
      let (bytes, b, e₁₂) = and_then-eq-ok (bytes_setting _ _ _ _ _) _ e₁₁ in
      let (port_positive, port_bound) = port_setting-ok _ port p in
      let (bytes_positive, bytes_bound) = bytes_setting-ok _ bytes b in
      ok-IsWithinBounds _ _ s refl e₁₂ (record {
        address = text_setting-ok costume_tree_addr (text ":8080") _ address refl a;
        host = required_setting-ok _ _ host h;
        user = required_setting-ok _ _ user u;
        password = required_setting-ok _ _ password w;
        database = text_setting-ok pg_database (text "costume_tree") _ database refl d;
        sslmode = text_setting-ok pg_sslmode (text "prefer") _ sslmode refl m;
        port_positive = port_positive;
        port_bound = port_bound;
        conns_positive = conns_setting-ok _ conns c;
        shutdown_positive =
            duration_setting-ok shutdown_timeout (10 * second) _ shutdown ten_seconds-positive t;
        request_positive =
            duration_setting-ok request_timeout (30 * second) _ request half_minute-positive q;
        bytes_positive = bytes_positive;
        bytes_bound = bytes_bound;
      })
