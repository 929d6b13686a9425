-- ===== src/Options/Outside.antt =====
-- What the options code uses and does not implement: the Ruby values behind magnus with their
-- conversions, floats, the core's parsers, and the file system's view of paths.
use microsandbox_rb.Common.{ℕ, String, Bool, Option, List, Result}
use microsandbox_rb.Common.Int.{ℤ}
use microsandbox_rb.Error.{RubyError}

pub record Outside : Type 1 where
  pub Value : Type 0
  pub Hash : Type 0
  pub F64 : Type 0
  pub Bytes : Type 0
  pub DateTime : Type 0
  -- `RHash::get`, `Value::is_nil` and the `TryConvert`s.
  pub hash_get : Hash → String → Option Value
  pub is_nil : Value → Bool
  pub to_string : Value → Result RubyError String
  pub to_bool : Value → Result RubyError Bool
  pub to_u8 : Value → Result RubyError ℕ
  pub to_u32 : Value → Result RubyError ℕ
  pub to_u64 : Value → Result RubyError ℕ
  pub to_usize : Value → Result RubyError ℕ
  pub to_f64 : Value → Result RubyError F64
  pub to_bytes : Value → Result RubyError Bytes
  pub to_hash : Value → Result RubyError Hash
  pub to_array : Value → Result RubyError (List Value)
  pub to_strings : Value → Result RubyError (List String)
  pub to_u16s : Value → Result RubyError (List ℕ)
  pub to_string_map : Value → Result RubyError (List (String × String))
  pub to_port_map : Value → Result RubyError (List (ℕ × ℕ))
  pub to_limits : Value → Result RubyError (List (String × ℕ × ℕ))
  -- A float's `Display`; `Duration::try_from_secs_f64`, in nanoseconds; `ms_to_datetime`.
  pub show : F64 → String
  pub duration : F64 → Result String ℕ
  pub ms_to_datetime : F64 → Option DateTime
  -- `Duration::as_secs_f64`, of nanoseconds, and chrono's `timestamp_millis` and
  -- `parse_from_rfc3339`.
  pub as_secs_f64 : ℕ → F64
  pub timestamp_millis : DateTime → ℤ
  pub parse_rfc3339 : String → Option DateTime
  -- `as_bytes` of a text, and 0.0.
  pub text_bytes : String → Bytes
  pub zero_f64 : F64
  -- `f64::is_finite`, and the comparisons with 0.0: `t >= 0.0` and `t <= 0.0`.
  pub is_finite : F64 → Bool
  pub is_nonneg : F64 → Bool
  pub is_nonpos : F64 → Bool
  -- `FromStr` of the core's and the network crate's types, on code points; the error is its text.
  pub DiskImageFormat : Type 0
  pub Nameserver : Type 0
  pub Domain : Type 0
  pub Suffix : Type 0
  pub Cidr : Type 0
  pub LogCursor : Type 0
  pub disk_image_format : String → Result String DiskImageFormat
  pub nameserver : String → Result String Nameserver
  pub domain : List ℕ → Result String Domain
  pub domain_suffix : List ℕ → Result String Suffix
  pub cidr : List ℕ → Result String Cidr
  pub ipv4_network : String → Result String Cidr
  pub ipv6_network : String → Result String Cidr
  pub log_cursor : String → Result String LogCursor
  -- `IpAddr::from_str`, and its `IpNetwork::new` at the prefix 32 or 128.
  pub ip_cidr : List ℕ → Result String Cidr
  -- `char::is_whitespace`
  pub is_whitespace : ℕ → Bool
  -- `std::path::absolute`; whether a path is valid UTF-8; the local path (a directory or a disk
  -- image) that the core takes an `image` text for, when it does.
  pub absolute : String → Result String String
  pub is_utf8 : String → Bool
  pub local_rootfs : String → Option String
