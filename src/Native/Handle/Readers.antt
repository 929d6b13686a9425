-- ===== src/Native/Handle/Readers.antt =====
-- The readers of `SbHandle`, which peek at what the core's handle carries, in any process.
use microsandbox_rb.Common.{String, Option}
use microsandbox_rb.Runtime.Guard.{ForkGuarded, peek}
use microsandbox_rb.Options.Outside.{Outside}
use microsandbox_rb.Options.Enums.{SandboxStatus, sandbox_status_str}
use microsandbox_rb.Values.Hashes.{RubyValue, str, or_nil}
use microsandbox_rb.Values.Results.{ms}

-- What the core's handle answers without a round trip.
pub record Carried (o : Outside) (H : Type 0) : Type 0 where
  pub handle_name : H → String
  pub handle_id : H → String
  pub status_snapshot : H → SandboxStatus
  pub created_at : H → Option o.DateTime
  pub updated_at : H → Option o.DateTime
  pub stored_config : H → String

module _ (o : Outside) {H : Type 0} (carried : Carried o H) (g : ForkGuarded H) where
  abbrev pub name : RubyValue o
  name = str (carried.handle_name (peek g))

  abbrev pub id : RubyValue o
  id = str (carried.handle_id (peek g))

  unfoldable pub status : RubyValue o
  unfolding sandbox_status_str
  status = str (sandbox_status_str (carried.status_snapshot (peek g)))

  abbrev pub created_at_ms : RubyValue o
  created_at_ms = or_nil o (ms o) (carried.created_at (peek g))

  abbrev pub updated_at_ms : RubyValue o
  updated_at_ms = or_nil o (ms o) (carried.updated_at (peek g))

  abbrev pub config_json : RubyValue o
  config_json = str (carried.stored_config (peek g))
