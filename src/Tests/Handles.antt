-- ===== src/Tests/Handles.antt =====
-- The theorems on handles that are taken once, at a handle whose first call is interrupted.
use microsandbox_rb.Common.{
  String, true, ℕ, ◌+◌, ◌≡◌, ◌⊎◌, Option, none, some, List, [], ◌∷◌, Result, ok, err,
}
use microsandbox_rb.Error.{MicrosandboxError, RubyError, base_error, raised}
use microsandbox_rb.Runtime.Identity.{ProcessIdentity, identity_eq, to_bits}
use microsandbox_rb.Runtime.Guard.{ForkGuarded, guarded}
use microsandbox_rb.Runtime.Nogvl.{Run, value}
use microsandbox_rb.Backend.Build.{ladder}
use microsandbox_rb.Backend.State.{World}
use microsandbox_rb.Sessions.{Session, close_sink, pull_result}
use microsandbox_rb.Sessions.TakeOnce.{
  Refused, Consumed, joined, ended, pull_result-keeps, close_sink-once,
}
use microsandbox_rb.Sessions.Closing.{Client, Deed, used, shut, IsOnce, history, Visit, System}
use microsandbox_rb.Sessions.Closing.{history-IsOnce}
use microsandbox_rb.Sessions.Stdin.{sinks, sinks-once}
use microsandbox_rb.Tests.Fixtures.{core, parent, child, local_config, interrupting, patient}

abbrev guard : ForkGuarded (Unit {0})
guard = record { owner = parent; class = "Microsandbox::FsWriteSink"; inner = tt }

abbrev world : World core
world = record {
  slot = some (record { builder = parent; config = local_config });
  selection = ladder;
  owner = to_bits parent;
  next_scope = 1;
  scopes = [];
  dropped = [];
  leaked = [];
}

abbrev open_handle : Session ℕ ℕ
open_handle = record { held = some 3; outer = 0 }

abbrev send_eof : ℕ → ℕ → Run (Result MicrosandboxError (Unit {0})) × ℕ
send_eof h v = (value (ok tt), v + 1)

abbrev boot : ℕ → ℕ → Run (Result String (Result MicrosandboxError ℕ)) × ℕ
boot h v = (value (ok (ok h)), v + 1)

close_sink-once_example :
    let l = close_sink core parent true interrupting guard send_eof world open_handle in
    (Consumed core parent true interrupting send_eof
        (ok tt)
        (ended core parent true interrupting)
        open_handle
        l
      ⊎ Refused core parent true interrupting open_handle l)
    × ((close_sink core parent true interrupting guard send_eof world
          (record { held = none; outer = 0 })).session
        ≡ record { held = none; outer = 0 })
close_sink-once_example =
    close_sink-once core parent true interrupting guard send_eof world open_handle

pull_result-keeps_example :
    let l = pull_result core parent true patient guard boot world open_handle in
    Consumed core parent true patient boot
      (err (base_error "pull session result already taken" []))
      (joined core parent true patient)
      open_handle
      l
    ⊎ Refused core parent true patient open_handle l
pull_result-keeps_example = pull_result-keeps core parent true patient guard boot world open_handle

-- An SFTP-like session: a request is a number, which is also its answer.
abbrev client : Client ℕ (λ (q : ℕ). ℕ) ℕ
client = record { V = ℕ; perform = λ q h v. (value q, v + 1); closing = λ h v. (value 0, v + 1) }

abbrev after_use : ProcessIdentity → (q : ℕ) → Option ℕ → Result RubyError ℕ
after_use cur q none = err (raised "closed")
after_use cur q (some n) = ok n

abbrev after_close : Option ℕ → Result RubyError (Unit {0})
after_close r = ok tt

-- Used, used by a child, closed twice and used again.
abbrev visits : List (Visit client core guard after_use after_close × Deed ℕ)
visits =
    (record { cur = parent; env = true; ruby = patient }, used 7)
    ∷ (record { cur = child; env = true; ruby = patient }, used 8)
    ∷ (record { cur = parent; env = true; ruby = patient }, shut)
    ∷ (record { cur = parent; env = true; ruby = patient }, shut)
    ∷ (record { cur = parent; env = true; ruby = interrupting }, used 9)
    ∷ []

abbrev started : System client core guard after_use after_close
started = record {
  world = world;
  session = record { held = some 3; outer = record { inner = 0; deeds = [] } };
}

history-IsOnce_example :
    IsOnce client (history client core guard after_use after_close visits started).session
history-IsOnce_example = history-IsOnce client core guard after_use after_close visits started tt

sinks-once_example :
    sinks {K = ℕ} guard (child ∷ parent ∷ parent ∷ []) (some 5)
    ≡ record { owner = parent; class = "Microsandbox::ExecStdin"; inner = 5 } ∷ []
unfolding identity_eq guarded
sinks-once_example = sinks-once guard (child ∷ parent ∷ parent ∷ []) 5
