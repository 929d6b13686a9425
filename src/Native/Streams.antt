-- ===== src/Native/Streams.antt =====
-- The streams: `LogStream` and `MetricsStream` (stream.rs), `FsReadStream` (fs_stream.rs) and the
-- progress of a `PullSession` (sandbox.rs).
use microsandbox_rb.Common.{Option, none, some, Result, ok, err}
use microsandbox_rb.Error.{RubyError, MicrosandboxError, to_ruby}
use microsandbox_rb.Runtime.Guard.{ForkGuarded}
use microsandbox_rb.Backend.Build.{Core}
use microsandbox_rb.Options.Outside.{Outside}
use microsandbox_rb.Values.Hashes.{RubyValue, nil, bytes, or_nil}
use microsandbox_rb.Values.Progress.{PullProgress, pull_progress_to_hash}
use microsandbox_rb.Values.Results.{LogEntry, log_entry_to_hash, SandboxMetrics, metrics_to_hash}
use microsandbox_rb.Native.Call.{Site, Call, shaped, method}
use microsandbox_rb.Native.Objects.{Objects, Given, plain}

module _ (o : Outside) (t : Objects) where
  pub data StreamRequest : Type 0 where
    next_entry : t.Logs → StreamRequest
    next_metrics : t.Metrics → StreamRequest
    next_chunk : t.ReadStream → StreamRequest
    next_progress : t.Pull → StreamRequest

  abbrev pub StreamReply : StreamRequest → Type 0
  StreamReply (next_entry _) = Option (Result MicrosandboxError (LogEntry o))
  StreamReply (next_metrics _) = Option (Result MicrosandboxError (SandboxMetrics o))
  StreamReply (next_chunk _) = Result MicrosandboxError (Option o.Bytes)
  StreamReply (next_progress _) = Option (PullProgress o)

module _ {core : Core} (o : Outside) (t : Objects) (site : Site core (StreamReply o t)) where
  abbrev pub Answer : Type 0
  Answer = Given core o t

  -- An item, an error, or nil at the end.
  unfoldable pub item_or_end :
      {A : Type 0}
      → (A → RubyValue o)
      → Option (Result MicrosandboxError A)
      → Result RubyError Answer
  unfolding to_ruby
  item_or_end f (some (ok a)) = ok (plain (f a))
  item_or_end f (some (err e)) = err (to_ruby e)
  item_or_end f none = ok (plain nil)

  unfoldable pub recv_log : ForkGuarded t.Logs → Call site Answer
  recv_log g =
      method site g (λ h. StreamRequest.next_entry h) (λ _. item_or_end (log_entry_to_hash o))

  unfoldable pub recv_metrics : ForkGuarded t.Metrics → Call site Answer
  recv_metrics g =
      method site g (λ h. StreamRequest.next_metrics h) (λ _. item_or_end (metrics_to_hash o))

  unfoldable pub recv_chunk : ForkGuarded t.ReadStream → Call site Answer
  recv_chunk g =
      method site g (λ h. StreamRequest.next_chunk h) (λ _. shaped (λ b. plain (or_nil o bytes b)))

  unfoldable pub recv_progress : ForkGuarded t.Pull → Call site Answer
  recv_progress g =
      method site g (λ h. StreamRequest.next_progress h)
        (λ _ p. ok (plain (or_nil o (pull_progress_to_hash o) p)))
