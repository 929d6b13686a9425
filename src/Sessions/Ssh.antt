-- ===== src/Sessions/Ssh.antt =====
-- ssh.rs: the SSH and SFTP clients, sessions that are used and closed once, and the SSH server.
use microsandbox_rb.Common.{
  String, Bool, Option, none, some, List, [], ◌∷◌, ◌++◌, Result, ok, err, map_err,
}
use microsandbox_rb.Common.Int.{ℤ}
use microsandbox_rb.Error.{RubyError, MicrosandboxError, custom, base_error, to_ruby}
use microsandbox_rb.Runtime.Guard.{ForkGuarded, guarded}
use microsandbox_rb.Runtime.Identity.{ProcessIdentity}
use microsandbox_rb.Runtime.Nogvl.{Run, value, panicked}
use microsandbox_rb.Backend.Build.{Core}
use microsandbox_rb.Backend.State.{World}
use microsandbox_rb.Options.Outside.{Outside}
use microsandbox_rb.Options.Conv.{set}
use microsandbox_rb.Values.Hashes.{nil, int, str, bytes}
use microsandbox_rb.Values.Events.{SshOutput, ssh_output_to_hash}
use microsandbox_rb.Native.Objects.{Objects, Given, plain, sftp_client}
use microsandbox_rb.Sessions.{Left, closed_or}
use microsandbox_rb.Sessions.Closing.{Client, Handle, Visit, use_it, close_it}

unfoldable pub consumed : MicrosandboxError
consumed = custom "SSH session is already closed"

-- `guard.as_ref().ok_or_else(consumed)?`
abbrev pub opened : {A : Type 0} → Option (Result MicrosandboxError A) → Result MicrosandboxError A
opened none = err consumed
opened (some r) = r

abbrev pub shown : {A B : Type 0} → (A → B) → Result MicrosandboxError A → Result RubyError B
shown f (ok a) = ok (f a)
shown f (err e) = err (to_ruby e)

-- The value as Ruby gets it.
abbrev pub given : {A B : Type 0} → (A → B) → Result RubyError A → Result RubyError B
given f (ok a) = ok (f a)
given f (err e) = err e

pub data AttachCall : Type 0 where
  term detach_keys : String → AttachCall

unfoldable pub attach_calls : Option String → Option String → List AttachCall
unfolding set
attach_calls t k = set t term ++ set k detach_keys

-- `SftpClient#close`
abbrev pub sftp_closed : Option (Result String (Unit {0})) → Result RubyError (Unit {0})
sftp_closed none = ok tt
sftp_closed (some r) = map_err (λ e. base_error "SFTP error: {e}" (e ∷ [])) r

module _ (o : Outside) (t : Objects) where
  pub data SshRequest : Type 0 where
    exec_with : String → Bool → SshRequest
    attach_with : List AttachCall → SshRequest
    open_sftp : SshRequest

  abbrev pub SshReply : SshRequest → Type 0
  SshReply (exec_with _ _) = Result MicrosandboxError (SshOutput o)
  SshReply (attach_with _) = Result MicrosandboxError ℤ
  SshReply open_sftp = Result MicrosandboxError t.Sftp

  -- `SFTP error: {e}`, and the same of a session that is closed.
  abbrev pub sftp_str : String → RubyError
  sftp_str e = base_error "SFTP error: {e}" (e ∷ [])

  abbrev pub sftp_opened : {A : Type 0} → Option (Result String A) → Result RubyError A
  sftp_opened none = err (sftp_str "session closed")
  sftp_opened (some r) = map_err sftp_str r

  pub data SftpRequest : Type 0 where
    read mkdir remove_file remove_dir real_path read_link : String → SftpRequest
    write : String → o.Bytes → SftpRequest
    rename symlink : String → String → SftpRequest

  abbrev pub SftpReply : SftpRequest → Type 0
  SftpReply (read _) = Result String o.Bytes
  SftpReply (mkdir _) = Result String (Unit {0})
  SftpReply (remove_file _) = Result String (Unit {0})
  SftpReply (remove_dir _) = Result String (Unit {0})
  SftpReply (real_path _) = Result String String
  SftpReply (read_link _) = Result String String
  SftpReply (write _ _) = Result String (Unit {0})
  SftpReply (rename _ _) = Result String (Unit {0})
  SftpReply (symlink _ _) = Result String (Unit {0})

  -- A file that is written: made, filled and shut down, up to the first error.
  abbrev and_await :
      {A B V : Type 0}
      → Run (Result String A) × V
      → (A → V → Run (Result String B) × V)
      → Run (Result String B) × V
  and_await (value (ok a), v) f = f a v
  and_await (value (err e), v) f = (value (err e), v)
  and_await (panicked, v) f = (panicked, v)

  unfoldable pub write_file :
      {F V : Type 0}
      → (t.Sftp → String → V → Run (Result String F) × V)
      → (F → o.Bytes → V → Run (Result String (Unit {0})) × V)
      → (F → V → Run (Result String (Unit {0})) × V)
      → String
      → o.Bytes
      → t.Sftp
      → V
      → Run (Result String (Unit {0})) × V
  write_file create write_all shutdown path content h v =
      and_await (create h path v)
        (λ file v'. and_await (write_all file content v') (λ _ v''. shutdown file v''))

  module _ (core : Core) where
    abbrev pub Answer : Type 0
    Answer = Given core o t

    -- The ends of `exec`, `attach` and `sftp`, in the process `cur`.
    unfoldable pub after_ssh :
        ProcessIdentity → (q : SshRequest) → Option (SshReply q) → Result RubyError Answer
    unfolding ssh_output_to_hash guarded
    after_ssh cur (exec_with _ _) r = shown (λ a. plain (ssh_output_to_hash o a)) (opened r)
    after_ssh cur (attach_with _) r = shown (λ a. plain (int a)) (opened r)
    after_ssh cur open_sftp r =
        shown (λ a. sftp_client (guarded cur "Microsandbox::SftpClient" a)) (opened r)

    unfoldable pub after_sftp : (q : SftpRequest) → Option (SftpReply q) → Result RubyError Answer
    after_sftp (read _) r = given (λ a. plain (bytes a)) (sftp_opened r)
    after_sftp (mkdir _) r = given (λ _. plain nil) (sftp_opened r)
    after_sftp (remove_file _) r = given (λ _. plain nil) (sftp_opened r)
    after_sftp (remove_dir _) r = given (λ _. plain nil) (sftp_opened r)
    after_sftp (real_path _) r = given (λ a. plain (str a)) (sftp_opened r)
    after_sftp (read_link _) r = given (λ a. plain (str a)) (sftp_opened r)
    after_sftp (write _ _) r = given (λ _. plain nil) (sftp_opened r)
    after_sftp (rename _ _) r = given (λ _. plain nil) (sftp_opened r)
    after_sftp (symlink _ _) r = given (λ _. plain nil) (sftp_opened r)

  module _ (core : Core) (guard : ForkGuarded (Unit {0}))
      (client : Client t.Ssh SshReply (Result MicrosandboxError (Unit {0}))) where
    abbrev pub SshVisit : Type 0
    SshVisit = Visit client core guard (after_ssh core) closed_or

    abbrev pub SshLeft : SshVisit → Type 0 → Type 0
    SshLeft v Q = Left core v.cur v.env v.ruby Q (Handle client)

    unfoldable pub exec :
        String → Bool → (v : SshVisit) → World core → Handle client → SshLeft v (Answer core)
    unfolding use_it after_ssh
    exec command tty = use_it client core guard (after_ssh core) closed_or (exec_with command tty)

    unfoldable pub attach :
        Option String
        → Option String
        → (v : SshVisit) → World core
        → Handle client
        → SshLeft v (Answer core)
    unfolding use_it after_ssh attach_calls
    attach t_ k =
        use_it client core guard (after_ssh core) closed_or (attach_with (attach_calls t_ k))

    unfoldable pub sftp : (v : SshVisit) → World core → Handle client → SshLeft v (Answer core)
    unfolding use_it after_ssh
    sftp = use_it client core guard (after_ssh core) closed_or open_sftp

    unfoldable pub close : (v : SshVisit) → World core → Handle client → SshLeft v (Unit {0})
    unfolding close_it
    close = close_it client core guard (after_ssh core) closed_or

  module _ (core : Core) (guard : ForkGuarded (Unit {0}))
      (client : Client t.Sftp SftpReply (Result String (Unit {0}))) where
    abbrev after :
        ProcessIdentity → (q : SftpRequest) → Option (SftpReply q) → Result RubyError (Answer core)
    after cur = after_sftp core

    abbrev pub SftpVisit : Type 0
    SftpVisit = Visit client core guard after sftp_closed

    -- The methods of `SftpClient`, by the request that each makes.
    unfoldable pub sftp_call :
        SftpRequest
        → (v : SftpVisit) → World core
        → Handle client
        → Left core v.cur v.env v.ruby (Answer core) (Handle client)
    unfolding use_it after_sftp
    sftp_call q = use_it client core guard after sftp_closed q

    unfoldable pub sftp_close :
        (v : SftpVisit)
        → World core
        → Handle client
        → Left core v.cur v.env v.ruby (Unit {0}) (Handle client)
    unfolding close_it
    sftp_close = close_it client core guard after sftp_closed
