-- ===== src/Native/Sandbox/Files.antt =====
-- The methods of a live sandbox: its file system, SSH and attaching a terminal.
use microsandbox_rb.Common.{String, List, [], Result, ok, ◌>>=◌}
use microsandbox_rb.Error.{RubyError}
use microsandbox_rb.Runtime.Guard.{ForkGuarded}
use microsandbox_rb.Backend.Build.{Core}
use microsandbox_rb.Options.Outside.{Outside}
use microsandbox_rb.Options.Exec.{OptionCall, parse_attach, apply_attach}
use microsandbox_rb.Values.Hashes.{bool, int, str, bytes}
use microsandbox_rb.Values.Results.{fs_entry_to_hash, fs_metadata_to_hash, hash_array}
use microsandbox_rb.Native.Call.{Site, Call, shaped, method, method_with}
use microsandbox_rb.Native.Objects.{Objects, plain, read_stream, write_sink, ssh_client, ssh_server}
use microsandbox_rb.Native.SshOptions.{open_client_calls, prepare_server_calls}
use microsandbox_rb.Native.Sandbox.Requests.{SandboxRequest, SandboxReply}
use microsandbox_rb.Native.Sandbox.Class.{Answer, own, nothing}

module _ {core : Core} (o : Outside) (t : Objects) (site : Site core (SandboxReply o t)) where
  -- `AttachOpts::parse` and `apply`.
  abbrev pub attach_calls : List String → o.Hash → Result RubyError (List (OptionCall o))
  attach_calls args opts = parse_attach o args opts >>= λ p. ok (apply_attach o p)

  module _ (g : ForkGuarded t.Sandbox) where
    unfoldable pub fs_read : String → Call site (Answer o t site)
    fs_read path =
        method site g (λ i. SandboxRequest.fs_read i path) (λ _. shaped (λ b. plain (bytes b)))

    unfoldable pub fs_read_text : String → Call site (Answer o t site)
    fs_read_text path =
        method site g (λ i. SandboxRequest.fs_read_text i path) (λ _. shaped (λ s. plain (str s)))

    unfoldable pub fs_write : String → o.Bytes → Call site (Answer o t site)
    fs_write path content =
        method site g (λ i. SandboxRequest.fs_write i path content) (λ _. shaped (nothing o t site))

    unfoldable pub fs_list : String → Call site (Answer o t site)
    fs_list path =
        method site g (λ i. SandboxRequest.fs_list i path)
          (λ _. shaped (λ es. plain (hash_array o (fs_entry_to_hash o) es)))

    unfoldable pub fs_mkdir : String → Call site (Answer o t site)
    fs_mkdir path =
        method site g (λ i. SandboxRequest.fs_mkdir i path) (λ _. shaped (nothing o t site))

    unfoldable pub fs_remove : String → Call site (Answer o t site)
    fs_remove path =
        method site g (λ i. SandboxRequest.fs_remove i path) (λ _. shaped (nothing o t site))

    unfoldable pub fs_remove_dir : String → Call site (Answer o t site)
    fs_remove_dir path =
        method site g (λ i. SandboxRequest.fs_remove_dir i path) (λ _. shaped (nothing o t site))

    unfoldable pub fs_copy : String → String → Call site (Answer o t site)
    fs_copy src dst =
        method site g (λ i. SandboxRequest.fs_copy i src dst) (λ _. shaped (nothing o t site))

    unfoldable pub fs_rename : String → String → Call site (Answer o t site)
    fs_rename src dst =
        method site g (λ i. SandboxRequest.fs_rename i src dst) (λ _. shaped (nothing o t site))

    unfoldable pub fs_exists : String → Call site (Answer o t site)
    fs_exists path =
        method site g (λ i. SandboxRequest.fs_exists i path) (λ _. shaped (λ b. plain (bool b)))

    unfoldable pub fs_stat : String → Call site (Answer o t site)
    fs_stat path =
        method site g (λ i. SandboxRequest.fs_stat i path)
          (λ _. shaped (λ m. plain (fs_metadata_to_hash o m)))

    unfoldable pub fs_copy_from_host : String → String → Call site (Answer o t site)
    fs_copy_from_host host_path guest_path =
        method site g (λ i. SandboxRequest.copy_from_host i host_path guest_path)
          (λ _. shaped (nothing o t site))

    unfoldable pub fs_copy_to_host : String → String → Call site (Answer o t site)
    fs_copy_to_host guest_path host_path =
        method site g (λ i. SandboxRequest.copy_to_host i guest_path host_path)
          (λ _. shaped (nothing o t site))

    unfoldable pub fs_read_stream : String → Call site (Answer o t site)
    fs_read_stream path =
        method site g (λ i. SandboxRequest.fs_read_stream i path)
          (λ _. shaped (λ s. read_stream (own o t site "Microsandbox::FsReadStream" s)))

    unfoldable pub fs_write_stream : String → Call site (Answer o t site)
    fs_write_stream path =
        method site g (λ i. SandboxRequest.fs_write_stream i path)
          (λ _. shaped (λ s. write_sink (own o t site "Microsandbox::FsWriteSink" s)))

    unfoldable pub ssh_open_client : o.Hash → Call site (Answer o t site)
    ssh_open_client opts =
        method_with site g (open_client_calls o opts) (λ i. SandboxRequest.ssh_open_client i)
          (λ _ _. shaped (λ c. ssh_client (own o t site "Microsandbox::SshClient" c)))

    unfoldable pub ssh_prepare_server : o.Hash → Call site (Answer o t site)
    ssh_prepare_server opts =
        method_with site g (prepare_server_calls o opts) (λ i. SandboxRequest.ssh_prepare_server i)
          (λ _ _. shaped (λ c. ssh_server (own o t site "Microsandbox::SshServer" c)))

    unfoldable pub attach : String → List String → o.Hash → Call site (Answer o t site)
    attach cmd args opts =
        method_with site g (attach_calls args opts) (λ i. SandboxRequest.attach_with i cmd)
          (λ _ _. shaped (λ code. plain (int code)))

    unfoldable pub attach_shell : Call site (Answer o t site)
    attach_shell =
        method site g (λ i. SandboxRequest.attach_shell i) (λ _. shaped (λ code. plain (int code)))

    unfoldable pub attach_default : o.Hash → Call site (Answer o t site)
    attach_default opts =
        method_with site g (attach_calls [] opts) (λ i. SandboxRequest.attach_default_with i)
          (λ _ _. shaped (λ code. plain (int code)))
