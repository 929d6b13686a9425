-- ===== src/Native/Volume/Requests.antt =====
-- What named volumes and their file system views ask of the core, and the kinds of its answers.
use microsandbox_rb.Common.{String, Bool, List, Result}
use microsandbox_rb.Error.{MicrosandboxError}
use microsandbox_rb.Backend.Build.{Core}
use microsandbox_rb.Backend.State.{Backend}
use microsandbox_rb.Options.Outside.{Outside}
use microsandbox_rb.Options.NamedVolumes.{VolumeCall}
use microsandbox_rb.Values.Results.{FsEntry, FsMetadata}
use microsandbox_rb.Values.Stores.{VolumeHandle}

-- A view: the backend that it is bound to and the volume's name.
pub record View (core : Core) : Type 0 where
  pub backend : Backend core
  pub volume : String

module _ (core : Core) (o : Outside) where
  pub data VolumeRequest : Type 0 where
    create : String → List VolumeCall → VolumeRequest
    get_by_name remove : String → VolumeRequest
    get_default list : VolumeRequest
    read read_to_string list_files mkdir remove_file remove_dir exists stat :
        View core → String → VolumeRequest
    write : View core → String → o.Bytes → VolumeRequest
    copy rename : View core → String → String → VolumeRequest

  -- Of the created volume, its name and its path or why it has none.
  pub record CreatedVolume : Type 0 where
    pub name : String
    pub path : Result MicrosandboxError String

  abbrev pub VolumeReply : VolumeRequest → Type 0
  VolumeReply (create _ _) = Result MicrosandboxError CreatedVolume
  VolumeReply (get_by_name _) = Result MicrosandboxError (VolumeHandle o)
  VolumeReply (remove _) = Result MicrosandboxError (Unit {0})
  VolumeReply get_default = Result MicrosandboxError (VolumeHandle o)
  VolumeReply list = Result MicrosandboxError (List (VolumeHandle o))
  VolumeReply (read _ _) = Result MicrosandboxError o.Bytes
  VolumeReply (read_to_string _ _) = Result MicrosandboxError String
  VolumeReply (list_files _ _) = Result MicrosandboxError (List (FsEntry o))
  VolumeReply (mkdir _ _) = Result MicrosandboxError (Unit {0})
  VolumeReply (remove_file _ _) = Result MicrosandboxError (Unit {0})
  VolumeReply (remove_dir _ _) = Result MicrosandboxError (Unit {0})
  VolumeReply (exists _ _) = Result MicrosandboxError Bool
  VolumeReply (stat _ _) = Result MicrosandboxError (FsMetadata o)
  VolumeReply (write _ _ _) = Result MicrosandboxError (Unit {0})
  VolumeReply (copy _ _ _) = Result MicrosandboxError (Unit {0})
  VolumeReply (rename _ _ _) = Result MicrosandboxError (Unit {0})
