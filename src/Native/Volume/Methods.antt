-- ===== src/Native/Volume/Methods.antt =====
-- The methods that `define` of volume.rs registers for `VolumeFs`.
use microsandbox_rb.Common.{String}
use microsandbox_rb.Runtime.Guard.{ForkGuarded}
use microsandbox_rb.Backend.Build.{Core}
use microsandbox_rb.Backend.State.{Backend}
use microsandbox_rb.Options.Outside.{Outside}
use microsandbox_rb.Native.Call.{Site, Call}
use microsandbox_rb.Native.Objects.{Objects}
use microsandbox_rb.Native.Volume.Requests.{VolumeReply}
use microsandbox_rb.Native.Volume.Class.{Answer}
use microsandbox_rb.Native.Volume.Files

pub data VolumeMethod (o : Outside) : Type 0 where
  read : String → VolumeMethod o
  read_text : String → VolumeMethod o
  write : String → o.Bytes → VolumeMethod o
  list : String → VolumeMethod o
  mkdir : String → VolumeMethod o
  remove_file : String → VolumeMethod o
  remove_dir : String → VolumeMethod o
  exists : String → VolumeMethod o
  copy : String → String → VolumeMethod o
  rename : String → String → VolumeMethod o
  stat : String → VolumeMethod o

module _ {core : Core} (o : Outside) (t : Objects) (site : Site core (VolumeReply core o))
    (volume : String) (g : ForkGuarded (Backend core)) where
  unfoldable pub run : VolumeMethod o → Call site (Answer o t site)
  unfolding Files.read Files.read_text Files.write Files.list Files.mkdir Files.remove_file
      Files.remove_dir Files.exists Files.copy Files.rename Files.stat
  run (read a) = Files.read o t site volume g a
  run (read_text a) = Files.read_text o t site volume g a
  run (write a b) = Files.write o t site volume g a b
  run (list a) = Files.list o t site volume g a
  run (mkdir a) = Files.mkdir o t site volume g a
  run (remove_file a) = Files.remove_file o t site volume g a
  run (remove_dir a) = Files.remove_dir o t site volume g a
  run (exists a) = Files.exists o t site volume g a
  run (copy a b) = Files.copy o t site volume g a b
  run (rename a b) = Files.rename o t site volume g a b
  run (stat a) = Files.stat o t site volume g a
