-- ===== src/Native/Volume/Laws.antt =====
-- Every method of `VolumeFs`, at once.
use microsandbox_rb.Common.{◌≡◌, refl, false, err, String}
use microsandbox_rb.Common.Successes.{Ok, Ok-map, bind-Ok}
use microsandbox_rb.Error.{forked_handle}
use microsandbox_rb.Runtime.Nogvl.{returned}
use microsandbox_rb.Runtime.Identity.{identity_eq}
use microsandbox_rb.Runtime.Guard.{ForkGuarded}
use microsandbox_rb.Backend.Build.{Core}
use microsandbox_rb.Backend.State.{Backend}
use microsandbox_rb.Options.Outside.{Outside}
use microsandbox_rb.Options.NamedVolumes.{contained}
use microsandbox_rb.Native.Call.{Site, State}
use microsandbox_rb.Native.Objects.{Objects}
use microsandbox_rb.Native.Volume.Requests.{View, VolumeRequest, VolumeReply}
use microsandbox_rb.Native.Volume.Files.{both, view}
use microsandbox_rb.Native.Volume.Methods.{VolumeMethod, run}
use microsandbox_rb.Native.Volume.Segments.{IsContained, contained-IsContained}
use microsandbox_rb.Native.Shapes.{Reaches}
use microsandbox_rb.Native.Keeps.{Keeps, method_with-Keeps_checked}

module _ (core : Core) (o : Outside) where
  -- A request about the view `v` whose paths stay below the volume's root.
  abbrev pub StaysIn : View core → VolumeRequest core o → Type 0
  StaysIn v (VolumeRequest.create _ _) = ⊥
  StaysIn v (VolumeRequest.get_by_name _) = ⊥
  StaysIn v (VolumeRequest.remove _) = ⊥
  StaysIn v VolumeRequest.get_default = ⊥
  StaysIn v VolumeRequest.list = ⊥
  StaysIn v (VolumeRequest.read u p) = (u ≡ v) × IsContained p
  StaysIn v (VolumeRequest.read_to_string u p) = (u ≡ v) × IsContained p
  StaysIn v (VolumeRequest.list_files u p) = (u ≡ v) × IsContained p
  StaysIn v (VolumeRequest.mkdir u p) = (u ≡ v) × IsContained p
  StaysIn v (VolumeRequest.remove_file u p) = (u ≡ v) × IsContained p
  StaysIn v (VolumeRequest.remove_dir u p) = (u ≡ v) × IsContained p
  StaysIn v (VolumeRequest.exists u p) = (u ≡ v) × IsContained p
  StaysIn v (VolumeRequest.stat u p) = (u ≡ v) × IsContained p
  StaysIn v (VolumeRequest.write u p _) = (u ≡ v) × IsContained p
  StaysIn v (VolumeRequest.copy u p q) = (u ≡ v) × IsContained p × IsContained q
  StaysIn v (VolumeRequest.rename u p q) = (u ≡ v) × IsContained p × IsContained q

path-Ok :
    (P : String → Type 0) (path : String)
    → ((p : String) → IsContained p → P p)
    → Ok P (contained path)
path-Ok P path f = Ok-map IsContained P (contained path) f (contained-IsContained path)

both-Ok :
    (P : String × String → Type 0) (from to : String)
    → ((ps : String × String) → IsContained ps.0 → IsContained ps.1 → P ps)
    → Ok P (both from to)
unfolding both
both-Ok P from to f = bind-Ok P IsContained (contained from) _ (contained-IsContained from) (λ p hp.
    bind-Ok P IsContained (contained to) _ (contained-IsContained to) (λ q hq. f (p, q) hp hq))

module _ {core : Core} (o : Outside) (t : Objects) (site : Site core (VolumeReply core o))
    (volume : String) (g : ForkGuarded (Backend core)) where
  -- What one method keeps to.
  volume-Keeps :
      (m : VolumeMethod o)
      → Keeps site (StaysIn core o (view o t site volume g g.inner)) g (run o t site volume g m)
  unfolding run
  volume-Keeps (VolumeMethod.read a) =
      method_with-Keeps_checked site _ g _ _ _ (path-Ok _ a (λ _ h. (refl, h)))
  volume-Keeps (VolumeMethod.read_text a) =
      method_with-Keeps_checked site _ g _ _ _ (path-Ok _ a (λ _ h. (refl, h)))
  volume-Keeps (VolumeMethod.write a b) =
      method_with-Keeps_checked site _ g _ _ _ (path-Ok _ a (λ _ h. (refl, h)))
  volume-Keeps (VolumeMethod.list a) =
      method_with-Keeps_checked site _ g _ _ _ (path-Ok _ a (λ _ h. (refl, h)))
  volume-Keeps (VolumeMethod.mkdir a) =
      method_with-Keeps_checked site _ g _ _ _ (path-Ok _ a (λ _ h. (refl, h)))
  volume-Keeps (VolumeMethod.remove_file a) =
      method_with-Keeps_checked site _ g _ _ _ (path-Ok _ a (λ _ h. (refl, h)))
  volume-Keeps (VolumeMethod.remove_dir a) =
      method_with-Keeps_checked site _ g _ _ _ (path-Ok _ a (λ _ h. (refl, h)))
  volume-Keeps (VolumeMethod.exists a) =
      method_with-Keeps_checked site _ g _ _ _ (path-Ok _ a (λ _ h. (refl, h)))
  volume-Keeps (VolumeMethod.copy a b) =
      method_with-Keeps_checked site _ g _ _ _ (both-Ok _ a b (λ _ h k. (refl, h, k)))
  volume-Keeps (VolumeMethod.rename a b) =
      method_with-Keeps_checked site _ g _ _ _ (both-Ok _ a b (λ _ h k. (refl, h, k)))
  volume-Keeps (VolumeMethod.stat a) =
      method_with-Keeps_checked site _ g _ _ _ (path-Ok _ a (λ _ h. (refl, h)))

  -- In a process that did not make it, every method of a volume view raises a `ForkedHandleError`,
  -- and neither the backend nor the core is touched.
  pub volume-Refuses :
      (m : VolumeMethod o) (s : State site)
      → identity_eq g.owner site.cur ≡ false
      → run o t site volume g m s
        ≡ (returned (err (forked_handle g.class g.owner.pid site.cur.pid)), s)
  volume-Refuses m s foreign = (volume-Keeps m).refuses foreign s

  -- A method of a volume view either raises with the core as it was, or it has asked the core exactly
  -- once, on the backend that the view is bound to, for paths none of whose segments is `..`.
  pub volume-Reaches :
      (m : VolumeMethod o) (s : State site)
      → Reaches site (StaysIn core o (view o t site volume g g.inner)) s (run o t site volume g m s)
  volume-Reaches m s = (volume-Keeps m).reaches s
