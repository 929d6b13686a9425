-- ===== src/Native/Keeps.antt =====
-- What a method keeps to, all at once, from the shape that it has.
use microsandbox_rb.Common.{◌≡◌, false, Result}
use microsandbox_rb.Common.Successes.{Ok}
use microsandbox_rb.Error.{RubyError}
use microsandbox_rb.Runtime.Identity.{identity_eq}
use microsandbox_rb.Runtime.Guard.{ForkGuarded}
use microsandbox_rb.Backend.Build.{Core}
use microsandbox_rb.Native.Call.{Site, State, Call, method, method_with}
use microsandbox_rb.Native.Shapes.{
  Refuses, Reaches, method-Refuses, method_with-Refuses, method-Reaches,
  method_with-Reaches_checked, Ok-every,
}

module _ {core : Core} {Req : Type 0} {Reply : Req → Type 0} (site : Site core Reply) where
  module _ (P : Req → Type 0) {Q : Type 0} {H : Type 0} (g : ForkGuarded H) where
    pub record Keeps (m : Call site Q) : Type 0 where
      pub refuses : identity_eq g.owner site.cur ≡ false → Refuses site g m
      pub reaches : (s : State site) → Reaches site P s (m s)

    pub method-Keeps :
        (q : H → Req) (k : (h : H) → Reply (q h) → Result RubyError Q)
        → P (q g.inner)
        → Keeps (method site g q k)
    method-Keeps q k p = record {
      refuses = λ foreign. method-Refuses site g foreign q k;
      reaches = λ s. method-Reaches site P s g q k p;
    }

    module _ {A : Type 0} (p : Result RubyError A) where
      pub method_with-Keeps_checked :
          (q : H → A → Req) (k : (h : H) (a : A) → Reply (q h a) → Result RubyError Q)
          → Ok (λ a. P (q g.inner a)) p
          → Keeps (method_with site g p q k)
      method_with-Keeps_checked q k ph = record {
        refuses = λ foreign. method_with-Refuses site g foreign p q k;
        reaches = λ s. method_with-Reaches_checked site P s g p q k ph;
      }

      pub method_with-Keeps :
          (q : H → A → Req) (k : (h : H) (a : A) → Reply (q h a) → Result RubyError Q)
          → ((a : A) → P (q g.inner a))
          → Keeps (method_with site g p q k)
      method_with-Keeps q k ph = method_with-Keeps_checked q k (Ok-every site P p ph)
