-- ===== src/Options/RuleLists.antt =====
-- The protocol and port lists that `parse_rule` of sandbox.rs builds.
use microsandbox_rb.Common.{
  ℕ, ◌≡◌, refl, ◌∙◌, inl, inr, String, Bool, false, ◌||◌, List, [], ◌∷◌, ◌++◌, Result, ok, err, All,
  All-append, Bool-cases, arith, ◌==◌,
}
use microsandbox_rb.Common.Successes.{Ok, skip, bind-Ok}
use microsandbox_rb.Error.{RubyError}
use microsandbox_rb.Options.Outside.{Outside}
use microsandbox_rb.Options.Rules.{
  includes, push_new, distinct, Protocol, protocol_code, same_protocol, same_range, Rule,
  parse_rule, protocol_from_str,
}
use microsandbox_rb.Options.Ports.{PortRange, parse_port_range}
use microsandbox_rb.Options.PortBounds.{IsRange, parse_port_range-IsRange}

module _ {ℓ} {A : Type ℓ} (same : A → A → Bool) where
  -- No element is the same as one after it.
  abbrev pub IsDistinct : List A → Type 0
  IsDistinct [] = Unit
  IsDistinct (x ∷ xs) = (includes same x xs ≡ false) × IsDistinct xs

  module _ (same_sym : (x y : A) → same x y ≡ same y x) where
    includes-snoc :
        (y x : A) (xs : List A) → includes same y (xs ++ (x ∷ [])) ≡ includes same y xs || same y x
    unfolding includes
    includes-snoc y x [] = elim (Bool-cases (same y x)) [ inl e ↦ rw e refl | inr e ↦ rw e refl ]
    includes-snoc y x (z ∷ zs) = elim (Bool-cases (same y z)) [
      | inl e ↦ rw e refl
      | inr e ↦ rw e (includes-snoc y x zs)
    ]

    snoc-IsDistinct :
        (x : A) (xs : List A)
        → IsDistinct xs
        → includes same x xs ≡ false
        → IsDistinct (xs ++ (x ∷ []))
    unfolding includes
    snoc-IsDistinct x [] h e = (refl, tt)
    snoc-IsDistinct x (y ∷ ys) (hy, h) e = elim (Bool-cases (same x y)) [
      | inl t ↦ absurd (cc (rw t at e))
      | inr f ↦ (
        (includes-snoc y x ys ∙ rw (hy, same_sym y x, f) refl),
        snoc-IsDistinct x ys h (rw f at e),
      )
    ]

    push_new-IsDistinct : (x : A) (xs : List A) → IsDistinct xs → IsDistinct (push_new same x xs)
    unfolding push_new
    push_new-IsDistinct x xs h = elim (Bool-cases (includes same x xs)) [
      | inl e ↦ rw e h
      | inr e ↦ rw e (snoc-IsDistinct x xs h e)
    ]

    pub distinct-IsDistinct :
        (parse : String → Result RubyError A) (out : List A) (ts : List String)
        → IsDistinct out
        → Ok IsDistinct (distinct same parse out ts)
    unfolding distinct
    distinct-IsDistinct parse out [] h = h
    distinct-IsDistinct parse out (t ∷ ts) h =
        skip _ _ _
          (λ x. distinct-IsDistinct parse (push_new same x out) ts (push_new-IsDistinct x out h))

  push_new-All {κ} :
      (P : A → Type κ) (x : A) (xs : List A) → P x → All P xs → All P (push_new same x xs)
  unfolding push_new
  push_new-All P x xs hx h = elim (Bool-cases (includes same x xs)) [
    | inl e ↦ rw e h
    | inr e ↦ rw e (All-append P xs (x ∷ []) h (hx, tt))
  ]

  pub distinct-All {κ} :
      (P : A → Type κ) (parse : String → Result RubyError A)
      → ((t : String) → Ok P (parse t))
      → (out : List A) (ts : List String) → All P out
      → Ok (All P) (distinct same parse out ts)
  unfolding distinct
  distinct-All P parse hp out [] h = h
  distinct-All P parse hp out (t ∷ ts) h =
      bind-Ok _ P (parse t) _ (hp t)
        (λ x hx. distinct-All P parse hp (push_new same x out) ts (push_new-All P x out hx h))

==_sym : (m n : ℕ) → (m == n) ≡ (n == m)
==_sym m n = ground arith

same_protocol_sym : (p q : Protocol) → same_protocol p q ≡ same_protocol q p
unfolding same_protocol
same_protocol_sym p q = ==_sym (protocol_code p) (protocol_code q)

same_range_sym : (a b : PortRange) → same_range a b ≡ same_range b a
unfolding same_range
same_range_sym a b = rw (==_sym a.start b.start, ==_sym a.end b.end) refl

-- Two properties of one result.
Ok-both {ℓ κ ν μ} :
    {E : Type ℓ} {A : Type κ} (P : A → Type ν) (Q : A → Type μ) (m : Result E A)
    → Ok P m
    → Ok Q m
    → Ok (λ a. P a × Q a) m
Ok-both P Q (ok a) p q = (p, q)
Ok-both P Q (err e) p q = tt

module _ (o : Outside) where
  abbrev pub IsProper : Rule o → Type 0
  IsProper r =
      IsDistinct same_protocol r.protocols × (IsDistinct same_range r.ports × All IsRange r.ports)

  -- A rule that parses names no protocol twice and no port range twice, and each of its port ranges
  -- has 16-bit ends in order.
  pub parse_rule-IsProper : (rd : o.Hash) → Ok IsProper (parse_rule o rd)
  unfolding parse_rule
  parse_rule-IsProper rd = skip _ _ _ (λ act. skip _ _ _ (λ action. skip _ _ _ (λ dir.
      skip _ _ _ (λ direction. skip _ _ _ (λ kind. skip _ _ _ (λ raw. skip _ _ _ (λ destination.
        skip _ _ _ (λ ps.
          bind-Ok _ (IsDistinct same_protocol) (distinct same_protocol protocol_from_str [] ps) _
            (distinct-IsDistinct same_protocol same_protocol_sym protocol_from_str [] ps tt)
            (λ protocols hp. skip _ _ _ (λ qs.
              bind-Ok _ (λ ports. IsDistinct same_range ports × All IsRange ports)
                (distinct same_range (parse_port_range o) [] qs) _
                (Ok-both (IsDistinct same_range) (All IsRange) _
                  (distinct-IsDistinct same_range same_range_sym (parse_port_range o) [] qs tt)
                  (distinct-All same_range IsRange (parse_port_range o) (parse_port_range-IsRange o)
                    [] qs tt))
                (λ ports hq. (hp, hq))))))))))))
