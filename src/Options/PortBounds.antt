-- ===== src/Options/PortBounds.antt =====
-- What a port text can parse to (`parse_port_range` of sandbox.rs).
use microsandbox_rb.Common.{
  ℕ, ◌+◌, ◌*◌, ◌-◌, ◌≤◌, ◌<◌, ◌≡◌, refl, inl, inr, String, Bool, true, false, ◌&&◌, some, List, [],
  ◌∷◌, Bool-cases, Option-cases, arith, ltb, leb, ◌==◌,
}
use microsandbox_rb.Common.Successes.{Ok, bind-Ok}
use microsandbox_rb.Common.Text.{codes}
use microsandbox_rb.Error.{RubyError}
use microsandbox_rb.Options.Outside.{Outside}
use microsandbox_rb.Options.Conv.{checked}
use microsandbox_rb.Options.Ports.{
  PortRange, is_digit, u16_digits, parse_u16, parse_bound, parse_range, parse_port_range,
  split_once,
}
use microsandbox_rb.Backend.Build.{trim}

u16_digits_bound :
    (n : ℕ) (cs : List ℕ) → n < 65536 → (m : ℕ) → u16_digits n cs ≡ some m → m < 65536
unfolding u16_digits
u16_digits_bound n [] h m e = let same : n ≡ m = cc in rw (← same) h
u16_digits_bound n (c ∷ cs) h m e =
    elim (Bool-cases (is_digit c && ltb (n * 10 + (c - b'0')) 65536)) [
      | inl t ↦ u16_digits_bound (n * 10 + (c - b'0')) cs (ground arith) m (rw t at e)
      | inr f ↦ absurd (cc (rw f at e))
    ]

parse_u16_bound : (cs : List ℕ) (m : ℕ) → parse_u16 cs ≡ some m → m < 65536
unfolding parse_u16
parse_u16_bound [] m e = absurd (cc)
parse_u16_bound (c ∷ []) m e = u16_digits_bound 0 (c ∷ []) (omega arith) m e
parse_u16_bound (c ∷ d ∷ cs) m e = elim (Bool-cases (c == b'+')) [
  | inl t ↦ u16_digits_bound 0 (d ∷ cs) (omega arith) m (rw t at e)
  | inr f ↦ u16_digits_bound 0 (c ∷ d ∷ cs) (omega arith) m (rw f at e)
]

abbrev pub IsRange : PortRange → Type 0
IsRange r = (r.start ≤ r.end) × (r.end < 65536)

pub checked-Ok : (b : Bool) (e : RubyError) → Ok (λ _. b ≡ true) (checked b e)
unfolding checked
checked-Ok true e = refl
checked-Ok false e = tt

module _ (o : Outside) where
  parse_bound-Ok : (raw : String) (cs : List ℕ) → Ok (λ n. n < 65536) (parse_bound o raw cs)
  unfolding parse_bound
  parse_bound-Ok raw cs = elim (Option-cases (parse_u16 (trim o.is_whitespace cs))) [
    | inl e ↦ rw e tt
    | inr (m, e) ↦ rw e (parse_u16_bound (trim o.is_whitespace cs) m e)
  ]

  -- A port text that parses is a range of 16-bit ports whose low end does not exceed its high end.
  pub parse_port_range-IsRange : (raw : String) → Ok IsRange (parse_port_range o raw)
  unfolding parse_port_range parse_range
  parse_port_range-IsRange raw = elim (Option-cases (split_once b'-' (codes raw))) [
    | inl e ↦
        rw (e, parse_port_range)
          (bind-Ok _ (λ n. n < 65536) (parse_bound o raw (codes raw)) _
            (parse_bound-Ok raw (codes raw)) (λ p h. (omega arith, h)))
    | inr ((l, r), e) ↦
        rw (e, parse_port_range)
          (bind-Ok _ (λ n. n < 65536) (parse_bound o raw l) _ (parse_bound-Ok raw l)
            (λ lo hl.
              bind-Ok _ (λ n. n < 65536) (parse_bound o raw r) _ (parse_bound-Ok raw r)
                (λ hi hh.
                  bind-Ok _ (λ _. leb lo hi ≡ true) (checked (leb lo hi) _) _
                    (checked-Ok (leb lo hi) _) (λ _ le. (ground arith, hh)))))
  ]
