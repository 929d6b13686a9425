-- ===== src/Native/Volume/Segments.antt =====
-- What `contained` of volume.rs lets through, by the segments of a path.
use microsandbox_rb.Common.{
  ◌↔◌, ap, subst, length, ◌+◌, ℕ, ◌≡◌, refl, ◌≢◌, sym, inl, inr, String, Bool, true, false, ◌||◌,
  List, [], ◌∷◌, ok, All, if◌then◌else◌, ◌==◌, Bool-cases, arith,
}
use microsandbox_rb.Common.Successes.{Ok}
use microsandbox_rb.Common.Text.{codes}
use microsandbox_rb.Options.NamedVolumes.{is_parent, any_parent, contained}

or_false : (a b : Bool) → (a || b) ≡ false → (a ≡ false) × (b ≡ false)
or_false true b h = absurd (cc)
or_false false b h = (refl, h)

-- `xs` in reverse order before `ys`.
abbrev onto : List ℕ → List ℕ → List ℕ
onto [] ys = ys
onto (x ∷ xs) ys = onto xs (x ∷ ys)

abbrev onto_first : List ℕ → List (List ℕ) → List (List ℕ)
onto_first seg [] = onto seg [] ∷ []
onto_first seg (s ∷ ss) = onto seg s ∷ ss

-- A text's parts between slashes.
abbrev pub segments : List ℕ → List (List ℕ)
segments [] = [] ∷ []
segments (c ∷ cs) = if c == b'/' then [] ∷ segments cs else onto_first (c ∷ []) (segments cs)

abbrev pub dots : List ℕ
dots = b'.' ∷ b'.' ∷ []

-- No segment is `..`.
abbrev pub IsContained : String → Type 0
IsContained path = All (λ s. s ≢ dots) (segments (codes path))

length-onto : (xs ys : List ℕ) → length (onto xs ys) ≡ length xs + length ys
length-onto [] ys = omega arith
length-onto (x ∷ xs) ys = omega (arith, length-onto xs (x ∷ ys))

is_parent-onto : (s : List ℕ) → is_parent s ≡ false → onto s [] ≢ dots
unfolding is_parent
is_parent-onto [] h e = cc
is_parent-onto (c ∷ []) h e = cc
is_parent-onto (c ∷ d ∷ []) h e = ground arith
is_parent-onto (c ∷ d ∷ f ∷ rest) h e =
    omega (arith, length-onto rest (f ∷ d ∷ c ∷ []), ap (length {0}) e)

onto-is_parent : (s : List ℕ) → is_parent s ≡ true → onto s [] ≡ dots
unfolding is_parent
onto-is_parent [] h = absurd (cc)
onto-is_parent (c ∷ []) h = absurd (cc)
onto-is_parent (c ∷ d ∷ []) h = ground arith
onto-is_parent (c ∷ d ∷ f ∷ rest) h = absurd (cc)

onto_first_twice :
    (c : ℕ) (s : List ℕ) (ss : List (List ℕ))
    → onto_first s (onto_first (c ∷ []) ss) ≡ onto_first (c ∷ s) ss
onto_first_twice c s [] = refl
onto_first_twice c s (x ∷ xs) = refl

onto_first_keeps :
    (c : ℕ) (ss : List (List ℕ)) → onto_first [] (onto_first (c ∷ []) ss) ≡ onto_first (c ∷ []) ss
onto_first_keeps c [] = refl
onto_first_keeps c (x ∷ xs) = refl

onto_first-segments : (cs : List ℕ) → onto_first [] (segments cs) ≡ segments cs
onto_first-segments [] = refl
onto_first-segments (c ∷ cs) = elim (Bool-cases (c == b'/')) [
  | inl e ↦ rw e refl
  | inr e ↦ rw e (onto_first_keeps c (segments cs))
]

abbrev Contained : List (List ℕ) → Type 0
Contained = All (λ s. s ≢ dots)

any_parent-Contained :
    (s cs : List ℕ) → any_parent s cs ≡ false → Contained (onto_first s (segments cs))
unfolding any_parent
any_parent-Contained s [] h = (is_parent-onto s h, tt)
any_parent-Contained s (c ∷ cs) h = elim (Bool-cases (c == b'/')) [
  | inl e ↦
      let both : (is_parent s ≡ false) × (any_parent [] cs ≡ false) = or_false _ _ (rw e at h) in
      rw e (
        is_parent-onto s both.0,
        subst Contained (onto_first-segments cs) (any_parent-Contained [] cs both.1),
      )
  | inr e ↦ rw e (
      subst Contained (sym (onto_first_twice c s (segments cs)))
        (any_parent-Contained (c ∷ s) cs (rw e at h)))
]

Contained-any_parent :
    (s cs : List ℕ) → Contained (onto_first s (segments cs)) → any_parent s cs ≡ false
unfolding any_parent
Contained-any_parent s [] h = elim (Bool-cases (is_parent s)) [
  | inl e ↦ absurd (h.0 (onto-is_parent s e))
  | inr e ↦ e
]
Contained-any_parent s (c ∷ cs) h = elim (Bool-cases (c == b'/')) [
  | inl e ↦
      let both : (onto s [] ≢ dots) × Contained (segments cs) = rw e at h in
      rw e (elim (Bool-cases (is_parent s)) [
        | inl p ↦ absurd (both.0 (onto-is_parent s p))
        | inr p ↦
            rw p
              (Contained-any_parent [] cs (subst Contained (sym (onto_first-segments cs)) both.1))
      ])
  | inr e ↦
      let joined : Contained (onto_first s (onto_first (c ∷ []) (segments cs))) = rw e at h in
      rw e (
        Contained-any_parent (c ∷ s) cs
          (subst Contained (onto_first_twice c s (segments cs)) joined))
]

pub contained-IsContained : (path : String) → Ok IsContained (contained path)
unfolding contained
contained-IsContained path = elim (Bool-cases (any_parent [] (codes path))) [
  | inl e ↦ rw e tt
  | inr e ↦
      rw e (
        subst Contained (onto_first-segments (codes path)) (any_parent-Contained [] (codes path) e))
]

-- A volume path passes, unchanged, exactly when none of its segments is `..`.
pub contained_iff : (path : String) → (contained path ≡ ok path) ↔ IsContained path
unfolding contained
contained_iff path = (
  (λ h. subst (Ok IsContained) h (contained-IsContained path)),
  λ h.
      let e : any_parent [] (codes path) ≡ false =
        Contained-any_parent [] (codes path)
          (subst Contained (sym (onto_first-segments (codes path))) h) in
      rw e refl,
)
