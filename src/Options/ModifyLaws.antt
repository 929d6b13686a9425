-- ===== src/Options/ModifyLaws.antt =====
-- The order of the pairs in a modification patch (`build_modify_patch` of sandbox.rs).
use microsandbox_rb.Common.{
  ℕ, ◌≡◌, refl, inl, inr, String, Bool, true, false, List, [], ◌∷◌, Bool-cases, arith,
}
use microsandbox_rb.Common.Successes.{Ok, skip}
use microsandbox_rb.Common.Text.{codes}
use microsandbox_rb.Options.Outside.{Outside}
use microsandbox_rb.Options.Modify.{
  codes_le, pair_le, insert, sort, ModificationPatch, build_modify_patch,
}
use microsandbox_rb.Backend.Build.{same_codes}

module _ {ℓ} {A : Type ℓ} (le : A → A → Bool) where
  abbrev pub IsBelow : A → List A → Type 0
  IsBelow x [] = Unit
  IsBelow x (y ∷ ys) = le x y ≡ true

  -- Each element is at most the next.
  abbrev pub IsSorted : List A → Type 0
  IsSorted [] = Unit
  IsSorted (x ∷ xs) = IsBelow x xs × IsSorted xs

  module _ (total : (x y : A) → le x y ≡ false → le y x ≡ true) where
    insert-IsBelow :
        (z x : A) (xs : List A) → le z x ≡ true → IsBelow z xs → IsBelow z (insert le x xs)
    unfolding insert
    insert-IsBelow z x [] h b = h
    insert-IsBelow z x (y ∷ ys) h b = elim (Bool-cases (le x y)) [ inl e ↦ rw e h | inr e ↦ rw e b ]

    insert-IsSorted : (x : A) (xs : List A) → IsSorted xs → IsSorted (insert le x xs)
    unfolding insert
    insert-IsSorted x [] h = (tt, tt)
    insert-IsSorted x (y ∷ ys) h = elim (Bool-cases (le x y)) [
      | inl e ↦ rw e (e, h)
      | inr e ↦ rw e (insert-IsBelow y x ys (total x y e) h.0, insert-IsSorted x ys h.1)
    ]

    pub sort-IsSorted : (xs : List A) → IsSorted (sort le xs)
    unfolding sort
    sort-IsSorted [] = tt
    sort-IsSorted (x ∷ xs) = insert-IsSorted x (sort le xs) (sort-IsSorted xs)

codes_le_total : (xs ys : List ℕ) → codes_le xs ys ≡ false → codes_le ys xs ≡ true
unfolding codes_le
codes_le_total [] ys e = absurd (cc)
codes_le_total (x ∷ xs) [] e = refl
codes_le_total (x ∷ xs) (y ∷ ys) e = ground (arith, codes_le_total xs ys)

same_codes_sym : (xs ys : List ℕ) → same_codes xs ys ≡ same_codes ys xs
unfolding same_codes
same_codes_sym [] [] = refl
same_codes_sym [] (y ∷ ys) = refl
same_codes_sym (x ∷ xs) [] = refl
same_codes_sym (x ∷ xs) (y ∷ ys) = ground (arith, same_codes_sym xs ys)

pair_le_total : (p q : String × String) → pair_le p q ≡ false → pair_le q p ≡ true
unfolding pair_le
pair_le_total (k, v) (l, w) e = elim (Bool-cases (same_codes (codes k) (codes l))) [
  | inl s ↦
      rw (same_codes_sym (codes l) (codes k), s) (codes_le_total (codes v) (codes w) (rw s at e))
  | inr s ↦
      rw (same_codes_sym (codes l) (codes k), s) (codes_le_total (codes k) (codes l) (rw s at e))
]

-- The pairs of a modification patch are in order.
abbrev pub IsOrdered : ModificationPatch → Type 0
IsOrdered p = IsSorted pair_le p.env × IsSorted pair_le p.labels

-- In a modification patch that parses, the environment pairs and the label pairs are sorted by name
-- and then by value, in whatever order the options' maps give them.
pub build_modify_patch-IsOrdered :
    (o : Outside) (opts : o.Hash) → Ok IsOrdered (build_modify_patch o opts)
unfolding build_modify_patch
build_modify_patch-IsOrdered o opts = skip _ _ _ (λ env. skip _ _ _ (λ labels. skip _ _ _ (λ a.
    skip _ _ _ (λ b. skip _ _ _ (λ c. skip _ _ _ (λ d. skip _ _ _ (λ e. skip _ _ _ (λ f.
      skip _ _ _ (λ g. skip _ _ _ (λ h. skip _ _ _ (λ i. skip _ _ _ (λ j. (
        sort-IsSorted pair_le pair_le_total env,
        sort-IsSorted pair_le pair_le_total labels,
      )))))))))))))
