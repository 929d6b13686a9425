-- ===== src/Common/Successes.antt =====
-- What holds of the value of a result when there is one, through bind and loops.
use mathlib.Core.Option.{Option, none, some}
use mathlib.Core.List.{List, [], ◌∷◌, map}
use microsandbox_rb.Common.Results.{Result, ok, err, ◌>>=◌, each, traverse}
use microsandbox_rb.Common.Lists.{All}

abbrev pub Ok {ℓ κ ν} : {E : Type ℓ} {A : Type κ} → (A → Type ν) → Result E A → Type ν
Ok P (ok a) = P a
Ok P (err e) = Unit

-- The property for an optional value.
abbrev pub IfSome {ℓ κ} : {A : Type ℓ} → (A → Type κ) → Option A → Type κ
IfSome P none = Unit
IfSome P (some a) = P a

module _ {ℓ κ ν μ} {E : Type ℓ} {A : Type κ} {B : Type ν} (P : B → Type μ) where
  -- A step whose value does not matter.
  pub skip : (m : Result E A) (f : A → Result E B) → ((a : A) → Ok P (f a)) → Ok P (m >>= f)
  unfolding ◌>>=◌
  skip (ok a) f h = h a
  skip (err e) f h = tt

  -- A step whose value has a property that the rest needs.
  pub bind-Ok {ρ} :
      (Q : A → Type ρ) (m : Result E A) (f : A → Result E B)
      → Ok Q m
      → ((a : A) → Q a → Ok P (f a))
      → Ok P (m >>= f)
  unfolding ◌>>=◌
  bind-Ok Q (ok a) f hm h = h a hm
  bind-Ok Q (err e) f hm h = tt

  pub each-Ok :
      (f : A → Result E B) → ((a : A) → Ok P (f a)) → (xs : List A) → Ok (All P) (each f xs)
  unfolding each ◌>>=◌
  each-Ok f h [] = tt
  each-Ok f h (x ∷ xs) = cons (f x) (each f xs) (h x) (each-Ok f h xs)
    where
      cons :
          (m : Result E B) (ms : Result E (List B))
          → Ok P m
          → Ok (All P) ms
          → Ok (All P) (m >>= λ y. ms >>= λ ys. ok (y ∷ ys))
      cons (ok y) (ok ys) hy hs = (hy, hs)
      cons (ok y) (err e) hy hs = tt
      cons (err e) ms hy hs = tt

  pub traverse-Ok :
      (f : A → Result E B) → ((a : A) → Ok P (f a)) → (v : Option A) → Ok (IfSome P) (traverse f v)
  unfolding ◌>>=◌
  traverse-Ok f h none = tt
  traverse-Ok f h (some a) = one (f a) (h a)
    where
      one : (m : Result E B) → Ok P m → Ok (IfSome P) (m >>= λ b. ok (some b))
      one (ok b) hb = hb
      one (err e) hb = tt

-- Ok is monotone.
pub Ok-map {ℓ κ ν μ} :
    {E : Type ℓ} {A : Type κ} (P : A → Type ν) (Q : A → Type μ) (m : Result E A)
    → ((a : A) → P a → Q a)
    → Ok P m
    → Ok Q m
Ok-map P Q (ok a) f h = f a h
Ok-map P Q (err e) f h = tt

pub All-map {ℓ κ ν} :
    {A : Type ℓ} {B : Type κ} (P : B → Type ν) (f : A → B)
    → ((a : A) → P (f a))
    → (xs : List A) → All P (map f xs)
All-map P f h [] = tt
All-map P f h (x ∷ xs) = (h x, All-map P f h xs)

pub All-map-All {ℓ κ ν μ} :
    {A : Type ℓ} {B : Type κ} (Q : A → Type μ) (P : B → Type ν) (f : A → B)
    → ((a : A) → Q a → P (f a))
    → (xs : List A) → All Q xs
    → All P (map f xs)
All-map-All Q P f h [] hs = tt
All-map-All Q P f h (x ∷ xs) hs = (h x hs.0, All-map-All Q P f h xs hs.1)
