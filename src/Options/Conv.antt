-- ===== src/Options/Conv.antt =====
-- ext/microsandbox/src/conv.rs, and `secs_to_duration`.
use microsandbox_rb.Common.{
  map_err, ℕ, String, Bool, true, false, Option, none, some, List, [], ◌∷◌, Result, ok, err, ◌>>=◌,
  ok_or, each, if◌then◌else◌, traverse,
}
use microsandbox_rb.Error.{RubyError, base_error}
use microsandbox_rb.Options.Outside.{Outside}

-- `if let Some(v) = value { b = b.call(v) }`, and `if flag { b = b.call() }`, as the calls made.
unfoldable pub set {ℓ κ} : {A : Type ℓ} {C : Type κ} → Option A → (A → C) → List C
set none call = []
set (some v) call = call v ∷ []

unfoldable pub flag {ℓ} : {C : Type ℓ} → Bool → C → List C
flag true call = call ∷ []
flag false call = []

-- A test that fails is the error.
unfoldable pub checked {ℓ} : {E : Type ℓ} → Bool → E → Result E (Unit {0})
checked true e = ok tt
checked false e = err e

module _ (o : Outside) where
  -- A key that is present and not nil.
  unfoldable pub get : o.Hash → String → Option o.Value
  get hash key = elim (o.hash_get hash key) [
    | none ↦ none
    | some v ↦ if o.is_nil v then none else some v
  ]

  unfoldable pub opt {ℓ} :
      {A : Type ℓ} → (o.Value → Result RubyError A) → o.Hash → String → Result RubyError (Option A)
  unfolding get
  opt convert hash key = traverse convert (get hash key)

  unfoldable pub opt_or {ℓ} :
      {A : Type ℓ} → (o.Value → Result RubyError A) → A → o.Hash → String → Result RubyError A
  unfolding get
  opt_or convert default hash key = elim (get hash key) [ none ↦ ok default | some v ↦ convert v ]

  abbrev pub opt_string : o.Hash → String → Result RubyError (Option String)
  opt_string = opt o.to_string

  abbrev pub opt_bool : o.Hash → String → Result RubyError Bool
  opt_bool = opt_or o.to_bool false

  abbrev pub opt_u8 : o.Hash → String → Result RubyError (Option ℕ)
  opt_u8 = opt o.to_u8

  abbrev pub opt_u32 : o.Hash → String → Result RubyError (Option ℕ)
  opt_u32 = opt o.to_u32

  abbrev pub opt_u64 : o.Hash → String → Result RubyError (Option ℕ)
  opt_u64 = opt o.to_u64

  abbrev pub opt_flag : o.Hash → String → Result RubyError (Option Bool)
  opt_flag = opt o.to_bool

  abbrev pub opt_hash : o.Hash → String → Result RubyError (Option o.Hash)
  opt_hash = opt o.to_hash

  abbrev pub opt_f64 : o.Hash → String → Result RubyError (Option o.F64)
  opt_f64 = opt o.to_f64

  abbrev pub opt_string_map : o.Hash → String → Result RubyError (List (String × String))
  opt_string_map = opt_or o.to_string_map []

  abbrev pub opt_string_vec : o.Hash → String → Result RubyError (List String)
  opt_string_vec = opt_or o.to_strings []

  abbrev pub opt_port_map : o.Hash → String → Result RubyError (List (ℕ × ℕ))
  opt_port_map = opt_or o.to_port_map []

  unfoldable pub to_hashes : o.Value → Result RubyError (List o.Hash)
  unfolding each
  to_hashes v = do arr ← o.to_array v; each o.to_hash arr

  abbrev pub opt_hash_vec : o.Hash → String → Result RubyError (List o.Hash)
  opt_hash_vec = opt_or to_hashes []

  -- A key that the option needs, `ok_or_else`'s error given.
  abbrev pub required : o.Hash → String → RubyError → Result RubyError String
  required hash key e = do v ← opt_string hash key; ok_or e v

  unfoldable pub secs_to_duration : o.F64 → Result RubyError ℕ
  secs_to_duration secs =
      map_err
        (λ e.
          base_error
            "duration must be a non-negative, finite number of seconds in range (got {secs}: {e})"
            (o.show secs ∷ e ∷ []))
        (o.duration secs)
