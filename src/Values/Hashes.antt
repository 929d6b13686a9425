-- ===== src/Values/Hashes.antt =====
-- Ruby values as the extension builds them, and `RHash::aset`: a key that is there is overwritten, a
-- new one comes last.
use microsandbox_rb.Common.{
  ℕ, ◌≡◌, refl, String, Bool, Option, none, some, List, [], ◌∷◌, if◌then◌else◌, arith,
}
use microsandbox_rb.Common.Int.{ℤ, pos}
use microsandbox_rb.Common.Text.{◌=?◌, eq_iff}
use microsandbox_rb.Options.Outside.{Outside}

module _ (o : Outside) where
  mutual
    pub data RubyValue : Type 0 where
      nil : RubyValue
      bool : Bool → RubyValue
      int : ℤ → RubyValue
      float : o.F64 → RubyValue
      str : String → RubyValue
      bytes : o.Bytes → RubyValue
      array : Items → RubyValue
      hash : Fields → RubyValue

    pub data Items : Type 0 where
      stop : Items
      item : RubyValue → Items → Items

    pub data Fields : Type 0 where
      end : Fields
      field : String → RubyValue → Fields → Fields

  unfoldable pub aset : String → RubyValue → Fields → Fields
  aset k v end = field k v end
  aset k v (field j w rest) = if j =? k then field k v rest else field j w (aset k v rest)

  unfoldable pub fetch : String → Fields → Option RubyValue
  fetch k end = none
  fetch k (field j w rest) = if j =? k then some w else fetch k rest

  -- What `RArray::push` makes of the values in turn.
  abbrev pub items : List RubyValue → Items
  items [] = stop
  items (v ∷ vs) = item v (items vs)

  -- A Hash after one `aset` for each entry.
  unfoldable pub set_all : Fields → List (String × RubyValue) → Fields
  unfolding aset
  set_all h [] = h
  set_all h ((k, v) ∷ rest) = set_all (aset k v h) rest

  abbrev pub hash_of : List (String × RubyValue) → RubyValue
  hash_of entries = hash (set_all end entries)

  -- An unsigned integer, and an optional value, which is nil when there is none.
  abbrev pub nat : ℕ → RubyValue
  nat n = int (pos n)

  abbrev pub or_nil {ℓ} : {A : Type ℓ} → (A → RubyValue) → Option A → RubyValue
  or_nil f none = nil
  or_nil f (some a) = f a

  pub fetch-aset :
      (k j : String) (v : RubyValue) (h : Fields)
      → fetch j (aset k v h) ≡ (if k =? j then some v else fetch j h)
  unfolding fetch aset
  fetch-aset k j v end = refl
  fetch-aset k j v (field i w rest) =
      ground (arith, eq_iff k j, eq_iff i k, eq_iff i j, fetch-aset k j v rest)
