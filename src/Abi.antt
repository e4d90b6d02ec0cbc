-- ===== src/Abi.antt =====
-- The types of the contract ABI (crates/abi/src/types.rs) and their sizes.
pub mod Sizes
pub mod Mutability
use Prim.Native.Nat.{◌%◌, ◌^◌}
use fe.Prelude.{ℕ, ◌+◌, ◌*◌, Bool, true, false, ◌&&◌, Option, none, some, String, if◌then◌else◌}

mutual
  pub data AbiType : Type 0 where
    u_int : (bits : ℕ) → AbiType
    int : (bits : ℕ) → AbiType
    address bool function : AbiType
    array : (elem_ty : AbiType) (len : ℕ) → AbiType
    tuple : AbiFields → AbiType
    bytes string : AbiType

  -- A `Vec<AbiTupleField>`: each field's name and type, and the others.
  pub data AbiFields : Type 0 where
    empty : AbiFields
    field : (name : String) (ty : AbiType) → AbiFields → AbiFields

-- `usize` arithmetic wraps around.
abbrev pub wrap : ℕ → ℕ
wrap n = n % 2 ^ 64

unfoldable pub is_primitive : AbiType → Bool
is_primitive (u_int bits) = true
is_primitive (int bits) = true
is_primitive address = true
is_primitive bool = true
is_primitive _ = false

unfoldable mutual
  pub is_static : AbiType → Bool
  is_static (u_int bits) = true
  is_static (int bits) = true
  is_static address = true
  is_static bool = true
  is_static function = true
  is_static (array elem_ty len) = is_static elem_ty
  is_static (tuple fields) = all_static fields
  is_static bytes = false
  is_static string = false

  pub all_static : AbiFields → Bool
  all_static empty = true
  all_static (field name ty fields) = is_static ty && all_static fields

unfoldable mutual
  unfolding is_static

  pub header_size : AbiType → ℕ
  header_size (u_int bits) = 32
  header_size (int bits) = 32
  header_size address = 32
  header_size bool = 32
  header_size function = 32
  header_size (array elem_ty len) =
      let elems = wrap (header_size elem_ty * len) in if is_static elem_ty then elems else 32
  header_size (tuple fields) =
      let sum = fold_header fields 0 in if all_static fields then sum else 32
  header_size bytes = 32
  header_size string = 32

  pub fold_header : AbiFields → ℕ → ℕ
  fold_header empty acc = acc
  fold_header (field name ty fields) acc = fold_header fields (wrap (header_size ty + acc))

abbrev pub then_size : Option ℕ → (ℕ → Option ℕ) → Option ℕ
then_size none f = none
then_size (some n) f = f n

abbrev pub scaled : ℕ → Option ℕ → Option ℕ
scaled len none = none
scaled len (some n) = some (wrap (n * len))

unfoldable mutual
  pub size : AbiType → Option ℕ
  size (u_int bits) = some 32
  size (int bits) = some 32
  size address = some 32
  size bool = some 32
  size function = some 24
  size (array elem_ty len) = scaled len (size elem_ty)
  size (tuple fields) = add_sizes fields 0
  size bytes = none
  size string = none

  -- The loop over the fields, from the size so far; a field of no size ends it.
  pub add_sizes : AbiFields → ℕ → Option ℕ
  add_sizes empty acc = some acc
  add_sizes (field name ty fields) acc =
      then_size (size ty) (λ n. add_sizes fields (wrap (acc + n)))
