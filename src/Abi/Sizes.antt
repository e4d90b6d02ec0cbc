-- ===== src/Abi/Sizes.antt =====
-- The sizes of ABI types against the sizes of their headers.
use fe.Prelude.{ℕ, ◌+◌, ◌≡◌, refl, ap, ◌∙◌, Bool, true, false, ◌&&◌, Option, none, some, arith}
use fe.Abi.{
  AbiType, AbiFields, u_int, int, address, bool, function, array, tuple, bytes, string, empty,
  field, wrap, is_static, all_static, header_size, fold_header, size, add_sizes, scaled, then_size,
}

-- The type is static, and no part of it is a function.
unfoldable mutual
  pub IsPadded : AbiType → Type 0
  IsPadded function = ⊥
  IsPadded (array elem_ty len) = IsPadded elem_ty
  IsPadded (tuple fields) = ArePadded fields
  IsPadded bytes = ⊥
  IsPadded string = ⊥
  IsPadded _ = Unit

  pub ArePadded : AbiFields → Type 0
  ArePadded empty = Unit
  ArePadded (field name ty fields) = IsPadded ty × ArePadded fields

mutual
  unfolding IsPadded is_static

  padded-is_static : (t : AbiType) → IsPadded t → is_static t ≡ true
  padded-is_static (array elem_ty len) h = padded-is_static elem_ty h
  padded-is_static (tuple fields) h = padded-all_static fields h
  padded-is_static function h = absurd h
  padded-is_static bytes h = absurd h
  padded-is_static string h = absurd h
  padded-is_static t h = refl

  padded-all_static : (fields : AbiFields) → ArePadded fields → all_static fields ≡ true
  padded-all_static empty h = refl
  padded-all_static (field name ty fields) h =
      rw (padded-is_static ty h.0) (padded-all_static fields h.1)

mutual
  unfolding IsPadded header_size size

  padded-size : (t : AbiType) → IsPadded t → size t ≡ some (header_size t)
  padded-size (array elem_ty len) h = rw (padded-size elem_ty h, padded-is_static elem_ty h) refl
  padded-size (tuple fields) h = rw (padded-all_static fields h) (padded-add_sizes fields 0 h)
  padded-size function h = absurd h
  padded-size bytes h = absurd h
  padded-size string h = absurd h
  padded-size t h = refl

  padded-add_sizes :
      (fields : AbiFields) (acc : ℕ)
      → ArePadded fields
      → add_sizes fields acc ≡ some (fold_header fields acc)
  padded-add_sizes empty acc h = refl
  padded-add_sizes (field name ty fields) acc h =
      let comm : acc + header_size ty ≡ header_size ty + acc = omega arith in
      rw (padded-size ty h.0) (
        padded-add_sizes fields (wrap (acc + header_size ty)) h.1
        ∙ ap (λ n. some (fold_header fields (wrap n))) comm)

abbrev pub is_some {ℓ} : {A : Type ℓ} → Option A → Bool
is_some none = false
is_some (some a) = true

is_some-scaled : (len : ℕ) (o : Option ℕ) → is_some (scaled len o) ≡ is_some o
is_some-scaled len none = refl
is_some-scaled len (some n) = refl

is_some-then :
    (o : Option ℕ) (f : ℕ → Option ℕ) (b : Bool)
    → ((n : ℕ) → is_some (f n) ≡ b)
    → is_some (then_size o f) ≡ (is_some o && b)
is_some-then none f b h = refl
is_some-then (some n) f b h = h n

mutual
  unfolding is_static size

  is_some-size : (t : AbiType) → is_some (size t) ≡ is_static t
  is_some-size (array elem_ty len) = is_some-scaled len (size elem_ty) ∙ is_some-size elem_ty
  is_some-size (tuple fields) = is_some-add_sizes fields 0
  is_some-size function = refl
  is_some-size bytes = refl
  is_some-size string = refl
  is_some-size (u_int bits) = refl
  is_some-size (int bits) = refl
  is_some-size address = refl
  is_some-size bool = refl

  is_some-add_sizes :
      (fields : AbiFields) (acc : ℕ) → is_some (add_sizes fields acc) ≡ all_static fields
  is_some-add_sizes empty acc = refl
  is_some-add_sizes (field name ty fields) acc =
      is_some-then (size ty) _ (all_static fields) (λ n. is_some-add_sizes fields (wrap (acc + n)))
      ∙ ap (λ b. b && all_static fields) (is_some-size ty)

dynamic-header_size : (t : AbiType) → is_static t ≡ false → header_size t ≡ 32
unfolding header_size is_static
dynamic-header_size (array elem_ty len) h = rw h refl
dynamic-header_size (tuple fields) h = rw h refl
dynamic-header_size (u_int bits) h = refl
dynamic-header_size (int bits) h = refl
dynamic-header_size address h = refl
dynamic-header_size bool h = refl
dynamic-header_size function h = refl
dynamic-header_size bytes h = refl
dynamic-header_size string h = refl

-- Exactly the static ABI types have a size; it is the size of the header where no part of the type
-- is a function, and the header of a type that is not static is one word.
pub size-header_size :
    (t : AbiType)
    → (is_some (size t) ≡ is_static t)
      × (IsPadded t → size t ≡ some (header_size t))
      × (is_static t ≡ false → header_size t ≡ 32)
size-header_size t = (is_some-size t, padded-size t, dynamic-header_size t)
