-- ===== src/Types.antt =====
-- The analyzer's types (crates/analyzer/src/namespace/types.rs) and what the database holds of
-- enums and structs (crates/analyzer/src/namespace/items.rs).
use fe.Prelude.{ℕ, String, List}

pub data Integer : Type 0 where
  u256 u128 u64 u32 u16 u8 i256 i128 i64 i32 i16 i8 : Integer

pub data Base : Type 0 where
  numeric : Integer → Base
  bool address unit : Base

-- Interned keys.
abbrev pub TypeId : Type 0
TypeId = ℕ

abbrev pub EnumId : Type 0
EnumId = ℕ

abbrev pub StructId : Type 0
StructId = ℕ

abbrev pub ContractId : Type 0
ContractId = ℕ

abbrev pub TraitId : Type 0
TraitId = ℕ

pub data TraitOrType : Type 0 where
  trait_id : TraitId → TraitOrType
  type_id : TypeId → TraitOrType

-- `Type` of types.rs.
pub data TypeKind : Type 0 where
  base : Base → TypeKind
  array : (size : ℕ) (inner : TypeId) → TypeKind
  map : (key value : TypeId) → TypeKind
  tuple : (items : List TypeId) → TypeKind
  string : (max_size : ℕ) → TypeKind
  contract : ContractId → TypeKind
  self_contract : ContractId → TypeKind
  self_type : TraitOrType → TypeKind
  struct : StructId → TypeKind
  enum : EnumId → TypeKind
  generic : (name : String) (bounds : List TraitId) → TypeKind
  sptr : TypeId → TypeKind
  mut : TypeId → TypeKind

pub data EnumVariantKind : Type 0 where
  unit : EnumVariantKind
  tuple : List TypeId → EnumVariantKind

-- The queries of `AnalyzerDb` that pattern analysis makes. A variant is its enum and its place in
-- the enum's `variants`; a struct's fields are listed in the order of their definition.
pub record AnalyzerDb : Type 0 where
  pub lookup_intern_type : TypeId → TypeKind
  pub enum_variants : EnumId → List EnumVariantKind
  pub struct_fields : StructId → List TypeId

-- `TypeId::typ`
abbrev pub typ : AnalyzerDb → TypeId → TypeKind
typ db t = db.lookup_intern_type t
