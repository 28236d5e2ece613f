-- ===== src/Types.antt =====
-- LLVM types as this program reads them (llvm::Type), and the table of identified structs.
-- An identified struct is a reference into the table, which is how a type reaches itself.
pub mod Naming
pub mod Equality
pub mod Traversal
pub mod Fuel
pub mod Total
pub mod Numbering
pub mod Recording
pub mod Recursive
pub mod Comparator
pub mod Canonical
pub mod Cached
pub mod Grouping
pub mod Parts
pub mod Classes
pub mod Deduplicated
use llvm2cpg.Prelude.{ℕ, String, Bool, Option, List, [], ◌∷◌}

-- The type ids without operands, in the order of llvm::Type::TypeID; bfloat is there from LLVM 11 on.
pub data Primitive : Type 0 where
  void half bfloat float double x86_fp80 fp128 ppc_fp128 label metadata x86_mmx token : Primitive

mutual
  pub data Ty : Type 0 where
    primitive : Primitive → Ty
    integer : ℕ → Ty
    pointer : Ty → Ty
    array : ℕ → Ty → Ty
    vector : ℕ → Bool → Ty → Ty
    function : Ty → Tys → Bool → Ty
    literal_struct : ℕ → Tys → Bool → Ty
    identified : ℕ → Ty

  pub data Tys : Type 0 where
    nil : Tys
    cons : Ty → Tys → Tys

-- `body` is none for an opaque struct.
pub record Struct : Type 0 where
  pub name : Option String
  pub body : Option (List Ty)
  pub is_packed : Bool

unfoldable pub to_list : Tys → List Ty
to_list nil = []
to_list (cons t ts) = t ∷ to_list ts
