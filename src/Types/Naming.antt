-- ===== src/Types/Naming.antt =====
-- Type names: typeToString and recordType of lib/ProtoWriter/CPGTypeEmitter.cpp. The print of a
-- type by LLVM itself (`Type::print`) is the parameter `print_type` of the state.
use llvm2cpg.Prelude.{
  ℕ, zero, suc, String, Bool, true, false, Option, none, some, List, [], ◌∷◌, ◌++◌, ◌==◌,
  if◌then◌else◌, ◌<>◌, to_string, join, length,
}
use text.Mathlib.Text.{◌==◌ as str_eq}
use llvm2cpg.Types.{
  Ty, Tys, Struct, primitive, integer, pointer, array, vector, function, literal_struct, identified,
  nil, cons,
}

pub record TypeEmitter : Type 0 where
  -- how many bodies of unnamed identified structs may be nested in a name
  pub depth : ℕ
  pub structs : ℕ → Struct
  pub print_type : Ty → String
  pub canonical_names : ℕ → String
  pub canonical_opaque_names : List (ℕ × String)
  pub struct_member_names : List (String × List String)
  pub recorded_types : List (String × String)

unfoldable pub lookup {ℓ} : {V : Type ℓ} → ℕ → List (ℕ × V) → Option V
lookup k [] = none
lookup k ((j, v) ∷ rest) = if j == k then some v else lookup k rest

unfoldable pub lookup_text {ℓ} : {V : Type ℓ} → String → List (String × V) → Option V
lookup_text k [] = none
lookup_text k ((j, v) ∷ rest) = if str_eq j k then some v else lookup_text k rest

-- The name of an unnamed opaque struct is given when it is first asked for. C++14, which the build
-- asks for, leaves it open if `m[k] = "opaque" + m.size()` makes the entry before the size is
-- taken; here it is made after, as in C++17.
unfoldable pub found_opaque : ℕ → Option String → TypeEmitter → String × TypeEmitter
found_opaque address (some name) s = (name, s)
found_opaque address none s =
    let name = "opaque" <> to_string (length s.canonical_opaque_names) in
    (name, record s { canonical_opaque_names = (address, name) ∷ s.canonical_opaque_names })

unfoldable pub opaque_name : ℕ → TypeEmitter → String × TypeEmitter
unfolding found_opaque lookup
opaque_name address s = found_opaque address (lookup address s.canonical_opaque_names) s

abbrev pub struct_text : List String → String
struct_text types = "{ " <> join ", " types <> " }"

abbrev variadic : Bool → List String
variadic true = "..." ∷ []
variadic false = []

-- A body that an unnamed identified struct has is named by `bodies`.
module _ (bodies : List Ty → TypeEmitter → List String × TypeEmitter) where
  unfoldable pub unnamed_name : ℕ → Option (List Ty) → TypeEmitter → String × TypeEmitter
  unfolding opaque_name
  unnamed_name address none s = opaque_name address s
  unnamed_name address (some elements) s =
      let (names, s₁) = bodies elements s in (struct_text names, s₁)

  unfoldable pub identified_name :
      ℕ → Option String → Option (List Ty) → TypeEmitter → String × TypeEmitter
  unfolding unnamed_name
  identified_name address (some name) body s = (s.canonical_names address, s)
  identified_name address none body s = unnamed_name address body s

module _ (bodies : List Ty → TypeEmitter → List String × TypeEmitter) where
  unfoldable mutual
    unfolding identified_name

    pub name_of : Ty → TypeEmitter → String × TypeEmitter
    name_of (primitive p) s = (s.print_type (primitive p), s)
    name_of (integer w) s = (s.print_type (integer w), s)
    name_of (pointer t) s = let (name, s₁) = name_of t s in (name <> "*", s₁)
    name_of (array n t) s =
        let (name, s₁) = name_of t s in ("[" <> to_string n <> " x " <> name <> "]", s₁)
    name_of (vector n scalable t) s =
        let (name, s₁) = name_of t s in
        ("<" <> (if scalable then "vscale x " else "") <> to_string n <> " x " <> name <> ">", s₁)
    name_of (function result params is_var_arg) s =
        let (names, s₁) = names_of params s in
        let (name, s₂) = name_of result s₁ in
        (name <> " (" <> join ", " (names ++ variadic is_var_arg) <> ")", s₂)
    name_of (literal_struct address elements packed) s =
        let (names, s₁) = names_of elements s in (struct_text names, s₁)
    name_of (identified address) s =
        let struct = s.structs address in identified_name bodies address struct.name struct.body s

    pub names_of : Tys → TypeEmitter → List String × TypeEmitter
    names_of nil s = ([], s)
    names_of (cons t ts) s =
        let (name, s₁) = name_of t s in let (names, s₂) = names_of ts s₁ in (name ∷ names, s₂)

  unfoldable pub names_of_list : List Ty → TypeEmitter → List String × TypeEmitter
  unfolding name_of
  names_of_list [] s = ([], s)
  names_of_list (t ∷ ts) s =
      let (name, s₁) = name_of t s in let (names, s₂) = names_of_list ts s₁ in (name ∷ names, s₂)

-- Bodies within bodies, to the given depth.
unfoldable pub body_names : ℕ → List Ty → TypeEmitter → List String × TypeEmitter
unfolding names_of_list
body_names zero elements s = ([], s)
body_names (suc depth) elements s = names_of_list (body_names depth) elements s

unfoldable pub type_to_string : Ty → TypeEmitter → String × TypeEmitter
unfolding body_names name_of
type_to_string t s = name_of (body_names s.depth) t s

-- An entry that is there stays.
unfoldable pub record_found : String → String → Option String → TypeEmitter → TypeEmitter
record_found name location (some l) s = s
record_found name location none s = record s {
  recorded_types = (name, location) ∷ s.recorded_types;
}

unfoldable pub record_name : String → String → TypeEmitter → TypeEmitter
unfolding record_found lookup_text
record_name name location s = record_found name location (lookup_text name s.recorded_types) s

unfoldable pub record_type : Ty → String → TypeEmitter → String × TypeEmitter
unfolding record_name
record_type type location s =
    let (name, s₁) = type_to_string type s in (name, record_name name location s₁)

-- structMemberNames[name]: an absent entry reads as the empty list.
unfoldable pub get_struct_members : ℕ → TypeEmitter → List String × TypeEmitter
unfolding lookup_text
get_struct_members address s =
    let (name, s₁) = type_to_string (identified address) s in
    (elim (lookup_text name s₁.struct_member_names) [ some members ↦ members | none ↦ [] ], s₁)
