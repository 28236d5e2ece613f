-- ===== src/Types/Recursive.antt =====
-- A struct without a name that reaches itself through a pointer: typeToString of
-- lib/ProtoWriter/CPGTypeEmitter.cpp follows its body again and again.
use llvm2cpg.Prelude.{ℕ, zero, suc, ◌≡◌, refl, ap, String, ◌<>◌, none, some, [], ◌∷◌, join}
use llvm2cpg.Types.{pointer, identified}
use llvm2cpg.Types.Naming.{
  TypeEmitter, unnamed_name, identified_name, name_of, names_of_list, body_names, type_to_string,
}

-- As many bodies within each other as the depth allows, around an empty one.
abbrev pub nested : ℕ → String
nested zero = "{  }"
nested (suc d) = "{ " <> (nested d <> "*") <> " }"

module _ (a : ℕ) where
  unnamed_nested :
      (d : ℕ) (s : TypeEmitter)
      → (s.structs a).name ≡ none
      → (s.structs a).body ≡ some (pointer (identified a) ∷ [])
      → (name_of (body_names d) (identified a) s).0 ≡ nested d
  unfolding name_of identified_name unnamed_name body_names names_of_list join
  unnamed_nested zero s e f = rw (e, f) refl
  unnamed_nested (suc d) s e f =
      rw (e, f) (ap (λ n. "{ " <> (n <> "*") <> " }") (unnamed_nested d s e f))

-- If a struct has no name and its only element is a pointer to itself, then for every depth
-- that bodies may be nested to, the name of the struct is that many bodies within each other
-- around an empty one: no depth is enough, so the recursion of the code does not end on such a
-- struct.
pub type_to_string-unnamed :
    (a : ℕ) (s : TypeEmitter)
    → (s.structs a).name ≡ none
    → (s.structs a).body ≡ some (pointer (identified a) ∷ [])
    → (type_to_string (identified a) s).0 ≡ nested s.depth
unfolding type_to_string
type_to_string-unnamed a s e f = unnamed_nested a s.depth s e f
