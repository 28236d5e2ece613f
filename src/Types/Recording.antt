-- ===== src/Types/Recording.antt =====
-- The recorded types (lib/ProtoWriter/CPGTypeEmitter.cpp): naming a type records nothing, and
-- recordType records its name.
use llvm2cpg.Prelude.{
  arith, sym, ℕ, zero, suc, ◌≡◌, refl, ap, ◌∙◌, String, false, Option, none, some, List, [], ◌∷◌,
  Bool-cases, inl, inr,
}
use text.Mathlib.Text.{◌==◌ as str_eq}
use text.Mathlib.TextEquality.{eq_iff}
use llvm2cpg.Types.{
  Ty, Tys, primitive, integer, pointer, array, vector, function, literal_struct, identified, nil,
  cons,
}
use llvm2cpg.Types.Naming.{
  TypeEmitter, lookup_text, found_opaque, opaque_name, unnamed_name, identified_name, name_of,
  names_of, names_of_list, body_names, type_to_string, record_found, record_name, record_type,
}

abbrev Same : TypeEmitter → TypeEmitter → Type 0
Same s s' = s'.recorded_types ≡ s.recorded_types

found-Same : (a : ℕ) (found : Option String) (s : TypeEmitter) → Same s (found_opaque a found s).1
unfolding found_opaque
found-Same a none s = refl
found-Same a (some name) s = refl

module _ (bodies : List Ty → TypeEmitter → List String × TypeEmitter)
    (keeps : (ts : List Ty) (s : TypeEmitter) → Same s (bodies ts s).1) where
  unnamed-Same :
      (a : ℕ) (body : Option (List Ty)) (s : TypeEmitter) → Same s (unnamed_name bodies a body s).1
  unfolding unnamed_name opaque_name
  unnamed-Same a none s = found-Same a _ s
  unnamed-Same a (some ts) s = keeps ts s

  identified-Same :
      (a : ℕ) (name : Option String) (body : Option (List Ty)) (s : TypeEmitter)
      → Same s (identified_name bodies a name body s).1
  unfolding identified_name
  identified-Same a none body s = unnamed-Same a body s
  identified-Same a (some name) body s = refl

  mutual
    unfolding name_of names_of

    name_Same : (t : Ty) (s : TypeEmitter) → Same s (name_of bodies t s).1
    name_Same (primitive p) s = refl
    name_Same (integer n) s = refl
    name_Same (pointer t) s = name_Same t s
    name_Same (array n t) s = name_Same t s
    name_Same (vector n b t) s = name_Same t s
    name_Same (function r ps b) s = name_Same r _ ∙ names_Same ps s
    name_Same (literal_struct a ts b) s = names_Same ts s
    name_Same (identified a) s = identified-Same a _ _ s

    names_Same : (ts : Tys) (s : TypeEmitter) → Same s (names_of bodies ts s).1
    names_Same nil s = refl
    names_Same (cons t ts) s = names_Same ts _ ∙ name_Same t s

  list_Same : (ts : List Ty) (s : TypeEmitter) → Same s (names_of_list bodies ts s).1
  unfolding names_of_list
  list_Same [] s = refl
  list_Same (t ∷ ts) s = list_Same ts _ ∙ name_Same t s

bodies-Same : (depth : ℕ) (ts : List Ty) (s : TypeEmitter) → Same s (body_names depth ts s).1
unfolding body_names
bodies-Same zero ts s = refl
bodies-Same (suc depth) ts s = list_Same (body_names depth) (bodies-Same depth) ts s

type_to_string-Same : (t : Ty) (s : TypeEmitter) → Same s (type_to_string t s).1
unfolding type_to_string
type_to_string-Same t s = name_Same (body_names s.depth) (bodies-Same s.depth) t s

-- An association that was made first stays.
abbrev Keeps : List (String × String) → List (String × String) → Type 0
Keeps l l' =
    (key location : String) → lookup_text key l ≡ some location → lookup_text key l' ≡ some location

pub lookup-new :
    (name location : String) (l : List (String × String))
    → lookup_text name ((name, location) ∷ l) ≡ some location
unfolding lookup_text
lookup-new name location l = rw ((eq_iff name name).1 refl) refl

lookup-old :
    (name key location : String) (l : List (String × String))
    → str_eq name key ≡ false
    → lookup_text key ((name, location) ∷ l) ≡ lookup_text key l
unfolding lookup_text
lookup-old name key location l e = rw e refl

pub new-Keeps :
    (name location : String) (l : List (String × String))
    → lookup_text name l ≡ none
    → Keeps l ((name, location) ∷ l)
new-Keeps name location l e key other h = elim (Bool-cases (str_eq name key)) [
  | inl same ↦
      let f = ap (λ k. lookup_text k l) ((eq_iff name key).0 same) in
      absurd (ground (arith, sym e ∙ f ∙ h))
  | inr differ ↦ lookup-old name key location l differ ∙ h
]

-- A name is in the table, and the older entries are as they were.
pub record Recorded (name : String) (s s' : TypeEmitter) : Type 0 where
  pub entry : (location : String) × (lookup_text name s'.recorded_types ≡ some location)
  pub kept : Keeps s.recorded_types s'.recorded_types

found-Recorded :
    (name location : String) (found : Option String) (s : TypeEmitter)
    → lookup_text name s.recorded_types ≡ found
    → Recorded name s (record_found name location found s)
unfolding record_found
found-Recorded name location (some l) s e = record { entry = (l, e); kept = λ key other h. h }
found-Recorded name location none s e = record {
  entry = (location, lookup-new name location s.recorded_types);
  kept = new-Keeps name location s.recorded_types e;
}

-- For every type, location and state, the name that recordType returns is in the table of
-- recorded types afterwards, and every name that was recorded before is there with the location
-- that it had.
pub record_type-Recorded :
    (t : Ty) (location : String) (s : TypeEmitter)
    → let (name, s₁) = record_type t location s in Recorded name s s₁
unfolding record_type record_name
record_type-Recorded t location s =
    let (name, s₁) = type_to_string t s in
    let k = found-Recorded name location (lookup_text name s₁.recorded_types) s₁ refl in
    record {
      entry = k.entry;
      kept = λ key other h.
          k.kept key other (ap (λ l. lookup_text key l) (type_to_string-Same t s) ∙ h);
    }
