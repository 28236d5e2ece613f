-- ===== src/Tool/Inputs.antt =====
-- Which files the tool takes (tools/llvm2cpg/llvm2cpgTool.cpp).
use llvm2cpg.Prelude.{
  ◌≡◌, refl, sym, subst, ap, ◌∙◌, String, Bool, true, false, Option, none, some, List, [], ◌∷◌,
  Bool-cases, ◌⊎◌, inl, inr, if◌then◌else◌,
}
use mathlib.Core.Option.{some-injective, none-ne-some}
use mathlib.Core.Bool.{false≢true}
use text.Mathlib.Text.{◌==◌ as str_eq}
use text.Mathlib.TextEquality.{eq_iff}
use llvm2cpg.Prelude.Each.{In, In-append, In-left, In-right}
use llvm2cpg.Tool.Kinds.{Fits, accepted-Fits, Fits-accepted}
use llvm2cpg.Tool.{
  Environment, insert, find_worklist, is_accepted, insert_real, insert_path, insert_paths,
  get_input_file_paths,
}

-- In the set after an insertion: the new path, and what was in it.
record Inserted (p : String) (l l' : List String) : Type 0 where
  new : In p l'
  old : (q : String) → In q l → In q l'
  only : (q : String) → In q l' → (q ≡ p) ⊎ In q l

insert_placed :
    (p q : String) (qs rest : List String)
    → Inserted p qs rest
    → (b : Bool) → Inserted p (q ∷ qs) (if b then p ∷ q ∷ qs else q ∷ rest)
insert_placed p q qs rest inserted true = record {
  new = inl refl;
  old = λ r i. inr i;
  only = λ r i. i;
}
insert_placed p q qs rest inserted false = record {
  new = inr inserted.new;
  old = λ r i. elim i [ inl e ↦ inl e | inr later ↦ inr (inserted.old r later) ];
  only = λ r i. elim i [
    | inl e ↦ inr (inl e)
    | inr later ↦ elim (inserted.only r later) [ inl e ↦ inl e | inr before ↦ inr (inr before) ]
  ];
}

insert-Inserted : (p : String) (l : List String) → Inserted p l (insert p l)
unfolding insert
insert-Inserted p [] = record {
  new = inl refl;
  old = λ q i. absurd i;
  only = λ q i. elim i [ inl e ↦ inl e | inr none_left ↦ absurd none_left ];
}
insert-Inserted p (q ∷ qs) = elim (Bool-cases (str_eq p q)) [
  | inl same ↦
      rw same (record { new = inl ((eq_iff p q).0 same); old = λ r i. i; only = λ r i. inr i })
  | inr differ ↦ rw differ (insert_placed p q qs (insert p qs) (insert-Inserted p qs) _)
]

-- A path that stands for the file `p`: no directory, and of an accepted kind.
abbrev Accepts : Environment → String → String → Type 0
Accepts e path p =
    (e.is_directory path ≡ false) × ((e.real_path path ≡ some p) × (is_accepted e p ≡ true))

module _ (e : Environment) where
  record Taken (Comes : String → Type 0) (files files' : List String) : Type 0 where
    sound : (p : String) → In p files' → Comes p ⊎ In p files
    kept : (p : String) → In p files → In p files'
    complete : (p : String) → Comes p → In p files'

  real-Taken :
      (real : Option String) (files : List String)
      → Taken (λ p. (real ≡ some p) × (is_accepted e p ≡ true)) files (insert_real e real files)
  real-Taken none files = record {
    sound = λ p i. inr i;
    kept = λ p i. i;
    complete = λ p c. absurd (none-ne-some p c.0);
  }
  real-Taken (some q) files = elim (Bool-cases (is_accepted e q)) [
    | inl accepted ↦
        let inserted = insert-Inserted q files in
        rw accepted (record {
          sound = λ p i. elim (inserted.only p i) [
            | inl same ↦ inl (ap some (sym same), ap (is_accepted e) same ∙ accepted)
            | inr before ↦ inr before
          ];
          kept = inserted.old;
          complete =
              λ p c. subst (λ t. In t (insert q files)) (some-injective q p c.0) inserted.new;
        })
    | inr refused ↦ rw refused (record {
      sound = λ p i. inr i;
      kept = λ p i. i;
      complete = λ p c.
          absurd (false≢true (sym refused ∙ ap (is_accepted e) (some-injective q p c.0) ∙ c.1));
    })
  ]

  path-Taken :
      (path : String) (files : List String)
      → Taken (Accepts e path) files (insert_path e path files)
  path-Taken path files = elim (Bool-cases (e.is_directory path)) [
    | inl directory ↦ rw directory (record {
      sound = λ p i. inr i;
      kept = λ p i. i;
      complete = λ p c. absurd (false≢true (sym c.0 ∙ directory));
    })
    | inr no_directory ↦
        let real = real-Taken (e.real_path path) files in
        rw no_directory (record {
          sound = λ p i. elim (real.sound p i) [
            | inl c ↦ inl (no_directory, c)
            | inr before ↦ inr before
          ];
          kept = real.kept;
          complete = λ p c. real.complete p c.1;
        })
  ]

  -- One of the paths stands for the file.
  abbrev Comes : List String → String → Type 0
  Comes paths p = (path : String) × (In path paths × Accepts e path p)

  paths-Taken : (paths files : List String) → Taken (Comes paths) files (insert_paths e paths files)
  unfolding insert_paths
  paths-Taken [] files = record {
    sound = λ p i. inr i;
    kept = λ p i. i;
    complete = λ p c. absurd c.1.0;
  }
  paths-Taken (path ∷ paths) files =
      let first = path-Taken path files in
      let rest = paths-Taken paths (insert_path e path files) in
      record {
        sound = λ p i. elim (rest.sound p i) [
          | inl c ↦ inl (c.0, (inr c.1.0, c.1.1))
          | inr before ↦ elim (first.sound p before) [
            | inl c ↦ inl (path, (inl refl, c))
            | inr old ↦ inr old
          ]
        ];
        kept = λ p i. rest.kept p (first.kept p i);
        complete = λ p c. elim c.1.0 [
          | inl same ↦ rest.kept p (first.complete p (subst (λ t. Accepts e t p) same c.1.1))
          | inr later ↦ rest.complete p (c.0, (later, c.1.1))
        ];
      }

-- A given path that is no directory, or one that is found below a given directory.
abbrev pub Given : Environment → List String → String → Type 0
Given e paths path =
    (In path paths × (e.is_directory path ≡ false))
    ⊎ ((d : String) × (In d paths × ((e.is_directory d ≡ true) × In path (e.scan d))))

Given-more :
    (e : Environment) (q : String) (paths : List String) (path : String)
    → Given e paths path
    → Given e (q ∷ paths) path
Given-more e q paths path (inl (i, no_one)) = inl (inr i, no_one)
Given-more e q paths path (inr (d, (i, more))) = inr (d, (inr i, more))

worklist-more :
    (e : Environment) (q : String) (paths : List String) (path : String)
    → In path (find_worklist e paths)
    → In path (find_worklist e (q ∷ paths))
unfolding find_worklist
worklist-more e q paths path i = elim (Bool-cases (e.is_directory q)) [
  | inl yes_one ↦ rw yes_one (In-right path (e.scan q) (find_worklist e paths) i)
  | inr no_one ↦ rw no_one (inr i)
]

-- The file is bitcode, a binary, or not identified and named as LLVM IR; and one of the paths
-- stands for it, which is no directory.
abbrev pub IsInputFile : Environment → List String → String → Type 0
IsInputFile e paths p =
    (path : String) × (Given e paths path
      × ((e.is_directory path ≡ false)
          × ((e.real_path path ≡ some p) × Fits (e.identify_magic p) p)))

worklist-Given :
    (e : Environment) (paths : List String) (path : String)
    → In path (find_worklist e paths)
    → Given e paths path
unfolding find_worklist
worklist-Given e [] path i = absurd i
worklist-Given e (q ∷ paths) path i = elim (Bool-cases (e.is_directory q)) [
  | inl yes_one ↦ elim (In-append path (e.scan q) (find_worklist e paths) (rw yes_one at i)) [
    | inl below ↦ inr (q, (inl refl, (yes_one, below)))
    | inr rest ↦ Given-more e q paths path (worklist-Given e paths path rest)
  ]
  | inr no_one ↦ elim (rw no_one at i) [
    | inl same ↦ inl (inl same, ap e.is_directory same ∙ no_one)
    | inr rest ↦ Given-more e q paths path (worklist-Given e paths path rest)
  ]
]

Given-worklist :
    (e : Environment) (paths : List String) (path : String)
    → Given e paths path
    → In path (find_worklist e paths)
unfolding find_worklist
Given-worklist e [] path (inl g) = absurd g.0
Given-worklist e [] path (inr g) = absurd g.1.0
Given-worklist e (q ∷ paths) path (inl (inl same, no_one)) =
    rw (sym (ap e.is_directory same) ∙ no_one) (inl same)
Given-worklist e (q ∷ paths) path (inl (inr i, no_one)) =
    worklist-more e q paths path (Given-worklist e paths path (inl (i, no_one)))
Given-worklist e (q ∷ paths) path (inr (d, (inl same, (yes_one, below)))) =
    rw (sym (ap e.is_directory same) ∙ yes_one)
      (In-left path (e.scan q) (find_worklist e paths) (subst (λ z. In path (e.scan z)) same below))
Given-worklist e (q ∷ paths) path (inr (d, (inr i, (yes_one, below)))) =
    worklist-more e q paths path (Given-worklist e paths path (inr (d, (i, (yes_one, below)))))

-- A file is among the input files of the tool if and only if one of the given paths that is no
-- directory, or a path that is found below a given directory and is none itself, stands for the
-- file, and the file is identified as bitcode, as an archive, as a kind of ELF or Mach-O, or as
-- unknown and its path ends with .ll.
pub get_input_file_paths-IsInputFile :
    (e : Environment) (paths : List String) (p : String)
    → (In p (get_input_file_paths e paths) → IsInputFile e paths p)
      × (IsInputFile e paths p → In p (get_input_file_paths e paths))
unfolding get_input_file_paths
get_input_file_paths-IsInputFile e paths p =
    let taken = paths-Taken e (find_worklist e paths) [] in
    (
      λ i. elim (taken.sound p i) [
        | inl (path, (at, (no_one, (real, accepted)))) ↦
            (path, (worklist-Given e paths path at, (no_one, (real, accepted-Fits e p accepted))))
        | inr nothing ↦ absurd nothing
      ],
      λ (path, (given, (no_one, (real, accepted)))).
          taken.complete p (
            path,
            (Given-worklist e paths path given, (no_one, (real, Fits-accepted e p accepted))),
          ),
    )
