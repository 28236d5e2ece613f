-- ===== src/Transforms/Marked.antt =====
-- The metadata of inlineGlobalStrings (lib/Transforms/Transforms.cpp): one entry for each operand.
use llvm2cpg.Prelude.{
  ℕ, ◌≡◌, refl, sym, ap, ◌∙◌, subst, true, Option, some, List, [], ◌∷◌, ◌==◌, ==→eq, Bool-cases,
  inl, inr,
}
use mathlib.Core.Option.{some-injective, none-ne-some}
use llvm2cpg.Prelude.Chain.{◌>>=◌, bind-some}
use llvm2cpg.Prelude.Each.{In}
use llvm2cpg.Types.Naming.{lookup}
use llvm2cpg.Transforms.{
  Bitcode, Inlines, InlineInstructions, operands, inline_user, inline_users, find_inlines,
  find_instructions, strings_of_operands, payloads, inline_global_strings,
}
use llvm2cpg.Transforms.Inlined.{
  found_string, Inlined, direct, wrapped, Has, Grows, Grows-refl, Grows-trans, Meant, Meant-later,
  inline_user-Grows, TakesString-no_wrapper, TakesString-user, StandsFor-wrapper,
}

module _ (m : Bitcode) (inlines : Inlines) where
  users-Grows :
      (g c : ℕ) (us : List ℕ) (f : InlineInstructions)
      → In (g, c) inlines
      → ((u : ℕ) → In u us → In u (m.users g))
      → Grows m inlines f (inline_users m g c us f)
        × ((u : ℕ) → In u us → Meant m inlines g c u (inline_users m g c us f))
  unfolding inline_users
  users-Grows g c [] f at among = (Grows-refl m inlines f, λ u k. absurd k)
  users-Grows g c (u ∷ us) f at among =
      let f₁ = inline_user m g c u f in
      let first = inline_user-Grows m inlines g c u f at (among u (inl refl)) in
      let rest = users-Grows g c us f₁ at (λ v k. among v (inr k)) in
      let f₂ = inline_users m g c us f₁ in
      (
        Grows-trans m inlines f f₁ f₂ first.0 rest.0,
        λ v k. elim k [
          | inl e ↦
              subst (λ t. Meant m inlines g c t f₂) (sym e)
                (Meant-later m inlines g c u f₁ f₂ rest.0 first.1)
          | inr later ↦ rest.1 v later
        ],
      )

  abbrev AllMeant : Inlines → InlineInstructions → Type 0
  AllMeant l f = (g c : ℕ) → In (g, c) l → (u : ℕ) → In u (m.users g) → Meant m inlines g c u f

  find-Grows :
      (l : Inlines) (f : InlineInstructions)
      → ((g c : ℕ) → In (g, c) l → In (g, c) inlines)
      → Grows m inlines f (find_instructions m l f) × AllMeant l (find_instructions m l f)
  unfolding find_instructions
  find-Grows [] f among = (Grows-refl m inlines f, λ g c k. absurd k)
  find-Grows ((g, c) ∷ l) f among =
      let f₁ = inline_users m g c (m.users g) f in
      let first = users-Grows g c (m.users g) f (among g c (inl refl)) (λ u k. k) in
      let rest = find-Grows l f₁ (λ h d k. among h d (inr k)) in
      let f₂ = find_instructions m l f₁ in
      (
        Grows-trans m inlines f f₁ f₂ first.0 rest.0,
        λ h d k u user. elim k [
          | inl e ↦
              subst (λ t. Meant m inlines t.0 t.1 u f₂) (sym e)
                (Meant-later m inlines g c u f₁ f₂ rest.0
                  (first.1 u (subst (λ t. In u (m.users t.0)) e user)))
          | inr later ↦ rest.1 h d later u user
        ],
      )

  found-Inlined :
      (i v c : ℕ)
      → found_string i v (find_instructions m inlines []) ≡ some c
      → Inlined m inlines i v c
  unfolding lookup
  found-Inlined i v c e = elim ((find-Grows inlines [] (λ g d k. k)).0.sound i v c e) [
    | inl old ↦ absurd (none-ne-some c old)
    | inr new ↦ new
  ]

  Inlined-Has : (i v c : ℕ) → Inlined m inlines i v c → Has i v (find_instructions m inlines [])
  Inlined-Has i v c (direct _ _ _ at user is) =
      ((find-Grows inlines [] (λ g d k. k)).1 v c at i user).own
        (TakesString-no_wrapper m.values (m.values i) is) (TakesString-user (m.values i) is)
  Inlined-Has i v c (wrapped g _ _ _ at user e among is) =
      ((find-Grows inlines [] (λ h d k. k)).1 g c at v user).users
        (StandsFor-wrapper m.values (m.values v) e) i among (TakesString-user (m.values i) is)

  -- An entry is a string that is meant for the operand, and is there if one is meant.
  pub record Entry (i v : ℕ) (entry : Option ℕ) : Type 0 where
    pub sound : (c : ℕ) → entry ≡ some c → Inlined m inlines i v c
    pub complete : (c : ℕ) → Inlined m inlines i v c → (d : ℕ) × (entry ≡ some d)

  -- One entry for each operand, in order.
  abbrev pub Payload : ℕ → List ℕ → List (Option ℕ) → Type 0
  Payload i [] [] = Unit
  Payload i [] (e ∷ es) = ⊥
  Payload i (v ∷ vs) [] = ⊥
  Payload i (v ∷ vs) (e ∷ es) = Entry i v e × Payload i vs es

  strings-Payload :
      (i : ℕ) (strings : Inlines) (vs : List ℕ)
      → lookup i (find_instructions m inlines []) ≡ some strings
      → Payload i vs (strings_of_operands strings vs)
  unfolding strings_of_operands
  strings-Payload i strings [] at = tt
  strings-Payload i strings (v ∷ vs) at =
      let same = ap (λ o. o >>= λ l. lookup v l) at in
      (
        record {
          sound = λ c e. found-Inlined i v c (same ∙ e);
          complete = λ c k. let has = Inlined-Has i v c k in (has.0, sym same ∙ has.1);
        },
        strings-Payload i strings vs at,
      )

payloads-lookup :
    (m : Bitcode) (f : InlineInstructions) (i : ℕ)
    → lookup i (payloads m f)
      ≡ (lookup i f >>= λ strings. some (strings_of_operands strings (operands (m.values i))))
unfolding payloads lookup
payloads-lookup m [] i = refl
payloads-lookup m ((j, strings) ∷ f) i = elim (Bool-cases (j == i)) [
  | inl same ↦
      rw same
        (ap (λ k. some (strings_of_operands strings (operands (m.values k)))) (==→eq j i same))
  | inr differ ↦ rw differ (payloads-lookup m f i)
]

-- For every module and every instruction that inlineGlobalStrings marks, the mark has one entry
-- for each operand, in order: an entry is a string only if it is inlined for a global that the
-- operand is, or that the operand uses as a bitcast or a GEP with two first indices that are
-- null, and it is a string whenever there is such a one.
pub inline_global_strings-Payload :
    (m : Bitcode) (i : ℕ) (payload : List (Option ℕ))
    → lookup i (inline_global_strings true m).instruction_strings ≡ some payload
    → Payload m (find_inlines m) i (operands (m.values i)) payload
unfolding inline_global_strings
inline_global_strings-Payload m i payload e =
    let f = find_instructions m (find_inlines m) [] in
    let (strings, at, same) =
      bind-some (lookup i f) (λ strings. some (strings_of_operands strings (operands (m.values i))))
        payload (sym (payloads-lookup m f i) ∙ e) in
    subst (Payload m (find_inlines m) i (operands (m.values i))) (some-injective _ payload same)
      (strings-Payload m (find_inlines m) i strings (operands (m.values i)) at)

-- Every load, store or call with an operand that a string is inlined for, the operand being the
-- global, or a bitcast or a GEP with two first indices that are null which uses it, is marked
-- by inlineGlobalStrings.
pub inline_global_strings-marks :
    (m : Bitcode) (i v c : ℕ)
    → Inlined m (find_inlines m) i v c
    → (payload : List (Option ℕ)) × (lookup i (inline_global_strings true m).instruction_strings
        ≡ some payload)
unfolding inline_global_strings
inline_global_strings-marks m i v c meant =
    let f = find_instructions m (find_inlines m) [] in
    let (d, e) = Inlined-Has m (find_inlines m) i v c meant in
    let (strings, at, _) = bind-some (lookup i f) (λ l. lookup v l) d e in
    (
      strings_of_operands strings (operands (m.values i)),
      payloads-lookup m f i
          ∙ ap (λ o. o >>= λ l. some (strings_of_operands l (operands (m.values i)))) at,
    )
