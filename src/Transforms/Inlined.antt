-- ===== src/Transforms/Inlined.antt =====
-- The strings that inlineGlobalStrings of lib/Transforms/Transforms.cpp gives to the operands of
-- instructions.
use llvm2cpg.Prelude.{
  get_elem?, ℕ, ◌≡◌, refl, sym, ap, ◌∙◌, subst, Bool, true, false, ◌&&◌, ◌||◌, Option, none, some,
  List, [], ◌∷◌, ◌==◌, ==→eq, eq→==, if◌then◌else◌, Bool-cases, ◌⊎◌, inl, inr, arith,
}
use mathlib.Core.Bool.{false≢true, true≢false}
use llvm2cpg.Prelude.Chain.{◌>>=◌}
use llvm2cpg.Prelude.Each.{In}
use llvm2cpg.Types.Naming.{lookup}
use llvm2cpg.Transforms.{
  Value, data_array, structure, expression, instruction, null_value, other_value, get_element_ptr,
  bitcast, other_cast, other_expression, load, store, call, other_instruction, is_null, is_null_at,
  Bitcode, Inlines, InlineInstructions, is_inlineable_const_gep, is_inlineable_const_bitcast,
  is_inlineable_string_user_instruction, put, put_user, put_users, inline_user,
}
use mathlib.Core.Option.{some-injective}

-- The string that is found for the operand of an instruction.
abbrev pub found_string : ℕ → ℕ → InlineInstructions → Option ℕ
found_string i operand found = lookup i found >>= λ strings. lookup operand strings

found_string-put :
    (i v c : ℕ) (found : InlineInstructions) (j w : ℕ)
    → found_string j w (put i v c found)
      ≡ (if (i == j) && (v == w) then some c else found_string j w found)
unfolding put lookup
found_string-put i v c [] j w = elim (Bool-cases (i == j)) [
  | inl same ↦ rw same refl
  | inr differ ↦ rw differ refl
]
found_string-put i v c ((k, strings) ∷ found) j w = elim (Bool-cases (k == i)) [
  | inl at ↦
      let e = ==→eq k i at in
      elim (Bool-cases (i == j)) [
        | inl same ↦ let also = ap (λ t. t == j) e ∙ same in rw (at, also, same) refl
        | inr differ ↦ let also = ap (λ t. t == j) e ∙ differ in rw (at, also, differ) refl
      ]
  | inr apart ↦ elim (Bool-cases (k == j)) [
    | inl same ↦ let other = not_same apart same in rw (apart, same, other) refl
    | inr differ ↦ rw (apart, differ) (found_string-put i v c found j w)
  ]
]
  where
    not_same : (k == i) ≡ false → (k == j) ≡ true → (i == j) ≡ false
    not_same apart same = ground (arith, apart, same)

-- Whether an expression stands for the global that it uses.
abbrev pub is_wrapper : Bitcode → ℕ → Bool
is_wrapper m v =
    is_inlineable_const_gep m.values (m.values v) || is_inlineable_const_bitcast (m.values v)

is_null-eq : (v : Value) → is_null v ≡ true → v ≡ null_value
is_null-eq (data_array b) e = absurd (false≢true e)
is_null-eq (structure vs) e = absurd (false≢true e)
is_null-eq (expression o vs) e = absurd (false≢true e)
is_null-eq (instruction k vs) e = absurd (false≢true e)
is_null-eq null_value e = refl
is_null-eq other_value e = absurd (false≢true e)

-- An operand that is null.
abbrev pub NullAt : (ℕ → Value) → Option ℕ → Type 0
NullAt values o = (v : ℕ) × ((o ≡ some v) × (values v ≡ null_value))

is_null_at-NullAt :
    (values : ℕ → Value) (o : Option ℕ) → is_null_at values o ≡ true → NullAt values o
is_null_at-NullAt values none e = absurd (false≢true e)
is_null_at-NullAt values (some v) e = (v, (refl, is_null-eq (values v) e))

NullAt-is_null_at :
    (values : ℕ → Value) (o : Option ℕ) → NullAt values o → is_null_at values o ≡ true
NullAt-is_null_at values o (v, (at, null)) = rw (at, null) refl

-- The expressions that stand for the global that they use: a GEP whose first two indices are
-- null, and a bitcast.
pub data StandsFor (values : ℕ → Value) : Value → Type 0 where
  zero_gep :
      (vs : List ℕ)
      → NullAt values (get_elem? vs 1)
      → NullAt values (get_elem? vs 2)
      → StandsFor values (expression get_element_ptr vs)
  any_bitcast : (vs : List ℕ) → StandsFor values (expression bitcast vs)

-- The instructions whose operands are replaced by strings.
pub data TakesString : Value → Type 0 where
  of_load : (vs : List ℕ) → TakesString (instruction load vs)
  of_store : (vs : List ℕ) → TakesString (instruction store vs)
  of_call : (vs : List ℕ) → TakesString (instruction call vs)

user-TakesString : (v : Value) → is_inlineable_string_user_instruction v ≡ true → TakesString v
unfolding is_inlineable_string_user_instruction
user-TakesString (data_array b) e = absurd (false≢true e)
user-TakesString (structure vs) e = absurd (false≢true e)
user-TakesString (expression o vs) e = absurd (false≢true e)
user-TakesString (instruction load vs) e = of_load vs
user-TakesString (instruction store vs) e = of_store vs
user-TakesString (instruction call vs) e = of_call vs
user-TakesString (instruction other_instruction vs) e = absurd (false≢true e)
user-TakesString null_value e = absurd (false≢true e)
user-TakesString other_value e = absurd (false≢true e)

pub TakesString-user : (v : Value) → TakesString v → is_inlineable_string_user_instruction v ≡ true
unfolding is_inlineable_string_user_instruction
TakesString-user _ (of_load vs) = refl
TakesString-user _ (of_store vs) = refl
TakesString-user _ (of_call vs) = refl

both_true : (a b : Bool) → (a && b) ≡ true → (a ≡ true) × (b ≡ true)
both_true true b e = (refl, e)
both_true false b e = absurd (false≢true e)

wrapper-StandsFor :
    (values : ℕ → Value) (v : Value)
    → (is_inlineable_const_gep values v || is_inlineable_const_bitcast v) ≡ true
    → StandsFor values v
unfolding is_inlineable_const_gep is_inlineable_const_bitcast
wrapper-StandsFor values (data_array b) e = absurd (false≢true e)
wrapper-StandsFor values (structure vs) e = absurd (false≢true e)
wrapper-StandsFor values (expression get_element_ptr vs) e =
    let nulls =
      both_true (is_null_at values (get_elem? vs 1)) (is_null_at values (get_elem? vs 2))
        (or_false _ e) in
    zero_gep vs (is_null_at-NullAt values (get_elem? vs 1) nulls.0)
      (is_null_at-NullAt values (get_elem? vs 2) nulls.1)
  where
    or_false : (b : Bool) → (b || false) ≡ true → b ≡ true
    or_false true h = refl
    or_false false h = h
wrapper-StandsFor values (expression bitcast vs) e = any_bitcast vs
wrapper-StandsFor values (expression other_cast vs) e = absurd (false≢true e)
wrapper-StandsFor values (expression other_expression vs) e = absurd (false≢true e)
wrapper-StandsFor values (instruction k vs) e = absurd (false≢true e)
wrapper-StandsFor values null_value e = absurd (false≢true e)
wrapper-StandsFor values other_value e = absurd (false≢true e)

pub StandsFor-wrapper :
    (values : ℕ → Value) (v : Value)
    → StandsFor values v
    → (is_inlineable_const_gep values v || is_inlineable_const_bitcast v) ≡ true
unfolding is_inlineable_const_gep is_inlineable_const_bitcast
StandsFor-wrapper values _ (zero_gep vs a b) =
    rw (NullAt-is_null_at values (get_elem? vs 1) a, NullAt-is_null_at values (get_elem? vs 2) b)
      refl
StandsFor-wrapper values _ (any_bitcast vs) = refl

pub TakesString-no_wrapper :
    (values : ℕ → Value) (v : Value)
    → TakesString v
    → (is_inlineable_const_gep values v || is_inlineable_const_bitcast v) ≡ false
unfolding is_inlineable_const_gep is_inlineable_const_bitcast
TakesString-no_wrapper values _ (of_load vs) = refl
TakesString-no_wrapper values _ (of_store vs) = refl
TakesString-no_wrapper values _ (of_call vs) = refl

-- The string `c` of a global is meant for the operand of a load, a store or a call: the operand
-- is the global itself, or an expression that uses it.
pub data Inlined (m : Bitcode) (inlines : Inlines) : ℕ → ℕ → ℕ → Type 0 where
  direct :
      (g c i : ℕ)
      → In (g, c) inlines
      → In i (m.users g)
      → TakesString (m.values i)
      → Inlined m inlines i g c
  wrapped :
      (g c v i : ℕ)
      → In (g, c) inlines
      → In v (m.users g)
      → StandsFor m.values (m.values v)
      → In i (m.users v)
      → TakesString (m.values i)
      → Inlined m inlines i v c

abbrev pub Has : ℕ → ℕ → InlineInstructions → Type 0
Has i v found = (c : ℕ) × (found_string i v found ≡ some c)

module _ (m : Bitcode) (inlines : Inlines) where
  -- What is new is meant, and what was there stays.
  pub record Grows (f f' : InlineInstructions) : Type 0 where
    pub sound :
        (i v c : ℕ)
        → found_string i v f' ≡ some c
        → (found_string i v f ≡ some c) ⊎ Inlined m inlines i v c
    pub kept : (i v : ℕ) → Has i v f → Has i v f'

  pub Grows-refl : (f : InlineInstructions) → Grows f f
  Grows-refl f = record { sound = λ i v c e. inl e; kept = λ i v h. h }

  pub Grows-trans : (f g h : InlineInstructions) → Grows f g → Grows g h → Grows f h
  Grows-trans f g h a b = record {
    sound = λ i v c e. elim (b.sound i v c e) [ inl old ↦ a.sound i v c old | inr new ↦ inr new ];
    kept = λ i v k. b.kept i v (a.kept i v k);
  }

  put-Grows : (i v c : ℕ) (f : InlineInstructions) → Inlined m inlines i v c → Grows f (put i v c f)
  put-Grows i v c f meant = record {
    sound = λ j w d e. elim (Bool-cases ((i == j) && (v == w))) [
      | inl same ↦ inr (
          moved j w d same (
            subst (λ t. (if t then some c else found_string j w f) ≡ some d) same
              (sym (found_string-put i v c f j w) ∙ e)))
      | inr differ ↦ inl (
          subst (λ t. (if t then some c else found_string j w f) ≡ some d) differ
            (sym (found_string-put i v c f j w) ∙ e))
    ];
    kept = λ j w h. elim (Bool-cases ((i == j) && (v == w))) [
      | inl same ↦ (c, found_string-put i v c f j w ∙ rw same refl)
      | inr differ ↦ (h.0, found_string-put i v c f j w ∙ rw differ h.1)
    ];
  }
    where
      both : (a b : Bool) → (a && b) ≡ true → (a ≡ true) × (b ≡ true)
      both true b e = (refl, e)
      both false b e = absurd (false≢true e)

      moved :
          (j w d : ℕ) → ((i == j) && (v == w)) ≡ true → some c ≡ some d → Inlined m inlines j w d
      moved j w d same e =
          subst (λ a. Inlined m inlines a w d) (==→eq i j (both (i == j) (v == w) same).0)
            (subst (λ b. Inlined m inlines i b d) (==→eq v w (both (i == j) (v == w) same).1)
              (subst (Inlined m inlines i v) (some-injective c d e) meant))

  put-Has : (i v c : ℕ) (f : InlineInstructions) → Has i v (put i v c f)
  put-Has i v c f = (c, found_string-put i v c f i v ∙ rw (eq→== i i refl, eq→== v v refl) refl)

  abbrev pub IsUser : ℕ → Type 0
  IsUser i = is_inlineable_string_user_instruction (m.values i) ≡ true

  put_user-Grows :
      (v c u : ℕ) (f : InlineInstructions)
      → (IsUser u → Inlined m inlines u v c)
      → Grows f (put_user m v c u f) × (IsUser u → Has u v (put_user m v c u f))
  put_user-Grows v c u f meant =
      elim (Bool-cases (is_inlineable_string_user_instruction (m.values u))) [
        | inl is ↦ rw is (put-Grows u v c f (meant is), λ k. put-Has u v c f)
        | inr not_one ↦ rw not_one (Grows-refl f, λ k. absurd (false≢true k))
      ]

  -- The users of one value, if the string is meant for each that is an instruction.
  put_users-Grows :
      (v c : ℕ) (us : List ℕ) (f : InlineInstructions)
      → ((i : ℕ) → In i us → IsUser i → Inlined m inlines i v c)
      → Grows f (put_users m v c us f)
        × ((i : ℕ) → In i us → IsUser i → Has i v (put_users m v c us f))
  unfolding put_users
  put_users-Grows v c [] f meant = (Grows-refl f, λ i at. absurd at)
  put_users-Grows v c (u ∷ us) f meant =
      let f₁ = put_user m v c u f in
      let first = put_user-Grows v c u f (meant u (inl refl)) in
      let rest = put_users-Grows v c us f₁ (λ i at. meant i (inr at)) in
      (
        Grows-trans f f₁ (put_users m v c us f₁) first.0 rest.0,
        λ i at k. elim at [
          | inl e ↦
              subst (λ t. Has t v (put_users m v c us f₁)) (sym e)
                (rest.0.kept u v (first.1 (subst IsUser e k)))
          | inr later ↦ rest.1 i later k
        ],
      )

  -- What one user of a global gives: its own operand, or those of the users of the expression.
  pub record Meant (g c u : ℕ) (f : InlineInstructions) : Type 0 where
    pub own : is_wrapper m u ≡ false → IsUser u → Has u g f
    pub users : is_wrapper m u ≡ true → (i : ℕ) → In i (m.users u) → IsUser i → Has i u f

  pub Meant-later :
      (g c u : ℕ) (f f' : InlineInstructions) → Grows f f' → Meant g c u f → Meant g c u f'
  Meant-later g c u f f' grows meant = record {
    own = λ e k. grows.kept u g (meant.own e k);
    users = λ e i at k. grows.kept i u (meant.users e i at k);
  }

  pub inline_user-Grows :
      (g c u : ℕ) (f : InlineInstructions)
      → In (g, c) inlines
      → In u (m.users g)
      → Grows f (inline_user m g c u f) × Meant g c u (inline_user m g c u f)
  inline_user-Grows g c u f at user =
      elim (Bool-cases (is_inlineable_const_gep m.values (m.values u))) [
        | inl gep ↦ rw gep (through (rw gep refl))
        | inr no_gep ↦ elim (Bool-cases (is_inlineable_const_bitcast (m.values u))) [
          | inl cast ↦ rw (no_gep, cast) (through (rw (no_gep, cast) refl))
          | inr no_cast ↦ rw (no_gep, no_cast) (itself (rw (no_gep, no_cast) refl))
        ]
      ]
    where
      through :
          is_wrapper m u ≡ true
          → Grows f (put_users m u c (m.users u) f) × Meant g c u (put_users m u c (m.users u) f)
      through e =
          let all = put_users-Grows u c (m.users u) f (λ i among k.
            wrapped g c u i at user (wrapper-StandsFor m.values (m.values u) e) among
              (user-TakesString (m.values i) k)) in
          (all.0, record { own = λ no. absurd (true≢false (sym e ∙ no)); users = λ yes. all.1 })

      itself :
          is_wrapper m u ≡ false → Grows f (put_user m g c u f) × Meant g c u (put_user m g c u f)
      itself e =
          let one =
            put_user-Grows g c u f (λ k. direct g c u at user (user-TakesString (m.values u) k)) in
          (one.0, record { own = λ no. one.1; users = λ yes. absurd (false≢true (sym e ∙ yes)) })
