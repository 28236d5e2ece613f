-- ===== src/Prelude/Each.antt =====
-- What holds of each element of a list, and which elements stand in it.
use Prim.Native.Nat.{ℕ, zero, suc}
use mathlib.Core.Path.{◌≡◌, refl, sym, ap, ◌∙◌}
use mathlib.Core.Logic.{◌≢◌, ◌⊎◌, inl, inr}
use mathlib.Core.Option.{some, some-injective, none-ne-some}
use mathlib.Core.List.{List, [], ◌∷◌, ◌++◌}
use llvm2cpg.Prelude.Lists.{get_elem?}
use llvm2cpg.Prelude.Keys.{Apart, Distinct}

abbrev pub All {ℓ κ} : {A : Type ℓ} → (A → Type κ) → List A → Type κ
All P [] = Unit
All P (x ∷ xs) = P x × All P xs

abbrev pub In : {A : Type 0} → A → List A → Type 0
In a [] = ⊥
In a (x ∷ xs) = (a ≡ x) ⊎ In a xs

pub All-In {κ} : {A : Type 0} (P : A → Type κ) (a : A) (xs : List A) → All P xs → In a xs → P a
All-In P a [] h i = absurd i
All-In P a (x ∷ xs) h (inl e) = rw e h.0
All-In P a (x ∷ xs) h (inr i) = All-In P a xs h.1 i

pub All-each {ℓ κ μ} :
    {A : Type μ} {P : A → Type ℓ} {Q : A → Type κ}
    → ((i : A) → P i → Q i)
    → (xs : List A) → All P xs
    → All Q xs
All-each g [] h = tt
All-each g (x ∷ xs) h = (g x h.0, All-each g xs h.1)

pub All-get {κ} :
    (P : ℕ → Type κ) (xs : List ℕ) (k w : ℕ) → All P xs → get_elem? xs k ≡ some w → P w
All-get P [] k w h e = absurd (none-ne-some w e)
All-get P (x ∷ xs) zero w h e = rw (← some-injective x w e) h.0
All-get P (x ∷ xs) (suc k) w h e = All-get P xs k w h.1 e

Apart-get : (i : ℕ) (xs : List ℕ) (k : ℕ) → Apart i xs → get_elem? xs k ≢ some i
Apart-get i [] k h e = none-ne-some i e
Apart-get i (x ∷ xs) zero h e = h.0 (sym (some-injective x i e))
Apart-get i (x ∷ xs) (suc k) h e = Apart-get i xs k h.1 e

-- A position in a list without repetition is unique.
pub get_unique :
    (xs : List ℕ) (j k w : ℕ)
    → Distinct xs
    → get_elem? xs j ≡ some w
    → get_elem? xs k ≡ some w
    → j ≡ k
get_unique [] j k w h e e' = absurd (none-ne-some w e)
get_unique (x ∷ xs) zero zero w h e e' = refl
get_unique (x ∷ xs) zero (suc k) w h e e' =
    absurd (Apart-get x xs k h.0 (e' ∙ ap some (sym (some-injective x w e))))
get_unique (x ∷ xs) (suc j) zero w h e e' =
    absurd (Apart-get x xs j h.0 (e ∙ ap some (sym (some-injective x w e'))))
get_unique (x ∷ xs) (suc j) (suc k) w h e e' = ap suc (get_unique xs j k w h.1 e e')

pub In-append : {A : Type 0} (c : A) (l r : List A) → In c (l ++ r) → In c l ⊎ In c r
In-append c [] r h = inr h
In-append c (x ∷ l) r (inl e) = inl (inl e)
In-append c (x ∷ l) r (inr i) = elim (In-append c l r i) [
  | inl left ↦ inl (inr left)
  | inr right ↦ inr right
]

pub In-left : {A : Type 0} (c : A) (l r : List A) → In c l → In c (l ++ r)
In-left c [] r h = absurd h
In-left c (x ∷ l) r (inl e) = inl e
In-left c (x ∷ l) r (inr i) = inr (In-left c l r i)

pub In-right : {A : Type 0} (c : A) (l r : List A) → In c r → In c (l ++ r)
In-right c [] r h = h
In-right c (x ∷ l) r h = inr (In-right c l r h)
