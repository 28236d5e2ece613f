-- ===== src/Prelude/Chain.antt =====
-- Chains of results that may be missing.
use mathlib.Core.Path.{◌≡◌, refl}
use mathlib.Core.Option.{Option, some, none, none-ne-some}

infixl 10 ◌>>=◌
abbrev pub ◌>>=◌ {ℓ κ} : {A : Type ℓ} {B : Type κ} → Option A → (A → Option B) → Option B
none >>= f = none
some a >>= f = f a

pub bind-some {ℓ κ} :
    {A : Type ℓ} {B : Type κ} (o : Option A) (g : A → Option B) (b : B)
    → (o >>= g) ≡ some b
    → (a : A) × (o ≡ some a) × (g a ≡ some b)
bind-some none g b h = absurd (none-ne-some b h)
bind-some (some a) g b h = (a, refl, h)

-- There is a result.
abbrev pub Ends {ℓ} : {A : Type ℓ} → Option A → Type ℓ
Ends {A = A} o = (a : A) × (o ≡ some a)

pub bind-Ends {ℓ κ} :
    {A : Type ℓ} {B : Type κ} (o : Option A) (g : A → Option B)
    → Ends o
    → ((a : A) → Ends (g a))
    → Ends (o >>= g)
bind-Ends none g h k = absurd (none-ne-some h.0 h.1)
bind-Ends (some a) g h k = k a
