-- ===== src/Prelude/Keys.antt =====
-- Lists of keys: in an interval, apart from a key, distinct.
use Prim.Native.Nat.{ℕ, ◌≤◌, ◌<◌}
use mathlib.Core.Logic.{◌≢◌}
use mathlib.Core.List.{List, [], ◌∷◌}
use native.Mathlib.Omega.{arith}

abbrev pub AllIn : ℕ → ℕ → List ℕ → Type 0
AllIn lo hi [] = Unit {0}
AllIn lo hi (a ∷ rest) = (lo ≤ a) × (a < hi) × AllIn lo hi rest

abbrev pub Apart : ℕ → List ℕ → Type 0
Apart j [] = Unit {0}
Apart j (a ∷ rest) = (j ≢ a) × Apart j rest

pub Apart-below : (lo hi j : ℕ) (l : List ℕ) → AllIn lo hi l → j < lo → Apart j l
Apart-below lo hi j [] h lt = tt
Apart-below lo hi j (a ∷ l) h lt = (omega arith, Apart-below lo hi j l h.2 lt)

pub Apart-above : (lo hi j : ℕ) (l : List ℕ) → AllIn lo hi l → hi ≤ j → Apart j l
Apart-above lo hi j [] h le = tt
Apart-above lo hi j (a ∷ l) h le = (omega arith, Apart-above lo hi j l h.2 le)

abbrev pub Distinct : List ℕ → Type 0
Distinct [] = Unit {0}
Distinct (a ∷ rest) = Apart a rest × Distinct rest
