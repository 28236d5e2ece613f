-- ===== src/Passes/Reaches.antt =====
-- Where the value of an instruction goes once the marked instructions of lib/Transforms/
-- CustomPasses.cpp are written in place: an independent description of what usedUntil and
-- isUsedoutsideBB compute.
use llvm2cpg.Prelude.{
  arith, ℕ, zero, suc, ◌≤◌, ◌≡◌, ◌⊎◌, inl, inr, ◌∙◌, refl, Bool, true, false, Option, none, some,
  List, [], ◌∷◌, ◌==◌, ==→eq, Bool-cases,
}
use mathlib.Core.Option.{some-injective, none-ne-some}
use llvm2cpg.Types.Naming.{lookup}
use llvm2cpg.Passes.Function.{Function, Marks, In, is_debug, set_metadata}
use llvm2cpg.Passes.Uses.{
  bind-some, later, used_user, used_users, used_until, outside_user, outside_users,
  is_used_outside_bb,
}

-- `x` uses `i`, itself or through users that are marked.
pub data Reaches (f : Function) (m : Marks) : ℕ → ℕ → Type 0 where
  use_of : (i x : ℕ) → In x (f.instruction i).users → is_debug f x ≡ false → Reaches f m i x
  through :
      (i j x : ℕ)
      → In j (f.instruction i).users
      → is_debug f j ≡ false
      → m j ≡ true
      → Reaches f m j x
      → Reaches f m i x

-- With one more mark, what `i` reaches it reached before, or it reached the marked instruction
-- (or is it), which reached the rest.
pub Reaches-mark :
    (f : Function) (m : Marks) (b i x : ℕ)
    → Reaches f (set_metadata b m) i x
    → Reaches f m i x ⊎ (((i ≡ b) ⊎ Reaches f m i b) × Reaches f m b x)
Reaches-mark f m b i x (use_of _ _ u d) = inl (use_of i x u d)
Reaches-mark f m b i x (through _ j _ u d k r) = elim (Bool-cases (j == b)) [
  | inl same ↦
      let e = ==→eq j b same in
      let to_b = inr (use_of i b (rw (← e) u) (rw (← e) d)) in
      elim (Reaches-mark f m b j x r) [
        | inl before ↦ inr (to_b, rw (← e) before)
        | inr (_, after) ↦ inr (to_b, after)
      ]
  | inr differ ↦
      let marked : m j ≡ true = rw differ at k in
      elim (Reaches-mark f m b j x r) [
        | inl before ↦ inl (through i j x u d marked before)
        | inr (inl e, after) ↦ inr (inr (use_of i b (rw (← e) u) (rw (← e) d)), after)
        | inr (inr to_b, after) ↦ inr (inr (through i j b u d marked to_b), after)
      ]
]

outside_user-inside :
    (same debug marked : Bool) (inner rest : Option Bool)
    → outside_user same debug marked inner rest ≡ some false
    → (rest ≡ some false) × (debug ≡ false → (same ≡ true) × (marked ≡ true → inner ≡ some false))
unfolding outside_user
outside_user-inside false true marked inner rest h = (h, ground arith)
outside_user-inside false false marked inner rest h = absurd (ground (arith, h))
outside_user-inside true debug false inner rest h = (h, λ e. (refl, ground arith))
outside_user-inside true debug true none rest h = absurd (ground (arith, h))
outside_user-inside true debug true (some true) rest h = absurd (ground (arith, h))
outside_user-inside true debug true (some false) rest h = (h, λ e. (refl, λ k. refl))

module _ (f : Function) (m : Marks) where
  outside_users-inside :
      (recurse : ℕ → Option Bool) (parent u : ℕ) (us : List ℕ)
      → outside_users recurse f m parent us ≡ some false
      → In u us
      → is_debug f u ≡ false
      → ((f.instruction u).parent ≡ parent) × (m u ≡ true → recurse u ≡ some false)
  unfolding outside_users
  outside_users-inside recurse parent u [] h i d = absurd i
  outside_users-inside recurse parent u (v ∷ us) h (inl e) d =
      let k = (outside_user-inside _ (is_debug f v) (m v) (recurse v) _ h).1 (rw (← e) d) in
      rw e (==→eq _ _ k.0, k.1)
  outside_users-inside recurse parent u (v ∷ us) h (inr i) d =
      outside_users-inside recurse parent u us
        (outside_user-inside _ (is_debug f v) (m v) (recurse v) _ h).0 i d

  -- What isUsedoutsideBB finds to stay inside reaches only instructions of its block.
  pub is_used_outside_bb-inside :
      (fuel i x : ℕ)
      → is_used_outside_bb fuel f m i ≡ some false
      → Reaches f m i x
      → (f.instruction x).parent ≡ (f.instruction i).parent
  unfolding is_used_outside_bb
  is_used_outside_bb-inside zero i x h r = absurd (ground (arith, h))
  is_used_outside_bb-inside (suc fuel) i x h (use_of _ _ u d) =
      (outside_users-inside _ _ x (f.instruction i).users h u d).0
  is_used_outside_bb-inside (suc fuel) i x h (through _ j _ u d k r) =
      let inner = outside_users-inside _ _ j (f.instruction i).users h u d in
      is_used_outside_bb-inside fuel j x (inner.1 k) r ∙ inner.0

-- none stands for -1
abbrev pub AtMost : Option ℕ → Option ℕ → Type 0
AtMost none b = Unit {0}
AtMost (some a) none = ⊥
AtMost (some a) (some b) = a ≤ b

pub AtMost-trans : (a b c : Option ℕ) → AtMost a b → AtMost b c → AtMost a c
AtMost-trans none b c h k = tt
AtMost-trans (some a) none c h k = absurd h
AtMost-trans (some a) (some b) none h k = absurd k
AtMost-trans (some a) (some b) (some c) h k = omega arith

AtMost-refl : (a : Option ℕ) → AtMost a a
AtMost-refl none = tt
AtMost-refl (some a) = omega arith

later-left : (a b : Option ℕ) → AtMost a (later a b)
later-left none b = tt
later-left (some a) none = omega arith
later-left (some a) (some b) = ground arith

later-right : (a b : Option ℕ) → AtMost b (later a b)
later-right none none = tt
later-right none (some b) = omega arith
later-right (some a) none = tt
later-right (some a) (some b) = ground arith

-- What one user adds to the result.
record Counts (debug marked : Bool) (number : Option ℕ) (inner : Option (Option ℕ))
    (res r : Option ℕ) : Type 0 where
  kept : AtMost res r
  numbered : debug ≡ false → AtMost number r
  inlined : debug ≡ false → marked ≡ true → (a : Option ℕ) × (inner ≡ some a) × AtMost a r

used_user-Counts :
    (debug marked : Bool) (number : Option ℕ) (inner : Option (Option ℕ)) (res r : Option ℕ)
    → used_user debug marked number inner res ≡ some r
    → Counts debug marked number inner res r
unfolding used_user
used_user-Counts true marked number inner res r h = record {
  kept = rw (← some-injective res r h) (AtMost-refl res);
  numbered = λ d. absurd (ground (arith, d));
  inlined = λ d k. absurd (ground (arith, d));
}
used_user-Counts false false number inner res r h =
    let e = some-injective (later res number) r h in
    record {
      kept = rw (← e) (later-left res number);
      numbered = λ d. rw (← e) (later-right res number);
      inlined = λ d k. absurd (ground (arith, k));
    }
used_user-Counts false true number none res r h = absurd (none-ne-some r h)
used_user-Counts false true number (some a) res r h =
    let e = some-injective (later (later res number) a) r h in
    let outer = later-left (later res number) a in
    record {
      kept = rw (← e) (AtMost-trans res (later res number) _ (later-left res number) outer);
      numbered =
          λ d. rw (← e) (AtMost-trans number (later res number) _ (later-right res number) outer);
      inlined = λ d k. (a, refl, rw (← e) (later-right (later res number) a));
    }

module _ (f : Function) (m : Marks) (inst_number : List (ℕ × ℕ)) where
  used_users-kept :
      (recurse : ℕ → Option (Option ℕ)) (us : List ℕ) (res r : Option ℕ)
      → used_users recurse f m inst_number us res ≡ some r
      → AtMost res r
  unfolding used_users
  used_users-kept recurse [] res r h = rw (← some-injective res r h) (AtMost-refl res)
  used_users-kept recurse (v ∷ us) res r h =
      let (next, e, k) = bind-some _ _ r h in
      AtMost-trans res next r (used_user-Counts (is_debug f v) (m v) _ (recurse v) res next e).kept
        (used_users-kept recurse us next r k)

  used_users-counts :
      (recurse : ℕ → Option (Option ℕ)) (u : ℕ) (us : List ℕ) (res r : Option ℕ)
      → used_users recurse f m inst_number us res ≡ some r
      → In u us
      → is_debug f u ≡ false
      → AtMost (lookup u inst_number) r
        × (m u ≡ true → (a : Option ℕ) × (recurse u ≡ some a) × AtMost a r)
  unfolding used_users
  used_users-counts recurse u [] res r h i d = absurd i
  used_users-counts recurse u (v ∷ us) res r h (inl same) d =
      let (next, e, k) = bind-some _ _ r h in
      let c = used_user-Counts (is_debug f v) (m v) _ (recurse v) res next e in
      let rest = used_users-kept recurse us next r k in
      let debug = rw same at d in
      rw same (
        AtMost-trans _ next r (c.numbered debug) rest,
        λ marked.
            let (a, inner, le) = c.inlined debug marked in
            (a, inner, AtMost-trans a next r le rest),
      )
  used_users-counts recurse u (v ∷ us) res r h (inr i) d =
      let (next, e, k) =
        bind-some (used_user (is_debug f v) (m v) (lookup v inst_number) (recurse v) res)
          (used_users recurse f m inst_number us) r h in
      used_users-counts recurse u us next r k i d

  -- Nothing that an instruction reaches has a number above its usedUntil.
  pub used_until-bound :
      (fuel i x : ℕ) (r : Option ℕ)
      → used_until fuel f m inst_number i ≡ some r
      → Reaches f m i x
      → AtMost (lookup x inst_number) r
  unfolding used_until
  used_until-bound zero i x r h p = absurd (none-ne-some r h)
  used_until-bound (suc fuel) i x r h (use_of _ _ u d) =
      (used_users-counts _ x (f.instruction i).users none r h u d).0
  used_until-bound (suc fuel) i x r h (through _ j _ u d k p) =
      let (a, inner, le) = (used_users-counts _ j (f.instruction i).users none r h u d).1 k in
      AtMost-trans _ a r (used_until-bound fuel j x a inner p) le
