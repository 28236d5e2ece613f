-- ===== src/Prelude/Perms.antt =====
-- Permutations of lists put together from parts.
use mathlib.Core.Path.{◌≡◌, sym, subst}
use mathlib.Core.List.{List, [], ◌∷◌, ◌++◌, append_assoc, Perm, perm_append_comm, perm_middle}
use mathlib.Core.List.Perm

module _ {ℓ} {A : Type ℓ} where
  pub perm_inside : (x : A) (l m : List A) → Perm (x ∷ (l ++ m)) ((l ++ x ∷ []) ++ m)
  perm_inside x l m = rw (append_assoc) (Perm.symm (perm_middle l m))

  pub perm_two : (x y : A) (l m : List A) → Perm (l ++ x ∷ (m ++ y ∷ [])) (x ∷ y ∷ (l ++ m))
  perm_two x y l m = Perm.trans (perm_middle l (m ++ y ∷ [])) (
      Perm.cons x (Perm.trans (Perm.append_left l (perm_append_comm m (y ∷ []))) (perm_middle l m)))

  pub perm_around :
      (x : A) (o o' f c : List A) → Perm (x ∷ o) o' → Perm (c ++ x ∷ (o ++ f)) (o' ++ (f ++ c))
  perm_around x o o' f c h = Perm.trans (perm_append_comm c (x ∷ (o ++ f))) (
      subst (λ z. Perm ((x ∷ (o ++ f)) ++ c) z) (append_assoc o' f c)
        (Perm.append_right c (Perm.append_right f h)))

  pub perm_sibling :
      (x : A) (s f c t k : List A)
      → Perm c t
      → Perm (s ++ f) k
      → Perm ((s ++ x ∷ []) ++ (f ++ c)) (t ++ x ∷ k)
  perm_sibling x s f c t k h p =
      Perm.trans (Perm.append (perm_append_comm s (x ∷ [])) (Perm.refl (f ++ c))) (
        Perm.trans
          (Perm.cons x (
            subst (λ z. Perm z (t ++ k)) (append_assoc s f c)
              (Perm.trans (perm_append_comm (s ++ f) c) (Perm.append h p))))
          (Perm.symm (perm_middle t k)))

  pub from_eq : {l m n : List A} → l ≡ m → Perm m n → Perm l n
  from_eq {n = n} e p = subst (λ z. Perm z n) (sym e) p

  pub to_eq : {l m n : List A} → n ≡ m → Perm l m → Perm l n
  to_eq {l} e p = subst (λ z. Perm l z) (sym e) p

  pub perm_snoc : (x : A) (l : List A) → Perm (l ++ x ∷ []) (x ∷ l)
  perm_snoc x l = perm_append_comm l (x ∷ [])

  -- Links, the new link, the forest and the child, against the child with its root, then the rest.
  pub perm_child :
      (x : A) (links forest child target rest : List A)
      → Perm (x ∷ child) target
      → Perm (links ++ forest) rest
      → Perm ((links ++ x ∷ []) ++ (forest ++ child)) (target ++ rest)
  perm_child x links forest child target rest h k =
      Perm.trans (Perm.append (perm_snoc x links) (Perm.refl (forest ++ child))) (
        Perm.trans
          (Perm.cons x (
            subst (λ z. Perm z (child ++ (links ++ forest))) (append_assoc links forest child)
              (perm_append_comm (links ++ forest) child)))
          (Perm.append h k))
