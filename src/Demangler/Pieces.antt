-- ===== src/Demangler/Pieces.antt =====
-- What extractNameFromCXXName (lib/Demangler/Demangler.cpp) gives: its text, or the piece of it that
-- ends before a paren; and it does not throw.
use llvm2cpg.Prelude.{
  ℕ, zero, suc, ◌-◌, ◌≤◌, ◌≡◌, ◌⊎◌, refl, sym, ap, subst, ◌∙◌, Bool, true, false, Option, none,
  some, [], ◌∷◌, ◌++◌, append-nil, append_assoc, length, length-append, arith, ◌==◌, ==→eq, ◌||◌,
  if◌then◌else◌, Bool-cases, inl, inr,
}
use mathlib.Core.Option.{some-injective, none-ne-some}
use llvm2cpg.Prelude.Chain.{◌>>=◌}
use llvm2cpg.Demangler.{
  Bytes, bytes, ℤ, pos, negsuc, take, drop, substr, is_zero, counted, find_space, equal_bytes,
  strip_found, strip_return_type, unless_empty, name_between, name_before, name_after_args,
  name_from_paren, skip_balanced, skip_to_colon, skip_to_paren, extract_name_from_cxx_name,
}
use llvm2cpg.Demangler.Brackets.{reverse-prepend, reverse-cons, Stops, at_end, at_colon}
use llvm2cpg.Demangler.Texts.{length-reverse, drop-append, take-append, substr-within}
use mathlib.Core.List.{reverse, reverse-reverse}

-- What may stand before the name: nothing, or a text that ends with a colon or a space.
pub data Starts : Bytes → Type 0 where
  at_start : Starts []
  after_colon : (l : Bytes) → Starts (l ++ (b':' ∷ []))
  after_space : (l : Bytes) → Starts (l ++ (b' ' ∷ []))

-- The bytes from where a name may start to an opening paren.
pub record Between (whole part : Bytes) : Type 0 where
  pub before : Bytes
  pub after : Bytes
  pub joined : before ++ (part ++ (b'(' ∷ after)) ≡ whole
  pub starts : Starts before
  pub nonempty : 1 ≤ length part

-- The end of a text.
abbrev Suffix : Bytes → Bytes → Type 0
Suffix l t = (read : Bytes) × (l ≡ read ++ t)

balanced-Suffix :
    (closing opening : ℕ) (n : ℤ) (l : Bytes) → Suffix l (skip_balanced closing opening n l).1
unfolding skip_balanced
balanced-Suffix closing opening n [] = ([], refl)
balanced-Suffix closing opening n (c ∷ r) =
    chosen (counted closing opening c n)
      (balanced-Suffix closing opening (counted closing opening c n) r)
  where
    chosen :
        (m : ℤ)
        → Suffix r (skip_balanced closing opening m r).1
        → Suffix (c ∷ r) (if is_zero m then (m, r) else skip_balanced closing opening m r).1
    chosen (pos zero) k = (c ∷ [], refl)
    chosen (pos (suc m)) k = (c ∷ k.0, ap (λ t. c ∷ t) k.1)
    chosen (negsuc m) k = (c ∷ k.0, ap (λ t. c ∷ t) k.1)

colon-Suffix :
    (l : Bytes) (space : Bool)
    → Suffix l (skip_to_colon l space).1 × Stops (skip_to_colon l space).1
unfolding skip_to_colon
colon-Suffix [] space = (([], refl), at_end)
colon-Suffix (c ∷ r) space = elim (Bool-cases (c == b':')) [
  | inl same ↦
      rw same (([], refl), subst (λ k. Stops (k ∷ r)) (sym (==→eq c b':' same)) (at_colon r))
  | inr differ ↦
      let rest = colon-Suffix r (space || (c == b' ')) in
      rw differ ((c ∷ rest.0.0, ap (λ t. c ∷ t) rest.0.1), rest.1)
]

abbrev amount : ℤ → ℕ
amount (pos k) = k
amount (negsuc k) = 0

-- After an opening paren the loop stops where they balance.
opened_step :
    (r t : Bytes) (n : ℕ)
    → ((k : ℕ) → skip_balanced b')' b'(' (pos (suc k)) r ≡ (pos zero, t) → Suffix r (b'(' ∷ t))
    → (if is_zero (pos n) then (pos n, r) else skip_balanced b')' b'(' (pos n) r) ≡ (pos zero, t)
    → Suffix (b'(' ∷ r) (b'(' ∷ t)
opened_step r t zero more e = ([], ap (λ (p : ℤ × Bytes). b'(' ∷ p.1) e)
opened_step r t (suc n) more e = let k = more n e in (b'(' ∷ k.0, ap (λ z. b'(' ∷ z) k.1)

-- The last byte that the loop over the parens reads is an opening one.
opened-Suffix :
    (l t : Bytes) (n : ℕ)
    → skip_balanced b')' b'(' (pos (suc n)) l ≡ (pos zero, t)
    → Suffix l (b'(' ∷ t)
unfolding skip_balanced
opened-Suffix [] t n e = absurd (omega (arith, ap (λ (p : ℤ × Bytes). amount p.0) e))
opened-Suffix (c ∷ r) t n e = elim (Bool-cases (c == b')')) [
  | inl closing ↦
      let k = opened-Suffix r t (suc n) (rw closing at e) in (c ∷ k.0, ap (λ z. c ∷ z) k.1)
  | inr no_closing ↦ elim (Bool-cases (c == b'(')) [
    | inl opening ↦
        subst (λ z. Suffix (z ∷ r) (b'(' ∷ t)) (sym (==→eq c b'(' opening))
          (opened_step r t n (opened-Suffix r t) (rw (no_closing, opening) at e))
    | inr no_opening ↦
        let k = opened-Suffix r t n (rw (no_closing, no_opening) at e) in
        (c ∷ k.0, ap (λ z. c ∷ z) k.1)
  ]
]

paren-Suffix :
    (l : Bytes)
    → Suffix l (skip_to_paren l)
      × ((skip_to_paren l ≡ []) ⊎ ((r : Bytes) × (skip_to_paren l ≡ b')' ∷ r)))
unfolding skip_to_paren
paren-Suffix [] = (([], refl), inl refl)
paren-Suffix (c ∷ r) = elim (Bool-cases (c == b')')) [
  | inl same ↦ rw same (([], refl), inr (r, ap (λ z. z ∷ r) (==→eq c b')' same)))
  | inr differ ↦
      let rest = paren-Suffix r in rw differ ((c ∷ rest.0.0, ap (λ t. c ∷ t) rest.0.1), rest.1)
]

take-drop : (n : ℕ) (l : Bytes) → take n l ++ drop n l ≡ l
take-drop zero l = refl
take-drop (suc n) [] = refl
take-drop (suc n) (c ∷ l) = ap (λ t. c ∷ t) (take-drop n l)

take_all : (n : ℕ) (l : Bytes) → length l ≤ n → take n l ≡ l
take_all zero [] le = refl
take_all zero (c ∷ l) le = absurd (omega arith)
take_all (suc n) [] le = refl
take_all (suc n) (c ∷ l) le = ap (λ t. c ∷ t) (take_all n l (omega arith))

-- The space that is found lies in the name.
abbrev AtSpace : Bytes → ℕ → Type 0
AtSpace l n = (suc n ≤ length l) × ((z : Bytes) × (take (suc n) l ≡ z ++ (b' ' ∷ [])))

later-AtSpace :
    (c : ℕ) (l : Bytes) (n : ℕ) (found : Option ℕ)
    → ((k : ℕ) → found ≡ some k → AtSpace l k)
    → (elim found [ some k ↦ some (suc k) | none ↦ none ]) ≡ some n
    → AtSpace (c ∷ l) n
later-AtSpace c l n none more h = absurd (none-ne-some n h)
later-AtSpace c l n (some k) more h =
    let (le, (z, e)) = more k refl in
    subst (AtSpace (c ∷ l)) (some-injective (suc k) n h)
      (omega (arith, le), (c ∷ z, ap (λ t. c ∷ t) e))

found-AtSpace : (l : Bytes) (n : ℕ) → find_space l ≡ some n → AtSpace l n
unfolding find_space
found-AtSpace [] n e = absurd (none-ne-some n e)
found-AtSpace (c ∷ l) n e = elim (Bool-cases (c == b' ')) [
  | inl same ↦
      subst (AtSpace (c ∷ l)) (some-injective 0 n (rw same at e))
        (omega arith, ([], ap (λ z. z ∷ []) (==→eq c b' ' same)))
  | inr differ ↦ later-AtSpace c l n (find_space l) (found-AtSpace l) (rw differ at e)
]

length-drop : (n : ℕ) (l : Bytes) → length (drop n l) ≤ length l
length-drop zero l = omega arith
length-drop (suc n) [] = omega arith
length-drop (suc n) (c ∷ l) = omega (arith, length-drop n l)

-- The name that is left: the whole of it, or what follows a space.
record Stripped (name : Bytes) (o : Option Bytes) : Type 0 where
  result : Bytes
  is_result : o ≡ some result
  gone : Bytes
  joined : gone ++ result ≡ name
  ends : (gone ≡ []) ⊎ ((z : Bytes) × (gone ≡ z ++ (b' ' ∷ [])))

unstripped : (name : Bytes) → Stripped name (some name)
unstripped name = record {
  result = name;
  is_result = refl;
  gone = [];
  joined = refl;
  ends = inl refl;
}

found-Stripped :
    (name : Bytes) (found : Option ℕ)
    → ((n : ℕ) → found ≡ some n → AtSpace name n)
    → Stripped name (strip_found found name)
unfolding strip_found
found-Stripped name none at = unstripped name
found-Stripped name (some n) at =
    let (le, (z, e)) = at n refl in
    let first = substr-within 0 (suc n) name (omega arith) in
    let second = substr-within (suc n) (length name) name le in
    elim (Bool-cases (equal_bytes (take (suc n) name) (bytes "operator "))) [
      | inl same ↦ rw (first, same) (unstripped name)
      | inr differ ↦
          rw (first, differ, second)
            (record {
              result = take (length name) (drop (suc n) name);
              is_result = refl;
              gone = take (suc n) name;
              joined =
                  ap (λ t. take (suc n) name ++ t)
                    (take_all (length name) (drop (suc n) name) (length-drop (suc n) name))
                  ∙ take-drop (suc n) name;
              ends = inr (z, e);
            })
    ]

name-Stripped : (space : Bool) (name : Bytes) → Stripped name (strip_return_type space name)
unfolding strip_return_type
name-Stripped false name = unstripped name
name-Stripped true name = found-Stripped name (find_space name) (found-AtSpace name)

before-Starts :
    (t gone : Bytes)
    → Stops t
    → (gone ≡ []) ⊎ ((z : Bytes) × (gone ≡ z ++ (b' ' ∷ [])))
    → Starts (reverse t ++ gone)
before-Starts t gone stops (inr (z, e)) =
    subst Starts (append_assoc (reverse t) z (b' ' ∷ []) ∙ ap (λ g. reverse t ++ g) (sym e))
      (after_space (reverse t ++ z))
before-Starts [] gone at_end (inl e) = subst Starts (sym e) at_start
before-Starts _ gone (at_colon t) (inl e) =
    subst Starts (sym (reverse-cons b':' t []) ∙ ap (λ g. reverse (b':' ∷ t) ++ g) (sym e))
      (after_colon (reverse t))

-- The whole text, or a piece of it.
abbrev pub Result : Bytes → Option Bytes → Type 0
Result whole o = (r : Bytes) × ((o ≡ some r) × ((r ≡ whole) ⊎ Between whole r))

whole-Result : (whole : Bytes) → Result whole (some whole)
whole-Result whole = (whole, (refl, inl refl))

unless-Result :
    (before name after whole : Bytes)
    → Starts before
    → before ++ (name ++ (b'(' ∷ after)) ≡ whole
    → Result whole (some (unless_empty name whole))
unless-Result before [] after whole starts e = whole-Result whole
unless-Result before (c ∷ name) after whole starts e = (
  c ∷ name,
  (
    refl,
    inr (record {
      before = before;
      after = after;
      joined = e;
      starts = starts;
      nonempty = omega arith;
    }),
  ),
)

cut_out :
    (whole read t after : Bytes)
    → reverse t ++ (reverse read ++ (b'(' ∷ after)) ≡ whole
    → substr (length t) (length (read ++ t) - length t) whole ≡ some (reverse read)
cut_out whole read t after e =
    let rest = reverse read ++ (b'(' ∷ after) in
    substr-within (length t) (length (read ++ t) - length t) whole
      (omega (arith, ap length (sym e), length-append (reverse t) rest, length-reverse t))
    ∙ ap some (
        ap (λ n. take (length (read ++ t) - length t) (drop n whole)) (sym (length-reverse t))
        ∙ ap (λ w. take (length (read ++ t) - length t) (drop (length (reverse t)) w)) (sym e)
        ∙ ap (take (length (read ++ t) - length t)) (drop-append (reverse t) rest)
        ∙ ap (λ n. take n rest) (omega (arith, length-append read t, length-reverse read))
        ∙ take-append (reverse read) (b'(' ∷ after))

-- From the colon to the end of the name.
between-Result :
    (whole read t after : Bytes) (space : Bool)
    → Stops t
    → reverse (read ++ t) ++ (b'(' ∷ after) ≡ whole
    → Result whole (name_between whole (read ++ t) (space, t))
unfolding name_between
between-Result whole read t after space stops e =
    let parts = sym (reverse-prepend read t (b'(' ∷ after)) ∙ e in
    let s = name-Stripped space (reverse read) in
    subst (Result whole)
      (sym (
        ap (λ o. o >>= strip_return_type space >>= λ n. some (unless_empty n whole))
          (cut_out whole read t after parts)
        ∙ ap (λ o. o >>= λ n. some (unless_empty n whole)) s.is_result))
      (unless-Result (reverse t ++ s.gone) s.result after whole
        (before-Starts t s.gone stops s.ends)
        (append_assoc (reverse t) s.gone (s.result ++ (b'(' ∷ after))
          ∙ ap (λ z. reverse t ++ z)
              (sym (append_assoc s.gone s.result (b'(' ∷ after))
                ∙ ap (λ z. z ++ (b'(' ∷ after)) s.joined)
          ∙ parts))

before-Result :
    (whole t after : Bytes)
    → reverse t ++ (b'(' ∷ after) ≡ whole
    → Result whole (name_before whole t)
unfolding name_before
before-Result whole t after e =
    let inner = (skip_balanced b'>' b'<' (pos 0) t).1 in
    let found = skip_to_colon inner false in
    let (r, first) = balanced-Suffix b'>' b'<' (pos 0) t in
    let ((q, second), stops) = colon-Suffix inner false in
    let all = first ∙ ap (λ z. r ++ z) second ∙ sym (append_assoc r q found.1) in
    subst (λ z. Result whole (name_between whole z found)) (sym all)
      (between-Result whole (r ++ q) found.1 after found.0 stops
        (ap (λ z. reverse z ++ (b'(' ∷ after)) (sym all) ∙ e))

args-Result :
    (whole : Bytes) (skipped : ℤ × Bytes)
    → ((t : Bytes)
        → skipped ≡ (pos zero, t)
        → (after : Bytes) × (reverse t ++ (b'(' ∷ after) ≡ whole))
    → Result whole (name_after_args whole skipped)
unfolding name_after_args
args-Result whole (pos zero, []) opens = whole-Result whole
args-Result whole (pos zero, c ∷ r) opens =
    let (after, e) = opens (c ∷ r) refl in before-Result whole (c ∷ r) after e
args-Result whole (pos (suc n), r) opens = whole-Result whole
args-Result whole (negsuc n, r) opens = whole-Result whole

-- A text by its end, read backwards.
reversed_parts :
    (whole l t : Bytes)
    → reverse whole ≡ l ++ (b'(' ∷ t)
    → reverse t ++ (b'(' ∷ (reverse l ++ [])) ≡ whole
reversed_parts whole l t e =
    sym (reverse-cons b'(' t (reverse l ++ []))
    ∙ sym (reverse-prepend l (b'(' ∷ t) [])
    ∙ append-nil (reverse (l ++ (b'(' ∷ t)))
    ∙ ap reverse (sym e)
    ∙ reverse-reverse whole

paren-Result :
    (whole read p : Bytes)
    → reverse whole ≡ read ++ p
    → (p ≡ []) ⊎ ((r : Bytes) × (p ≡ b')' ∷ r))
    → Result whole (name_from_paren whole p)
unfolding name_from_paren
paren-Result whole read p e (inl none_found) = rw none_found (whole-Result whole)
paren-Result whole read p e (inr (r, same)) = rw same (
    args-Result whole (skip_balanced b')' b'(' (pos 0) (b')' ∷ r)) λ t stop.
      let (x, parts) = opened-Suffix r t 0 stop in
      (
        reverse (read ++ (b')' ∷ x)) ++ [],
        reversed_parts whole (read ++ (b')' ∷ x)) t (
            e
            ∙ ap (λ z. read ++ z) (same ∙ ap (λ z. b')' ∷ z) parts)
            ∙ sym (append_assoc read (b')' ∷ x) (b'(' ∷ t))),
      ))

-- For every text, extractNameFromCXXName throws no out_of_range, and gives either the whole
-- text, or bytes of it that are not empty, end directly before an opening paren, and start at
-- the beginning of the text or directly after a colon or a space.
pub extract_name-Result :
    (whole : Bytes)
    → (r : Bytes) × ((extract_name_from_cxx_name whole ≡ some r) × ((r ≡ whole) ⊎ Between whole r))
unfolding extract_name_from_cxx_name
extract_name-Result whole =
    let ((read, e), found) = paren-Suffix (reverse whole) in
    paren-Result whole read (skip_to_paren (reverse whole)) e found
