-- ===== src/Client/Places.antt =====
-- The place of an entry in a list to whose front entries are added.
use mathlib.Core.Path.{subst}
use zbc_go.Common.{ℕ, ◌≡◌, refl, sym, ap, arith, ◌∙◌, List, [], ◌∷◌, ◌++◌, length, length-append}

-- `a` stands in the list, with `n` entries behind it.
abbrev pub StandsAt : {A : Type 0} → A → ℕ → List A → Type 0
StandsAt {A} a n xs = (before after : List A) × (xs ≡ before ++ a ∷ after) × (length after ≡ n)

-- So does an entry that has `P`.
abbrev pub SomeAt : {A : Type 0} → (A → Type 0) → ℕ → List A → Type 0
SomeAt {A} P n xs = (a : A) × P a × StandsAt a n xs

head_tail : {A : Type 0} (x y : A) (xs ys : List A) → x ∷ xs ≡ y ∷ ys → (x ≡ y) × (xs ≡ ys)
head_tail x y xs ys e =
    (ap (λ l. elim l [ [] ↦ x | a ∷ _ ↦ a ]) e, ap (λ l. elim l [ [] ↦ xs | _ ∷ tail ↦ tail ]) e)

module _ {A : Type 0} (P : A → Type 0) (n : ℕ) where
  pub SomeAt-cons : (x : A) (xs : List A) → SomeAt P n xs → SomeAt P n (x ∷ xs)
  SomeAt-cons x xs (a, p, (before, after, split, size)) =
      (a, p, (x ∷ before, after, ap (λ ys. x ∷ ys) split, size))

  -- A change of an entry that keeps `P` leaves one where it is.
  pub SomeAt-replace :
      (c c' : A) (xs before after : List A)
      → (P c → P c')
      → xs ≡ before ++ c ∷ after
      → SomeAt P n xs
      → SomeAt P n (before ++ c' ∷ after)
  SomeAt-replace c c' xs [] after keep at_c (a, p, ([], rest, split, size)) =
      let (same, behind) = head_tail a c rest after (sym split ∙ at_c) in
      (c', keep (subst P same p), ([], after, refl, ap length (sym behind) ∙ size))
  SomeAt-replace c c' xs [] after keep at_c (a, p, (y ∷ front, rest, split, size)) =
      let (_, behind) = head_tail y c _ after (sym split ∙ at_c) in
      (a, p, (c' ∷ front, rest, ap (λ ys. c' ∷ ys) (sym behind), size))
  SomeAt-replace c c' xs (x ∷ before) after keep at_c (a, p, ([], rest, split, size)) =
      let (same, behind) = head_tail a x rest _ (sym split ∙ at_c) in
      (
        a,
        p,
        (
          [],
          before ++ c' ∷ after,
          ap (λ y. y ∷ (before ++ c' ∷ after)) (sym same),
          omega (
            arith,
            size,
            ap length behind,
            length-append before (c ∷ after),
            length-append before (c' ∷ after),
          ),
        ),
      )
  SomeAt-replace c c' xs (x ∷ before) after keep at_c (a, p, (y ∷ front, rest, split, size)) =
      let (same, behind) = head_tail y x _ _ (sym split ∙ at_c) in
      SomeAt-cons x (before ++ c' ∷ after) (
        SomeAt-replace c c' (before ++ c ∷ after) before after keep refl
          (a, p, (front, rest, sym behind, size)))
