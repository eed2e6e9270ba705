-- ===== src/Base/Tables.antt =====
-- A table of the database is a list of rows in the order of creation: the finders and the updates
-- of the Prisma client, and their laws.
use mathlib.Core.Path.{◌≡◌, refl, subst}
use mathlib.Core.Bool.{Bool, true, false}
use mathlib.Core.Option.{Option, none, some}
use mathlib.Core.Logic.{inl, inr}
use mathlib.Core.List.{List, [], ◌∷◌, ◌++◌}
use native.Mathlib.Omega.{arith}
use mark_solutions.Base.Lists.{All, any}
use mark_solutions.Base.Tests.{if◌then◌else◌, Bool-cases}

module _ {ℓ} {A : Type ℓ} where
  -- `findFirst` and `findUnique`
  abbrev pub find : (A → Bool) → List A → Option A
  find p [] = none
  find p (x ∷ xs) = let rest = find p xs in if p x then some x else rest

  -- One row under an update: changed if it matches.
  abbrev pub edit : (A → Bool) → (A → A) → A → A
  edit p f x = if p x then f x else x

  -- `updateMany`, and `update` by a unique key
  abbrev pub update_where : (A → Bool) → (A → A) → List A → List A
  update_where p f [] = []
  update_where p f (x ∷ xs) = edit p f x ∷ update_where p f xs

  -- Two updates of one row are one.
  pub edit-edit :
      (p : A → Bool) (f g : A → A) (x : A)
      → p (f x) ≡ p x
      → edit p g (edit p f x) ≡ edit p (λ y. g (f y)) x
  edit-edit p f g x keep = elim (Bool-cases (p x)) [
    | inl hit ↦ rw (hit, keep, hit) refl
    | inr miss ↦ rw (miss, miss) refl
  ]

  -- A row that is found passes the test.
  pub find_sound : (p : A → Bool) (xs : List A) {a : A} → find p xs ≡ some a → p a ≡ true
  find_sound p [] h = cc
  find_sound p (x ∷ xs) h = elim (Bool-cases (p x)) [
    | inl hit ↦ ground arith
    | inr miss ↦ find_sound p xs (rw miss at h)
  ]

  -- What holds of every row holds of the one that is found.
  pub find-All {κ} :
      (P : A → Type κ) (p : A → Bool) (xs : List A) {a : A} → find p xs ≡ some a → All P xs → P a
  find-All P p [] h all = cc
  find-All P p (x ∷ xs) {a = a} h all = elim (Bool-cases (p x)) [
    | inl hit ↦ let hx : some x ≡ some a = rw hit at h in let e : x ≡ a = cc hx in subst P e all.0
    | inr miss ↦ find-All P p xs (rw miss at h) all.1
  ]

  pub find-any : (p : A → Bool) (xs : List A) → any p xs ≡ false → find p xs ≡ none
  find-any p [] h = refl
  find-any p (x ∷ xs) h = ground (arith, find-any p xs)

  -- Where nothing passes, what is found by another test fails this one.
  pub find-find :
      (p q : A → Bool) (xs : List A) {a : A} → find p xs ≡ none → find q xs ≡ some a → p a ≡ false
  find-find p q [] h k = cc
  find-find p q (x ∷ xs) {a = a} h k = ground (arith, find-find p q xs {a = a})

  pub find-append :
      (p : A → Bool) (xs : List A) (y : A)
      → find p (xs ++ (y ∷ []))
        ≡ elim (find p xs) [ some a ↦ some a | none ↦ if p y then some y else none ]
  find-append p [] y = refl
  find-append p (x ∷ xs) y = ground (arith, find-append p xs y)

  -- An update that keeps the tested columns edits the row that is found.
  pub find-update_where :
      (p q : A → Bool) (f : A → A) (xs : List A)
      → ((x : A) → p (f x) ≡ p x)
      → find p (update_where q f xs) ≡ elim (find p xs) [ some a ↦ some (edit q f a) | none ↦ none ]
  find-update_where p q f [] keep = refl
  find-update_where p q f (x ∷ xs) keep = ground (arith, keep x, find-update_where p q f xs keep)
