-- ===== src/Base/Sorting.antt =====
-- Array.prototype.sort with a comparison: stable, so a consistent comparison has one result, which
-- insertion from the right gives. Only the sign of a comparison counts.
use Prim.Native.Nat.{Ordering}
use mathlib.Core.Path.{◌≡◌, refl}
use mathlib.Core.Logic.{inl, inr}
use mathlib.Core.Bool.{Bool, true, false}
use mathlib.Core.List.{List, [], ◌∷◌, Perm}
use mathlib.Core.List.Perm
use monica_companion.Base.Tests.{if◌then◌else◌, Bool-cases}
use monica_companion.Base.Lists.{All}

abbrev pub is_gt : Ordering → Bool
is_gt Ordering.gt = true
is_gt _ = false

-- The comparison with its arguments swapped.
abbrev pub flip : Ordering → Ordering
flip Ordering.lt = Ordering.gt
flip Ordering.eq = Ordering.eq
flip Ordering.gt = Ordering.lt

-- A further criterion decides where the earlier one is even.
abbrev pub then_by : Ordering → Ordering → Ordering
then_by Ordering.lt o = Ordering.lt
then_by Ordering.gt o = Ordering.gt
then_by Ordering.eq o = o

pub flip-then_by : (o p : Ordering) → flip (then_by o p) ≡ then_by (flip o) (flip p)
flip-then_by Ordering.lt p = refl
flip-then_by Ordering.eq p = refl
flip-then_by Ordering.gt p = refl

pub not_gt-flip : (o : Ordering) → is_gt o ≡ true → is_gt (flip o) ≡ false
not_gt-flip Ordering.gt h = refl
not_gt-flip Ordering.lt h = cc
not_gt-flip Ordering.eq h = refl

module _ {ℓ} {A : Type ℓ} (cmp : A → A → Ordering) where
  unfoldable pub place : A → List A → List A
  place x [] = x ∷ []
  place x (y ∷ ys) = let rest = place x ys in if is_gt (cmp x y) then y ∷ rest else x ∷ y ∷ ys

  unfoldable pub sort : List A → List A
  unfolding place
  sort [] = []
  sort (x ∷ xs) = place x (sort xs)

  -- No element comes after the one that follows it.
  abbrev pub IsOrdered : List A → Type 0
  IsOrdered [] = Unit
  IsOrdered (x ∷ []) = Unit
  IsOrdered (x ∷ y ∷ l) = (is_gt (cmp x y) ≡ false) × IsOrdered (y ∷ l)

  place-Perm : (x : A) (l : List A) → Perm (place x l) (x ∷ l)
  unfolding place
  place-Perm x [] = Perm.rfl
  place-Perm x (y ∷ ys) = elim (Bool-cases (is_gt (cmp x y))) [
    | inl e ↦ rw (e, place) (Perm.trans (Perm.cons y (place-Perm x ys)) (Perm.swap x y ys))
    | inr e ↦ rw (e, place) Perm.rfl
  ]

  pub sort-Perm : (l : List A) → Perm (sort l) l
  unfolding sort
  sort-Perm [] = Perm.rfl
  sort-Perm (x ∷ xs) = Perm.trans (place-Perm x (sort xs)) (Perm.cons x (sort-Perm xs))

  -- A comparison whose sign changes when its arguments are swapped.
  abbrev pub IsFair : Type ℓ
  IsFair = (x y : A) → cmp y x ≡ flip (cmp x y)

  place_after :
      (x y : A) (l : List A)
      → IsFair
      → is_gt (cmp x y) ≡ true
      → IsOrdered (y ∷ l)
      → IsOrdered (place x l)
      → IsOrdered (y ∷ place x l)
  unfolding place
  place_after x y [] fair e s h = (rw (fair x y) (not_gt-flip (cmp x y) e), tt)
  place_after x y (z ∷ zs) fair e s h = elim (Bool-cases (is_gt (cmp x z))) [
    | inl f ↦ rw (f, place) (s.0, rw (f, place) at h)
    | inr f ↦ rw (f, place) (rw (fair x y) (not_gt-flip (cmp x y) e), rw (f, place) at h)
  ]

  IsOrdered-tail : (y : A) (l : List A) → IsOrdered (y ∷ l) → IsOrdered l
  IsOrdered-tail y [] h = tt
  IsOrdered-tail y (z ∷ zs) h = h.1

  place-IsOrdered : (x : A) (l : List A) → IsFair → IsOrdered l → IsOrdered (place x l)
  unfolding place
  place-IsOrdered x [] fair s = tt
  place-IsOrdered x (y ∷ ys) fair s = elim (Bool-cases (is_gt (cmp x y))) [
    | inl e ↦
        rw (e, place)
          (place_after x y ys fair e s (place-IsOrdered x ys fair (IsOrdered-tail y ys s)))
    | inr e ↦ rw (e, place) (e, s)
  ]

  pub sort-IsOrdered : (l : List A) → IsFair → IsOrdered (sort l)
  unfolding sort
  sort-IsOrdered [] fair = tt
  sort-IsOrdered (x ∷ xs) fair = place-IsOrdered x (sort xs) fair (sort-IsOrdered xs fair)

  place-All {κ} : (P : A → Type κ) (x : A) (l : List A) → P x → All P l → All P (place x l)
  unfolding place
  place-All P x [] h hs = (h, hs)
  place-All P x (y ∷ ys) h (hy, hs) = elim (Bool-cases (is_gt (cmp x y))) [
    | inl e ↦ rw (e, place) (hy, place-All P x ys h hs)
    | inr e ↦ rw (e, place) (h, (hy, hs))
  ]

  pub sort-All {κ} : (P : A → Type κ) (l : List A) → All P l → All P (sort l)
  unfolding sort
  sort-All P [] h = h
  sort-All P (x ∷ xs) (h, hs) = place-All P x (sort xs) h (sort-All P xs hs)
