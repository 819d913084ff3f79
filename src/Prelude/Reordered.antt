-- ===== src/Prelude/Reordered.antt =====
-- Lists in another order, and what stands in a list that is mapped or filtered.
use Prim.Native.Nat.{suc, ◌<◌}
use mathlib.Core.Path.{◌≡◌, refl, ap, ◌∙◌}
use mathlib.Core.Logic.{inl, inr}
use mathlib.Core.Bool.{Bool, true}
use mathlib.Core.List.{List, [], ◌∷◌, map}
use native.Mathlib.Omega.{arith}
use xray_knife.Prelude.Tests.{Bool-cases}
use xray_knife.Prelude.Lists.{In, keep, length}

-- The second list is the first in another order, as a shuffle leaves it.
pub data IsReordered {A : Type 0} : List A → List A → Type 0 where
  nil : IsReordered [] []
  cons : (a : A) {l m : List A} → IsReordered l m → IsReordered (a ∷ l) (a ∷ m)
  swap : (a b : A) (l : List A) → IsReordered (a ∷ b ∷ l) (b ∷ a ∷ l)
  trans : {l m n : List A} → IsReordered l m → IsReordered m n → IsReordered l n

pub IsReordered-In : {A : Type 0} {l m : List A} (a : A) → IsReordered l m → In a l → In a m
IsReordered-In a nil i = i
IsReordered-In a (cons b d) (inl e) = inl e
IsReordered-In a (cons b d) (inr i) = inr (IsReordered-In a d i)
IsReordered-In a (swap b c l) (inl e) = inr (inl e)
IsReordered-In a (swap b c l) (inr (inl e)) = inl e
IsReordered-In a (swap b c l) (inr (inr i)) = inr (inr i)
IsReordered-In a (trans d e) i = IsReordered-In a e (IsReordered-In a d i)

pub IsReordered-sym : {A : Type 0} {l m : List A} → IsReordered l m → IsReordered m l
IsReordered-sym nil = nil
IsReordered-sym (cons b d) = cons b (IsReordered-sym d)
IsReordered-sym (swap b c l) = swap c b l
IsReordered-sym (trans d e) = trans (IsReordered-sym e) (IsReordered-sym d)

pub In-map : {A B : Type 0} (f : A → B) (a : A) (xs : List A) → In a xs → In (f a) (map f xs)
In-map f a [] i = elim i [ ]
In-map f a (x ∷ xs) (inl e) = inl (ap f e)
In-map f a (x ∷ xs) (inr i) = inr (In-map f a xs i)

pub In-keep_intro :
    {A : Type 0} (p : A → Bool) (a : A) (xs : List A) → In a xs → p a ≡ true → In a (keep p xs)
In-keep_intro p a [] i h = elim i [ ]
In-keep_intro p a (x ∷ xs) (inl e) h = rw (ap p e ∙ h) (inl e)
In-keep_intro p a (x ∷ xs) (inr i) h = elim (Bool-cases (p x)) [
  | inl e ↦ rw e (inr (In-keep_intro p a xs i h))
  | inr e ↦ rw e (In-keep_intro p a xs i h)
]

pub In-map_cases :
    {A B : Type 0} (f : A → B) (b : B) (xs : List A)
    → In b (map f xs)
    → (a : A) × In a xs × (f a ≡ b)
In-map_cases f b [] i = elim i [ ]
In-map_cases f b (x ∷ xs) (inl e) = (x, inl refl, e)
In-map_cases f b (x ∷ xs) (inr i) = let w = In-map_cases f b xs i in (w.0, inr (w.1), w.2)

pub In-length : {A : Type 0} (a : A) (xs : List A) → In a xs → 0 < length xs
In-length a [] i = elim i [ ]
In-length a (x ∷ xs) i = omega arith

pub IsReordered-length : {A : Type 0} {l m : List A} → IsReordered l m → length l ≡ length m
IsReordered-length nil = refl
IsReordered-length (cons a d) = ap suc (IsReordered-length d)
IsReordered-length (swap a b l) = refl
IsReordered-length (trans d e) = IsReordered-length d ∙ IsReordered-length e
