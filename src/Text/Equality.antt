-- ===== src/Text/Equality.antt =====
-- Equality of texts, as a Boolean test and as a decision.
use xray_knife.Prelude.{◌≡◌, refl, ◌≢◌, ◌↔◌, true, false, [], ◌∷◌, arith, Bool-cases, inl, inr}
use xray_knife.Text.{Text, eq_text, is_empty}

eq_text_sound : (s t : Text) → eq_text s t ≡ true → s ≡ t
unfolding eq_text
eq_text_sound [] [] h = refl
eq_text_sound [] (b ∷ t) h = cc
eq_text_sound (a ∷ s) [] h = cc
eq_text_sound (a ∷ s) (b ∷ t) h = ground (arith, eq_text_sound s t)

pub eq_text_refl : (s : Text) → eq_text s s ≡ true
unfolding eq_text
eq_text_refl [] = refl
eq_text_refl (a ∷ s) = ground (arith, eq_text_refl s)

pub eq_text_iff : (s t : Text) → (eq_text s t ≡ true) ↔ (s ≡ t)
eq_text_iff s t = (eq_text_sound s t, λ e. rw e (eq_text_refl t))

pub eq_text_ne : (s t : Text) → s ≢ t → eq_text s t ≡ false
eq_text_ne s t h = elim (Bool-cases (eq_text s t)) [
  | inl e ↦ absurd (h (eq_text_sound s t e))
  | inr e ↦ e
]

pub is_empty_iff : (s : Text) → (is_empty s ≡ true) ↔ (s ≡ [])
unfolding is_empty
is_empty_iff [] = (λ h. refl, λ h. refl)
is_empty_iff (a ∷ s) = (λ h. cc, λ h. cc)
