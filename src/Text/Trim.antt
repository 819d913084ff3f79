-- ===== src/Text/Trim.antt =====
-- What trimming a text leaves.
use xray_knife.Prelude.{
  ℕ, zero, suc, ◌≡◌, refl, sym, ap, ◌∙◌, [], ◌∷◌, ◌++◌, reverse, arith, reverse-reverse,
  reverse-append,
}
use xray_knife.Text.{Text, strip, space_width, last_space_width, trim_space, bytes}

module _ (width : Text → ℕ) where
  strip_of_zero : (s : Text) → width s ≡ 0 → strip width 0 s ≡ s
  unfolding strip
  strip_of_zero [] h = refl
  strip_of_zero (a ∷ s) h = ground arith

  strip_stops : width [] ≡ 0 → (k : ℕ) (s : Text) → width (strip width k s) ≡ 0
  unfolding strip
  strip_stops e k [] = e
  strip_stops e (suc k) (a ∷ s) = strip_stops e k s
  strip_stops e zero (a ∷ s) = go (width (a ∷ s)) refl (λ k. strip_stops e k s)
    where
      go :
          (w : ℕ)
          → width (a ∷ s) ≡ w
          → ((k : ℕ) → width (strip width k s) ≡ 0)
          → width (elim w [ zero ↦ a ∷ s | suc k ↦ strip width k s ]) ≡ 0
      go zero h ih = h
      go (suc k) h ih = ih k

  strip-suffix : (k : ℕ) (s : Text) → (w : Text) × (s ≡ w ++ strip width k s)
  unfolding strip
  strip-suffix k [] = ([], refl)
  strip-suffix (suc k) (a ∷ s) = let (w, e) = strip-suffix k s in (a ∷ w, ap (λ t. a ∷ t) e)
  strip-suffix zero (a ∷ s) = go (width (a ∷ s)) (λ k. strip-suffix k s)
    where
      go :
          (w : ℕ)
          → ((k : ℕ) → (v : Text) × (s ≡ v ++ strip width k s))
          → (v : Text) × (a ∷ s ≡ v ++ (elim w [ zero ↦ a ∷ s | suc k ↦ strip width k s ]))
      go zero ih = ([], refl)
      go (suc k) ih = let (v, e) = ih k in (a ∷ v, ap (λ t. a ∷ t) e)

space_width-prefix : (p q : Text) → space_width (p ++ q) ≡ 0 → space_width p ≡ 0
unfolding space_width
space_width-prefix [] q h = refl
space_width-prefix (a ∷ []) [] h = h
space_width-prefix (a ∷ []) (b ∷ []) h = ground arith
space_width-prefix (a ∷ []) (b ∷ c ∷ q) h = ground arith
space_width-prefix (a ∷ b ∷ []) [] h = h
space_width-prefix (a ∷ b ∷ []) (c ∷ q) h = ground arith
space_width-prefix (a ∷ b ∷ c ∷ p) q h = h

-- The text that is left begins with no white space.
pub trim_space-starts : (s : Text) → space_width (trim_space s) ≡ 0
unfolding trim_space
trim_space-starts s =
    let t : Text = strip space_width 0 s in
    let (w, e) = strip-suffix last_space_width 0 (reverse t) in
    let split : t ≡ reverse (strip last_space_width 0 (reverse t)) ++ reverse w =
      sym (reverse-reverse t)
      ∙ ap reverse e
      ∙ reverse-append w (strip last_space_width 0 (reverse t)) in
    space_width-prefix (reverse (strip last_space_width 0 (reverse t))) (reverse w)
      (ap space_width (sym split) ∙ strip_stops space_width refl 0 s)

-- Trimming a second time changes nothing.
pub trim_space_idem : (s : Text) → trim_space (trim_space s) ≡ trim_space s
unfolding trim_space
trim_space_idem s =
    let u : Text = strip last_space_width 0 (reverse (strip space_width 0 s)) in
    ap (λ t. reverse (strip last_space_width 0 (reverse t)))
      (strip_of_zero space_width (reverse u) (trim_space-starts s))
    ∙ ap (λ t. reverse (strip last_space_width 0 t)) (reverse-reverse u)
    ∙ ap reverse (
        strip_of_zero last_space_width u
          (strip_stops last_space_width refl 0 (reverse (strip space_width 0 s))))

trims : trim_space (bytes "  a b ") ≡ bytes "a b"
unfolding trim_space
trims = refl
