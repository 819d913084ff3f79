-- ===== src/Pool/Semantic.antt =====
-- What `SemanticDeduplicateLinks` keeps.
use xray_knife.Prelude.{
  ℕ, suc, ◌+◌, ◌≡◌, ◌≢◌, refl, sym, ap, ◌∙◌, List, [], ◌∷◌, ◌⊎◌, inl, inr, arith, length, map, In,
  Distinct, count_if, Bool-cases,
}
use xray_knife.Text.{Text, is_empty, trim_space}
use xray_knife.Text.Equality.{is_empty_iff}
use xray_knife.Core.{Fallible}
use xray_knife.Pool.{seen_before, semantic_key, semantic_from, semantic_deduplicate_links}
use xray_knife.Pool.Dedup.{seen_before_iff}

module _ (fingerprint : Text → Fallible Text) where
  abbrev key_of : Text → Text
  key_of = semantic_key fingerprint

  semantic_from-fresh :
      (seen : List Text) (n : ℕ) (links : List Text) (k : Text)
      → In k (map key_of (semantic_from fingerprint seen n links).0)
      → ¬ In k seen
  unfolding semantic_from
  semantic_from-fresh seen n [] k i = elim i [ ]
  semantic_from-fresh seen n (l ∷ links) k i =
      let t = trim_space l in
      elim (Bool-cases (is_empty t)) [
        | inl blank ↦ semantic_from-fresh seen n links k (rw blank at i)
        | inr full ↦ elim (Bool-cases (seen_before (key_of t) seen)) [
          | inl again ↦ semantic_from-fresh seen (suc n) links k (rw (full, again) at i)
          | inr new ↦ elim (rw (full, new) at i) [
            | inl e ↦ λ j. cc (new, (seen_before_iff (key_of t) seen).1 (rw e j))
            | inr j ↦ λ h. semantic_from-fresh (key_of t ∷ seen) n links k j (inr h)
          ]
        ]
      ]

  semantic_from-Distinct :
      (seen : List Text) (n : ℕ) (links : List Text)
      → Distinct (map key_of (semantic_from fingerprint seen n links).0)
  unfolding semantic_from
  semantic_from-Distinct seen n [] = tt
  semantic_from-Distinct seen n (l ∷ links) =
      let t = trim_space l in
      elim (Bool-cases (is_empty t)) [
        | inl blank ↦ rw blank (semantic_from-Distinct seen n links)
        | inr full ↦ elim (Bool-cases (seen_before (key_of t) seen)) [
          | inl again ↦ rw (full, again) (semantic_from-Distinct seen (suc n) links)
          | inr new ↦
              rw (full, new)
                (
                  λ i. semantic_from-fresh (key_of t ∷ seen) n links (key_of t) i (inl refl),
                  semantic_from-Distinct (key_of t ∷ seen) n links,
                )
        ]
      ]

  semantic_from-covers :
      (seen : List Text) (n : ℕ) (links : List Text) (link : Text)
      → In link links
      → trim_space link ≢ []
      → In (key_of (trim_space link)) seen
        ⊎ In (key_of (trim_space link)) (map key_of (semantic_from fingerprint seen n links).0)
  unfolding semantic_from
  semantic_from-covers seen n [] link i f = elim i [ ]
  semantic_from-covers seen n (l ∷ links) link i f =
      let t = trim_space l in
      elim (Bool-cases (is_empty t)) [
        | inl blank ↦ rw blank (elim i [
          | inl e ↦ absurd (f (ap trim_space (sym e) ∙ (is_empty_iff t).0 blank))
          | inr j ↦ semantic_from-covers seen n links link j f
        ])
        | inr full ↦ elim (Bool-cases (seen_before (key_of t) seen)) [
          | inl again ↦
              rw (full, again)
                (elim i [
                  | inl e ↦ inl (rw (← e) ((seen_before_iff (key_of t) seen).0 again))
                  | inr j ↦ semantic_from-covers seen (suc n) links link j f
                ])
          | inr new ↦
              rw (full, new)
                (elim i [
                  | inl e ↦ inr (inl (ap (λ s. key_of (trim_space s)) e))
                  | inr j ↦ elim (semantic_from-covers (key_of t ∷ seen) n links link j f) [
                    | inl (inl e) ↦ inr (inl e)
                    | inl (inr k) ↦ inl k
                    | inr k ↦ inr (inr k)
                  ]
                ])
        ]
      ]

  semantic_from-count :
      (seen : List Text) (n : ℕ) (links : List Text)
      → length (semantic_from fingerprint seen n links).0
          + (semantic_from fingerprint seen n links).1
          + count_if (λ l. is_empty (trim_space l)) links
        ≡ length links + n
  unfolding semantic_from
  semantic_from-count seen n [] = omega arith
  semantic_from-count seen n (l ∷ links) = ground (
    arith,
    semantic_from-count seen n links,
    semantic_from-count seen (suc n) links,
    semantic_from-count (key_of (trim_space l) ∷ seen) n links,
  )

-- Whatever the fingerprint: the kept links have distinct keys, the key of every link that is not
-- blank is the key of a kept one, and the kept, the removed and the blank links together are as
-- many as the input.
pub semantic_deduplicate_links_partition :
    (fingerprint : Text → Fallible Text) (links : List Text)
    → let (unique, removed) = semantic_deduplicate_links fingerprint links in
      Distinct (map (semantic_key fingerprint) unique)
      × ((link : Text)
          → In link links
          → trim_space link ≢ []
          → In (semantic_key fingerprint (trim_space link)) (map (semantic_key fingerprint) unique))
      × (length unique + removed + count_if (λ l. is_empty (trim_space l)) links ≡ length links)
unfolding semantic_deduplicate_links
semantic_deduplicate_links_partition fingerprint links = (
  semantic_from-Distinct fingerprint [] 0 links,
  λ link i f. elim (semantic_from-covers fingerprint [] 0 links link i f) [
    | inl n ↦ absurd n
    | inr j ↦ j
  ],
  omega (arith, semantic_from-count fingerprint [] 0 links),
)
