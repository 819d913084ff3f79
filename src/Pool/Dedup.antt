-- ===== src/Pool/Dedup.antt =====
-- What `DeduplicateLinks` keeps.
use xray_knife.Prelude.{
  ℕ, ◌≡◌, ◌≢◌, refl, sym, ap, ◌∙◌, true, false, List, [], ◌∷◌, ◌⊎◌, inl, inr, arith, In, All,
  All-In, Distinct, Bool-cases, ◌↔◌,
}
use xray_knife.Text.{Text, is_empty, trim_space}
use xray_knife.Text.Equality.{eq_text_iff, is_empty_iff}
use xray_knife.Text.Trim.{trim_space_idem}
use xray_knife.Pool.{seen_before, dedup_from, deduplicate_links}

pub seen_before_iff : (k : Text) (seen : List Text) → (seen_before k seen ≡ true) ↔ In k seen
unfolding seen_before
seen_before_iff k [] = (λ h. cc, λ h. elim h [ ])
seen_before_iff k (j ∷ seen) =
    ground (arith, eq_text_iff j k, (seen_before_iff k seen).0, (seen_before_iff k seen).1)

-- What is kept is new, trimmed and not blank, and no two kept links are equal.
abbrev IsFresh : List Text → Text → Type 0
IsFresh seen t = (¬ In t seen) × (trim_space t ≡ t) × (t ≢ [])

module _ (k : Text) (seen : List Text) where
  IsFresh-weaken : (ts : List Text) → All (IsFresh (k ∷ seen)) ts → All (IsFresh seen) ts
  IsFresh-weaken [] h = tt
  IsFresh-weaken (t ∷ ts) ((n, e, b), h) = ((λ i. n (inr i), e, b), IsFresh-weaken ts h)

  IsFresh-not-In : (ts : List Text) → All (IsFresh (k ∷ seen)) ts → ¬ In k ts
  IsFresh-not-In [] h i = elim i [ ]
  IsFresh-not-In (t ∷ ts) ((n, e, b), h) (inl p) = n (inl (sym p))
  IsFresh-not-In (t ∷ ts) ((n, e, b), h) (inr i) = IsFresh-not-In ts h i

dedup_from-IsFresh :
    (seen links : List Text)
    → All (IsFresh seen) (dedup_from seen links) × Distinct (dedup_from seen links)
unfolding dedup_from
dedup_from-IsFresh seen [] = (tt, tt)
dedup_from-IsFresh seen (link ∷ links) =
    let t = trim_space link in
    elim (Bool-cases (is_empty t)) [
      | inl blank ↦ rw blank (dedup_from-IsFresh seen links)
      | inr full ↦ elim (Bool-cases (seen_before t seen)) [
        | inl again ↦ rw (full, again) (dedup_from-IsFresh seen links)
        | inr new ↦
            let (fresh, apart) = dedup_from-IsFresh (t ∷ seen) links in
            rw (full, new)
              (
                (
                  (
                    λ i. cc (new, (seen_before_iff t seen).1 i),
                    trim_space_idem link,
                    λ e. cc (full, (is_empty_iff t).1 e),
                  ),
                  IsFresh-weaken t seen _ fresh,
                ),
                (IsFresh-not-In t seen _ fresh, apart),
              )
      ]
    ]

-- Every link that is not blank stands in the result, trimmed, unless it was seen before.
dedup_from-covers :
    (seen links : List Text) (link : Text)
    → In link links
    → trim_space link ≢ []
    → In (trim_space link) seen ⊎ In (trim_space link) (dedup_from seen links)
unfolding dedup_from
dedup_from-covers seen [] link i f = elim i [ ]
dedup_from-covers seen (l ∷ links) link i f =
    let t = trim_space l in
    elim (Bool-cases (is_empty t)) [
      | inl blank ↦ rw blank (elim i [
        | inl e ↦ absurd (f (ap trim_space (sym e) ∙ (is_empty_iff t).0 blank))
        | inr j ↦ dedup_from-covers seen links link j f
      ])
      | inr full ↦ elim (Bool-cases (seen_before t seen)) [
        | inl again ↦
            rw (full, again)
              (elim i [
                | inl e ↦ inl (rw (← e) ((seen_before_iff t seen).0 again))
                | inr j ↦ dedup_from-covers seen links link j f
              ])
        | inr new ↦
            rw (full, new)
              (elim i [
                | inl e ↦ inr (inl (ap trim_space e))
                | inr j ↦ elim (dedup_from-covers (t ∷ seen) links link j f) [
                  | inl (inl e) ↦ inr (inl e)
                  | inl (inr k) ↦ inl k
                  | inr k ↦ inr (inr k)
                ]
              ])
      ]
    ]

dedup_from_sound :
    (seen links : List Text) (t : Text)
    → In t (dedup_from seen links)
    → (link : Text) × In link links × (trim_space link ≡ t)
unfolding dedup_from
dedup_from_sound seen [] t i = elim i [ ]
dedup_from_sound seen (l ∷ links) t i = elim (Bool-cases (is_empty (trim_space l))) [
  | inl blank ↦ later (dedup_from_sound seen links t (rw blank at i))
  | inr full ↦ elim (Bool-cases (seen_before (trim_space l) seen)) [
    | inl again ↦ later (dedup_from_sound seen links t (rw (full, again) at i))
    | inr new ↦ elim (rw (full, new) at i) [
      | inl e ↦ (l, inl refl, e)
      | inr j ↦ later (dedup_from_sound (trim_space l ∷ seen) links t j)
    ]
  ]
]
  where
    later :
        ((link : Text) × In link links × (trim_space link ≡ t))
        → (link : Text) × In link (l ∷ links) × (trim_space link ≡ t)
    later (link, j, e) = (link, inr j, e)

dedup_from_of_IsFresh :
    (seen ts : List Text) → All (IsFresh seen) ts → Distinct ts → dedup_from seen ts ≡ ts
unfolding dedup_from
dedup_from_of_IsFresh seen [] h d = refl
dedup_from_of_IsFresh seen (t ∷ ts) ((n, e, b), h) (u, d) =
    rw (e, is_empty_of_ne t b, seen_before_of_not t seen n)
      (ap (λ r. t ∷ r) (dedup_from_of_IsFresh (t ∷ seen) ts (strengthen ts h u) d))
  where
    is_empty_of_ne : (s : Text) → s ≢ [] → is_empty s ≡ false
    is_empty_of_ne s h = elim (Bool-cases (is_empty s)) [
      | inl p ↦ absurd (h ((is_empty_iff s).0 p))
      | inr p ↦ p
    ]

    seen_before_of_not : (k : Text) (js : List Text) → ¬ In k js → seen_before k js ≡ false
    seen_before_of_not k js h = elim (Bool-cases (seen_before k js)) [
      | inl p ↦ absurd (h ((seen_before_iff k js).0 p))
      | inr p ↦ p
    ]

    strengthen : (us : List Text) → All (IsFresh seen) us → ¬ In t us → All (IsFresh (t ∷ seen)) us
    strengthen [] k w = tt
    strengthen (u ∷ us) ((m, e', b'), k) w = (
      (λ i. elim i [ inl p ↦ w (inl (sym p)) | inr j ↦ m j ], e', b'),
      strengthen us k (λ i. w (inr i)),
    )

-- A link stands in the result exactly when it is the trimmed form of some input link and is not
-- blank; the result has no link twice.
pub deduplicate_links-covers :
    (links : List Text)
    → Distinct (deduplicate_links links).0
      × ((t : Text)
          → In t (deduplicate_links links).0
            ↔ (((link : Text) × In link links × (trim_space link ≡ t)) × (t ≢ [])))
unfolding deduplicate_links
deduplicate_links-covers links =
    let (fresh, apart) = dedup_from-IsFresh [] links in
    (
      apart,
      λ t. (
        λ i. (dedup_from_sound [] links t i, (All-In (IsFresh []) _ fresh i).2),
        λ w. elim (dedup_from-covers [] links w.0.0 w.0.1 (λ e. w.1 (sym w.0.2 ∙ e))) [
          | inl n ↦ absurd n
          | inr i ↦ rw w.0.2 at i
        ],
      ),
    )

-- Deduplicating the result again changes nothing and removes nothing.
pub deduplicate_links_idem :
    (links : List Text)
    → deduplicate_links (deduplicate_links links).0 ≡ ((deduplicate_links links).0, 0)
unfolding deduplicate_links
deduplicate_links_idem links =
    let (fresh, apart) = dedup_from-IsFresh [] links in
    rw (dedup_from_of_IsFresh [] (dedup_from [] links) fresh apart)
      (ap (λ (n : ℕ). (dedup_from [] links, n)) (omega arith))
