-- ===== src/Chain/Exit.antt =====
-- The hop that a rotation of the exit appends.
use xray_knife.Prelude.{
  ◌≡◌, ◌≢◌, refl, sym, ap, ◌∙◌, ◌↔◌, ◌⊎◌, inl, inr, Bool, true, false, not, ◌&&◌, List, [], ◌∷◌,
  ◌++◌, map, none, some, ltb, length, arith, Bool-cases, Option-cases, In, In-keep,
}
use mathlib.Core.Path.{subst}
use xray_knife.Text.{Text, is_empty, trim_space}
use xray_knife.Text.Equality.{is_empty_iff}
use xray_knife.Core.{ok, err, Core, read_link}
use xray_knife.Pool.{seen_before}
use xray_knife.Pool.Dedup.{seen_before_iff}
use xray_knife.Chain.{used_links, exit_candidates, first_readable, select_exit_hop_from_pool}
use xray_knife.Prelude.Reordered.{IsReordered, IsReordered-In, IsReordered-sym, In-keep_intro}

module _ {P : Type 0} (c : Core P) where
  first_readable_cases :
      (links : List Text)
      → ((p : P) × (link : Text) × (first_readable c links ≡ some p)
          × In link links
          × (read_link c link ≡ some p))
        ⊎ ((first_readable c links ≡ none)
            × ((link : Text) → In link links → read_link c link ≡ none))
  unfolding first_readable
  first_readable_cases [] = inr (refl, λ link i. elim i [ ])
  first_readable_cases (link ∷ links) = elim (Option-cases (read_link c link)) [
    | inr (p, e) ↦ inl (p, link, rw (first_readable, e) refl, inl refl, e)
    | inl e ↦ elim (first_readable_cases links) [
      | inl (p, found, r, i, q) ↦ inl (p, found, rw (first_readable, e) r, inr i, q)
      | inr (r, none_of) ↦ inr (
        rw (first_readable, e) r,
        λ l i. elim i [ inl q ↦ ap (read_link c) (sym q) ∙ e | inr j ↦ none_of l j ],
      )
    ]
  ]

  -- A link that may be the new exit: it stands in the pool, up to the white space around it, is not
  -- blank, and is neither the excluded link nor one of the fixed hops'.
  abbrev pub IsFree : List Text → List P → Text → Text → Type 0
  IsFree pool fixed_hops exclude_link link =
      In link (map trim_space pool)
      × (link ≢ [])
      × (link ≢ exclude_link)
      × (¬ In link (map c.get_link fixed_hops))

  In-used_links :
      (fixed_hops : List P) (exclude_link link : Text)
      → In link (used_links c fixed_hops exclude_link)
      → (link ≡ exclude_link) ⊎ In link (map c.get_link fixed_hops)
  unfolding used_links
  In-used_links fixed_hops exclude_link link i = elim (Bool-cases (is_empty exclude_link)) [
    | inl e ↦ inr (rw e at i)
    | inr e ↦ elim (rw e at i) [ inl q ↦ inl (sym q) | inr j ↦ inr j ]
  ]

  used_links-excluded :
      (fixed_hops : List P) (exclude_link link : Text)
      → link ≢ []
      → link ≡ exclude_link
      → In link (used_links c fixed_hops exclude_link)
  unfolding used_links
  used_links-excluded fixed_hops exclude_link link f q = elim (Bool-cases (is_empty exclude_link)) [
    | inl e ↦ absurd (f (q ∙ (is_empty_iff exclude_link).0 e))
    | inr e ↦ rw e (inl (sym q))
  ]

  used_links-fixed :
      (fixed_hops : List P) (exclude_link link : Text)
      → In link (map c.get_link fixed_hops)
      → In link (used_links c fixed_hops exclude_link)
  unfolding used_links
  used_links-fixed fixed_hops exclude_link link i = elim (Bool-cases (is_empty exclude_link)) [
    | inl e ↦ rw e i
    | inr e ↦ rw e (inr i)
  ]

  exit_candidates_iff :
      (pool : List Text) (fixed_hops : List P) (exclude_link link : Text)
      → In link (exit_candidates (used_links c fixed_hops exclude_link) pool)
        ↔ IsFree pool fixed_hops exclude_link link
  unfolding exit_candidates used_links
  exit_candidates_iff pool fixed_hops exclude_link link =
      let used = used_links c fixed_hops exclude_link in
      let test : Text → Bool = λ l. not (is_empty l) && not (seen_before l used) in
      (
        λ i.
            let (stands, passes) = In-keep test link (map trim_space pool) i in
            let full : is_empty link ≡ false = ground arith in
            let new : seen_before link used ≡ false = ground arith in
            let out : ¬ In link used = λ j. cc (new, (seen_before_iff link used).1 j) in
            let some_text : link ≢ [] = λ e. cc (full, (is_empty_iff link).1 e) in
            (
              stands,
              some_text,
              λ q. out (used_links-excluded fixed_hops exclude_link link some_text q),
              λ j. out (used_links-fixed fixed_hops exclude_link link j),
            ),
        λ (stands, some_text, other, apart).
            let full : is_empty link ≡ false = elim (Bool-cases (is_empty link)) [
              | inl e ↦ absurd (some_text ((is_empty_iff link).0 e))
              | inr e ↦ e
            ] in
            let new : seen_before link used ≡ false = elim (Bool-cases (seen_before link used)) [
              | inl e ↦
                  absurd
                    (elim (In-used_links fixed_hops exclude_link link
                      ((seen_before_iff link used).0 e)) [ inl q ↦ other q | inr j ↦ apart j ])
              | inr e ↦ e
            ] in
            In-keep_intro test link (map trim_space pool) stands (ground arith),
      )

  -- The chain with a new exit is the fixed hops and one more, read from a link of the pool that is
  -- not blank, is in no fixed hop and is not the excluded one; and an error comes back only where
  -- there are no fixed hops or none of those links can be read. This holds for every reordering of
  -- the candidates.
  pub select_exit_hop_from_pool_lem :
      (shuffle : List Text → List Text) (pool : List Text) (fixed_hops : List P)
      (exclude_link : Text)
      → ((l : List Text) → IsReordered (shuffle l) l)
      → let out = select_exit_hop_from_pool shuffle c pool fixed_hops exclude_link in
        ((p : P) × (link : Text) × (out ≡ ok (fixed_hops ++ p ∷ []))
          × (read_link c link ≡ some p)
          × IsFree pool fixed_hops exclude_link link)
        ⊎ (((e : Text) × (out ≡ err e))
            × ((fixed_hops ≡ [])
                ⊎ ((link : Text)
                    → IsFree pool fixed_hops exclude_link link
                    → read_link c link ≡ none)))
  unfolding select_exit_hop_from_pool
  select_exit_hop_from_pool_lem shuffle pool fixed_hops exclude_link h =
      let candidates = exit_candidates (used_links c fixed_hops exclude_link) pool in
      elim (Bool-cases (ltb (length fixed_hops) 1)) [
        | inl few ↦ rw few (inr ((_, refl), inl (nothing fixed_hops few)))
        | inr enough ↦ elim (Bool-cases (ltb (length candidates) 1)) [
          | inl none_left ↦
              rw (enough, none_left)
                (inr (
                  (_, refl),
                  inr λ link free.
                      elim (subst (λ x. In link x) (nothing candidates none_left)
                        ((exit_candidates_iff pool fixed_hops exclude_link link).1 free)) [ ],
                ))
          | inr left ↦ elim (first_readable_cases (shuffle candidates)) [
            | inl (p, link, r, i, q) ↦
                rw (enough, left, r)
                  (inl (
                    p,
                    link,
                    refl,
                    q,
                    (exit_candidates_iff pool fixed_hops exclude_link link).0
                        (IsReordered-In link (h candidates) i),
                  ))
            | inr (r, unread) ↦
                rw (enough, left, r)
                  (inr (
                    (_, refl),
                    inr λ link free. unread link (
                        IsReordered-In link (IsReordered-sym (h candidates))
                          ((exit_candidates_iff pool fixed_hops exclude_link link).1 free)),
                  ))
          ]
        ]
      ]
    where
      nothing : {A : Type 0} (l : List A) → ltb (length l) 1 ≡ true → l ≡ []
      nothing [] e = refl
      nothing (x ∷ l) e = ground arith
