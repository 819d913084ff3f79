-- ===== src/Chain/Fixed.antt =====
-- What the loop over given links reads, and when a fixed chain is accepted.
use xray_knife.Prelude.{
  ℕ, suc, ◌+◌, ◌≤◌, ◌≡◌, refl, sym, ap, ◌∙◌, ◌↔◌, ◌⊎◌, inl, inr, true, false, List, [], ◌∷◌, ◌++◌,
  map, append-nil, append_assoc, Option, none, some, if◌then◌else◌, ltb, length, arith, Bool-cases,
  Option-cases,
}
use mathlib.Core.Path.{subst}
use xray_knife.Text.{Text, is_empty, trim_space}
use xray_knife.Core.{Fallible, ok, err, Core, read_link, Fallible-cases}
use xray_knife.Chain.{hop_at, read_hops, hops_of_links, chain_source, resolve_fixed_chain}

module _ {P : Type 0} (c : Core P) where
  -- The hops that the links which are not blank stand for, one by one.
  abbrev pub readings : List Text → List (Option P)
  readings [] = []
  readings (link ∷ links) =
      let rest = readings links in
      if is_empty (trim_space link) then rest else read_link c (trim_space link) ∷ rest

  read_link_ok :
      (t : Text) (p q : P) → c.create_protocol t ≡ ok p → c.parse p ≡ ok q → read_link c t ≡ some q
  unfolding read_link
  read_link_ok t p q h k = rw (read_link, h, k) refl

  read_link_err :
      (t : Text) (p : P) (e : Text)
      → c.create_protocol t ≡ ok p
      → c.parse p ≡ err e
      → read_link c t ≡ none
  unfolding read_link
  read_link_err t p e h k = rw (read_link, h, k) refl

  read_link_not_created : (t e : Text) → c.create_protocol t ≡ err e → read_link c t ≡ none
  unfolding read_link
  read_link_not_created t e h = rw (read_link, h) refl

  -- A round passes over a blank link, reads one, or ends with an error.
  hop_at_cases :
      (i : ℕ) (link : Text)
      → ((is_empty (trim_space link) ≡ true) × (hop_at c i link ≡ ok none))
        ⊎ ((is_empty (trim_space link) ≡ false)
            × (((q : P) × (read_link c (trim_space link) ≡ some q)
                  × (hop_at c i link ≡ ok (some q)))
                ⊎ ((e : Text) × (read_link c (trim_space link) ≡ none)
                    × (hop_at c i link ≡ err e))))
  unfolding hop_at read_link
  hop_at_cases i link = elim (Bool-cases (is_empty (trim_space link))) [
    | inl b ↦ rw b (inl (refl, refl))
    | inr f ↦ elim (Fallible-cases (c.create_protocol (trim_space link))) [
      | inr (e, q) ↦ rw (f, q) (inr (refl, inr (_, read_link_not_created _ e q, refl)))
      | inl (p, q) ↦ elim (Fallible-cases (c.parse p)) [
        | inr (e, r) ↦ rw (f, q, r) (inr (refl, inr (_, read_link_err _ p e q r, refl)))
        | inl (m, r) ↦ rw (f, q, r) (inr (refl, inl (m, read_link_ok _ p m q r, refl)))
      ]
    ]
  ]

  abbrev IsReadAs : List P → List P → List (Option P) → Type 0
  IsReadAs acc hops read = (more : List P) × (hops ≡ acc ++ more) × (read ≡ map some more)

  cons_some_iff :
      (acc hops : List P) (q : P) (read : List (Option P))
      → IsReadAs (acc ++ q ∷ []) hops read ↔ IsReadAs acc hops (some q ∷ read)
  cons_some_iff acc hops q read = (
    λ (more, h, r). (q ∷ more, h ∙ append_assoc acc (q ∷ []) more, ap (λ x. some q ∷ x) r),
    λ w. back w.0 w.1 w.2,
  )
    where
      back :
          (more : List P)
          → hops ≡ acc ++ more
          → some q ∷ read ≡ map some more
          → IsReadAs (acc ++ q ∷ []) hops read
      back [] h r = cc r
      back (m ∷ more) h r = (
        more,
        h ∙ ap (λ x. acc ++ x ∷ more) (sym same) ∙ sym (append_assoc acc (q ∷ []) more),
        cc r,
      )
        where
          same : q ≡ m
          same = cc r

  -- The rest of the loop after a round.
  abbrev after_hop : ℕ → List Text → List P → Fallible (Option P) → Fallible (List P)
  after_hop i links acc (err e) = err e
  after_hop i links acc (ok none) = read_hops c (i + 1) links acc
  after_hop i links acc (ok (some q)) = read_hops c (i + 1) links (acc ++ q ∷ [])

  read_hops_iff :
      (links : List Text) (i : ℕ) (acc hops : List P)
      → (read_hops c i links acc ≡ ok hops) ↔ IsReadAs acc hops (readings links)
  unfolding read_hops
  read_hops_iff [] i acc hops = (λ h. ([], cc (h, append-nil acc), refl), λ w. empty w.0 w.1 w.2)
    where
      empty : (more : List P) → hops ≡ acc ++ more → [] ≡ map some more → ok acc ≡ ok hops
      empty [] h r = ap ok (sym (h ∙ append-nil acc))
      empty (m ∷ more) h r = cc r
  read_hops_iff (link ∷ links) i acc hops = elim (hop_at_cases i link) [
    | inl (b, h) ↦
        subst
          (λ m. (after_hop i links acc m ≡ ok hops) ↔ IsReadAs acc hops (readings (link ∷ links)))
          (sym h) (rw b (read_hops_iff links (i + 1) acc hops))
    | inr (f, inl (q, r, h)) ↦
        subst
          (λ m. (after_hop i links acc m ≡ ok hops) ↔ IsReadAs acc hops (readings (link ∷ links)))
          (sym h)
          (rw (f, r)
            (
              λ k.
                  (cons_some_iff acc hops q (readings links)).0
                    ((read_hops_iff links (i + 1) (acc ++ q ∷ []) hops).0 k),
              λ k.
                  (read_hops_iff links (i + 1) (acc ++ q ∷ []) hops).1
                    ((cons_some_iff acc hops q (readings links)).1 k),
            ))
    | inr (f, inr (e, r, h)) ↦
        subst
          (λ m. (after_hop i links acc m ≡ ok hops) ↔ IsReadAs acc hops (readings (link ∷ links)))
          (sym h) (rw (f, r) (λ k. absurd (cc k), λ w. absurd (unread w.0 w.2)))
  ]
    where
      unread : (more : List P) → none ∷ readings links ≡ map some more → ⊥
      unread [] e = cc e
      unread (m ∷ more) e = cc e

  length-readings-le : (links : List Text) → length (readings links) ≤ length links
  length-readings-le [] = omega arith
  length-readings-le (link ∷ links) = ground (arith, length-readings-le links)

  length-map-some : (hops : List P) → length (map some hops) ≡ length hops
  length-map-some [] = refl
  length-map-some (hop ∷ hops) = ap suc (length-map-some hops)

  hops_of_links_inverse :
      (links : List Text) (hops : List P)
      → hops_of_links c links ≡ ok hops
      → (read_hops c 0 links [] ≡ ok hops) × (2 ≤ length hops)
  unfolding hops_of_links
  hops_of_links_inverse links hops h = elim (Bool-cases (ltb (length links) 2)) [
    | inl short ↦ absurd (cc (rw short at h))
    | inr long ↦ elim (Fallible-cases (read_hops c 0 links [])) [
      | inr (e, q) ↦ absurd (cc (rw (long, q) at h))
      | inl (read, q) ↦ elim (Bool-cases (ltb (length read) 2)) [
        | inl few ↦ absurd (cc (rw (long, q, few) at h))
        | inr enough ↦
            let same : ok read ≡ ok hops = rw (long, q, enough) at h in
            let same' : read ≡ hops = cc same in
            (cc (q, same), subst (λ x. 2 ≤ length x) same' (ground arith))
      ]
    ]
  ]

  hops_of_links_iff :
      (links : List Text) (hops : List P)
      → (hops_of_links c links ≡ ok hops) ↔ ((2 ≤ length hops) × (readings links ≡ map some hops))
  unfolding hops_of_links
  hops_of_links_iff links hops = (
    λ h.
        let (read, enough) = hops_of_links_inverse links hops h in
        let (more, same, r) = (read_hops_iff links 0 [] hops).0 read in
        (enough, r ∙ ap (map some) (sym same)),
    λ (enough, r).
        let read = (read_hops_iff links 0 [] hops).1 (hops, refl, r) in
        let long : ltb (length links) 2 ≡ false =
          ground (arith, length-readings-le links, ap length r, length-map-some hops, enough) in
        let many : ltb (length hops) 2 ≡ false = ground arith in
        rw (hops_of_links, long, read, many) refl,
  )

  -- A fixed chain is accepted, with these hops, just when the command names a source of links, its
  -- links that are not blank are read, each and in order, as these hops, and there are two or more.
  pub resolve_fixed_chain_iff :
      (scan_lines : Text → List Text) (chain_links chain_file : Text) (hops : List P)
      → (resolve_fixed_chain scan_lines c chain_links chain_file ≡ ok hops) ↔ (
          (links : List Text) × (chain_source scan_lines chain_links chain_file ≡ some links)
          × (2 ≤ length hops)
          × (readings links ≡ map some hops))
  unfolding resolve_fixed_chain
  resolve_fixed_chain_iff scan_lines chain_links chain_file hops =
      elim (Option-cases (chain_source scan_lines chain_links chain_file)) [
        | inl e ↦
            rw (resolve_fixed_chain, e) (λ h. absurd (cc h), λ (links, q, n, r). absurd (cc q))
        | inr (found, e) ↦
            rw (resolve_fixed_chain, e)
              (
                λ h. let (n, r) = (hops_of_links_iff found hops).0 h in (found, refl, n, r),
                λ (links, q, n, r).
                    (hops_of_links_iff found hops).1
                      (n, subst (λ x. readings x ≡ map some hops) (cc q) r),
              )
      ]
