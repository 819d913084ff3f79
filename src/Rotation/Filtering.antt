-- ===== src/Rotation/Filtering.antt =====
-- Which links the blacklist filter lets through.
use mathlib.Core.Path.{subst}
use xray_knife.Prelude.{
  ℕ, ◌≡◌, ◌≢◌, refl, ◌∙◌, Bool, true, false, ◌||◌, List, [], ◌∷◌, Option, none, some, arith,
  if◌then◌else◌, ltb, ◌==◌, length, In, inl, inr, ◌⊎◌, Bool-cases, Option-cases,
}
use xray_knife.Text.{Text, eq_text}
use xray_knife.Text.Equality.{eq_text_refl, eq_text_iff}
use xray_knife.Dict.{lookup, erase, lookup-erase}
use xray_knife.Rotation.Blacklist.{
  Entry, Blacklist, Settings, entry_of, is_expired, is_absent, filter_links, filter_blacklisted,
}

module _ (now : ℕ) where
  -- A link with no entry gets none.
  filter_links-none :
      (links : List Text) (bl : Blacklist) (l : Text)
      → lookup l bl ≡ none
      → lookup l (filter_links now links bl).1 ≡ none
  unfolding filter_links
  filter_links-none [] bl l h = h
  filter_links-none (k ∷ links) bl l h = ground (
    arith,
    filter_links-none links bl l,
    filter_links-none links (erase k bl) l,
    lookup-erase k l bl,
  )

  -- What passes the filter has no entry any more.
  filter_links-fresh :
      (links : List Text) (bl : Blacklist) (l : Text)
      → In l (filter_links now links bl).0
      → lookup l (filter_links now links bl).1 ≡ none
  unfolding filter_links
  filter_links-fresh [] bl l i = elim i [ ]
  filter_links-fresh (k ∷ links) bl l i = elim (Bool-cases (is_expired now (lookup k bl))) [
    | inl e ↦ rw e (elim (rw e at i) [
      | inl q ↦
          filter_links-none links (erase k bl) l (lookup-erase k l bl ∙ rw (q, eq_text_refl l))
      | inr j ↦ filter_links-fresh links (erase k bl) l j
    ])
    | inr e ↦ elim (Bool-cases (is_absent (lookup k bl))) [
      | inl a ↦
          rw (e, a)
            (elim (rw (e, a) at i) [
              | inl q ↦ filter_links-none links bl l (rw (← q) (absent a))
              | inr j ↦ filter_links-fresh links bl l j
            ])
      | inr a ↦ rw (e, a) (filter_links-fresh links bl l (rw (e, a) at i))
    ]
  ]
    where
      absent : {o : Option Entry} → is_absent o ≡ true → o ≡ none
      absent {o} h = ground arith

  filter_links-In :
      (links : List Text) (bl : Blacklist) (l : Text)
      → In l (filter_links now links bl).0
      → In l links
  unfolding filter_links
  filter_links-In [] bl l i = elim i [ ]
  filter_links-In (k ∷ links) bl l i =
      elim (Bool-cases (is_expired now (lookup k bl) || is_absent (lookup k bl))) [
        | inl e ↦ elim (rw e at i) [ inl q ↦ inl q | inr j ↦ inr (filter_links-In links _ l j) ]
        | inr e ↦ inr (filter_links-In links _ l (rw e at i))
      ]

  -- The link may be tested: no entry, or one whose time has passed.
  unfoldable pub admits : Text → Blacklist → Bool
  admits l bl = elim (lookup l bl) [ none ↦ true | some entry ↦ ltb entry.until now ]

  admits-eq :
      (l : Text) (bl : Blacklist)
      → admits l bl ≡ is_expired now (lookup l bl) || is_absent (lookup l bl)
  unfolding admits is_expired is_absent
  admits-eq l bl = elim (Option-cases (lookup l bl)) [
    | inl e ↦ rw (admits, e) refl
    | inr (entry, e) ↦ rw (admits, e) (ground arith)
  ]

  admits-erase : (k l : Text) (bl : Blacklist) → admits l bl ≡ true → admits l (erase k bl) ≡ true
  unfolding admits
  admits-erase k l bl h = ground (arith, lookup-erase k l bl)

  filter_links-keeps :
      (links : List Text) (bl : Blacklist) (l : Text)
      → In l links
      → admits l bl ≡ true
      → In l (filter_links now links bl).0
  unfolding filter_links
  filter_links-keeps [] bl l i h = elim i [ ]
  filter_links-keeps (k ∷ links) bl l i h =
      let bl' = if is_expired now (lookup k bl) then erase k bl else bl in
      let still : admits l bl' ≡ true = ground (arith, admits-erase k l bl) in
      elim (Bool-cases (is_expired now (lookup k bl) || is_absent (lookup k bl))) [
        | inl e ↦
            rw e (elim i [ inl q ↦ inl q | inr j ↦ inr (filter_links-keeps links bl' l j still) ])
        | inr e ↦ rw e (elim i [
          | inl q ↦ absurd (cc (e, admits-eq k bl, rw (← q) at h))
          | inr j ↦ filter_links-keeps links bl' l j still
        ])
      ]

  -- An expired entry that is deleted makes no other link admitted.
  admits-erased :
      (k l : Text) (bl : Blacklist)
      → admits k bl ≡ true
      → admits l (erase k bl) ≡ true
      → admits l bl ≡ true
  unfolding admits
  admits-erased k l bl h e = elim (Bool-cases (eq_text k l)) [
    | inl q ↦ subst (λ (t : Text). admits t bl ≡ true) ((eq_text_iff k l).0 q) h
    | inr q ↦
        subst
          (λ (o : Option Entry).
            elim o as (λ x. Bool) [ none ↦ true | some entry ↦ ltb entry.until now ] ≡ true)
          (lookup-erase k l bl ∙ rw q refl) e
  ]

  filter_links-admits :
      (links : List Text) (bl : Blacklist) (l : Text)
      → In l (filter_links now links bl).0
      → admits l bl ≡ true
  unfolding filter_links
  filter_links-admits [] bl l i = elim i [ ]
  filter_links-admits (k ∷ links) bl l i = elim (Bool-cases (is_expired now (lookup k bl))) [
    | inl x ↦
        let open_k : admits k bl ≡ true = ground (arith, admits-eq k bl) in
        elim (rw x at i) [
          | inl q ↦ rw (← q) open_k
          | inr j ↦ admits-erased k l bl open_k (filter_links-admits links (erase k bl) l j)
        ]
    | inr x ↦ elim (Bool-cases (is_absent (lookup k bl))) [
      | inl a ↦
          let open_k : admits k bl ≡ true = ground (arith, admits-eq k bl) in
          elim (rw (x, a) at i) [
            | inl q ↦ rw (← q) open_k
            | inr j ↦ filter_links-admits links bl l j
          ]
      | inr a ↦ filter_links-admits links bl l (rw (x, a) at i)
    ]
  ]

abbrev pub fresh_entry : Entry
fresh_entry = record { strikes = 0; until = 0 }

module _ (s : Settings) (now : ℕ) (available : List Text) (bl : Blacklist) (l : Text) where
  pub filter_blacklisted-fresh :
      s.blacklist_strikes ≢ 0
      → In l (filter_blacklisted s now available bl).0
      → lookup l (filter_blacklisted s now available bl).1 ≡ none
  unfolding filter_blacklisted lookup
  filter_blacklisted-fresh on i =
      elim (Bool-cases (length (filter_links now available bl).0 == 0)) [
        | inl e ↦ ground arith
        | inr e ↦
            let off : (s.blacklist_strikes == 0) ≡ false = ground arith in
            rw (off, e) (filter_links-fresh now available bl l (rw (off, e) at i))
      ]

  pub filter_blacklisted-In : In l (filter_blacklisted s now available bl).0 → In l available
  unfolding filter_blacklisted
  filter_blacklisted-In i = elim (Bool-cases (s.blacklist_strikes == 0)) [
    | inl off ↦ rw off at i
    | inr on ↦ elim (Bool-cases (length (filter_links now available bl).0 == 0)) [
      | inl e ↦ rw (on, e) at i
      | inr e ↦ filter_links-In now available bl l (rw (on, e) at i)
    ]
  ]

  pub filter_blacklisted-keeps :
      In l available → admits now l bl ≡ true → In l (filter_blacklisted s now available bl).0
  unfolding filter_blacklisted
  filter_blacklisted-keeps i h =
      let kept = filter_links-keeps now available bl l i h in
      elim (Bool-cases (s.blacklist_strikes == 0)) [
        | inl off ↦ rw off i
        | inr on ↦ elim (Bool-cases (length (filter_links now available bl).0 == 0)) [
          | inl e ↦ rw (on, e) i
          | inr e ↦ rw (on, e) kept
        ]
      ]

  -- A link on the blacklist is let through only where no available link is admitted.
  filter_blacklisted-admits :
      s.blacklist_strikes ≢ 0
      → In l (filter_blacklisted s now available bl).0
      → (admits now l bl ≡ true) ⊎ ((k : Text) → In k available → admits now k bl ≡ false)
  unfolding filter_blacklisted
  filter_blacklisted-admits on i =
      let off : (s.blacklist_strikes == 0) ≡ false = ground arith in
      elim (Bool-cases (length (filter_links now available bl).0 == 0)) [
        | inl e ↦ inr (λ k j. elim (Bool-cases (admits now k bl)) [
          | inr shut ↦ shut
          | inl admitted ↦ absurd (
              not_empty k (filter_links now available bl).0
                (filter_links-keeps now available bl k j admitted) e)
        ])
        | inr e ↦ inl (filter_links-admits now available bl l (rw (off, e) at i))
      ]
    where
      not_empty : (k : Text) (ks : List Text) → In k ks → (length ks == 0) ≡ true → ⊥
      not_empty k [] i e = elim i [ ]
      not_empty k (j ∷ ks) i e = ground arith

-- With blacklisting on: a link that the filter lets through is available, has no strikes
-- afterwards, and either has no entry or one whose time has passed, or else no available link has
-- either. Every available link that has no entry, or one whose time has passed, is let through.
pub filter_blacklisted_lem :
    (s : Settings) (now : ℕ) (available : List Text) (bl : Blacklist) (l : Text)
    → s.blacklist_strikes ≢ 0
    → (In l (filter_blacklisted s now available bl).0
        → In l available
          × (entry_of l (filter_blacklisted s now available bl).1 ≡ fresh_entry)
          × ((admits now l bl ≡ true) ⊎ ((k : Text) → In k available → admits now k bl ≡ false)))
      × (In l available → admits now l bl ≡ true → In l (filter_blacklisted s now available bl).0)
unfolding entry_of
filter_blacklisted_lem s now available bl l on = (
  λ i.
      let none_left = filter_blacklisted-fresh s now available bl l on i in
      (
        filter_blacklisted-In s now available bl l i,
        rw (none_left, entry_of),
        filter_blacklisted-admits s now available bl l on i,
      ),
  filter_blacklisted-keeps s now available bl l,
)
