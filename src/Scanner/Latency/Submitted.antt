-- ===== src/Scanner/Latency/Submitted.antt =====
-- The addresses that the latency phase submits, against the subnets.
use mathlib.Core.Path.{subst}
use mathlib.Core.Option.{none-ne-some, some-injective}
use xray_knife.Prelude.{
  ℕ, suc, ◌<◌, ◌≡◌, refl, sym, ap, ◌∙◌, ◌⊎◌, inl, inr, ◌↔◌, Bool, true, false, ◌||◌, not, List, [],
  ◌∷◌, Bool-cases, none, some, if◌then◌else◌, length, keep, any, ◌==◌, In, arith, In-keep,
  In-append_left, In-append_right, In-append_cases,
}
use xray_knife.Text.{Text, bytes}
use xray_knife.Core.{Fallible, err}
use xray_knife.Prelude.Reordered.{In-keep_intro, IsReordered}
use xray_knife.Prelude.Reordered.{In-keep_intro}
use xray_knife.Addresses.{Ip, Cidr}
use xray_knife.Scanner.{ScannerConfig}
use xray_knife.Scanner.Latency.{
  Net, is_scanned, Targets, no_targets, add_subnet, collect_targets, run_latency_scan,
}
use xray_knife.Scanner.Latency.Listing.{Belongs, IsScannable, unread, read, listing}

abbrev no_ips : Fallible (Unit {0})
no_ips = err (bytes "scanner failed: no scannable IPs detected")

answer :
    {A : Type 0} (has p : Bool) (n : ℕ) (e w : A)
    → has ≡ (false || p)
    → (if not has then (if n == 0 then e else w) else w) ≡ (if p || not (n == 0) then w else e)
answer has p n e w h = ground arith

module _ {A B W V : Type 0} where
  either_skip : (A ↔ (B ⊎ W)) → (V ↔ W) → A ↔ (B ⊎ V)
  either_skip h k = (
    λ a. elim (h.0 a) [ inl b ↦ inl b | inr w ↦ inr (k.1 w) ],
    λ s. elim s [ inl b ↦ h.1 (inl b) | inr v ↦ h.1 (inr (k.0 v)) ],
  )

  either_cons : {T U : Type 0} → (A ↔ (B ⊎ W)) → (B ↔ (T ⊎ V)) → (U ↔ (V ⊎ W)) → A ↔ (T ⊎ U)
  either_cons h k l = (
    λ a. elim (h.0 a) [
      | inl b ↦ elim (k.0 b) [ inl t ↦ inl t | inr v ↦ inr (l.1 (inl v)) ]
      | inr w ↦ inr (l.1 (inr w))
    ],
    λ s. elim s [
      | inl t ↦ h.1 (inl (k.1 (inl t)))
      | inr u ↦ elim (l.0 u) [ inl v ↦ h.1 (inl (k.1 (inr v))) | inr w ↦ h.1 (inr w) ]
    ],
  )

-- The subnets of the list that hold the address, which an earlier scan has not tested.
abbrev pub IsWanted : Net → List Text → List Text → Text → Type 0
IsWanted net scanned cidrs ip =
    ((cidr : Text) × (subnet : Cidr) × (a : Ip) × In cidr cidrs
      × (net.parse_cidr cidr ≡ some subnet)
      × Belongs subnet a
      × (net.show_ip a ≡ ip))
    × (is_scanned scanned ip ≡ false)

-- The subnets that the loop reaches from number `i` on, where `done` says before which of them the
-- context is done; and whether it is cut off.
abbrev pub reached : (ℕ → Bool) → ℕ → List Text → List Text
reached done i [] = []
reached done i (cidr ∷ cidrs) =
    let rest = reached done (suc i) cidrs in if done i then [] else cidr ∷ rest

abbrev pub is_cut : (ℕ → Bool) → ℕ → List Text → Bool
is_cut done i [] = false
is_cut done i (cidr ∷ cidrs) = let rest = is_cut done (suc i) cidrs in done i || rest

abbrev pub parses : Net → Text → Bool
parses net cidr = elim (net.parse_cidr cidr) [ none ↦ false | some c ↦ true ]

module _ (net : Net) (c : ScannerConfig) (shuffle : List Text → List Text)
    (reorders : (ips : List Text) → IsReordered (shuffle ips) ips) (scanned : List Text)
    (done : ℕ → Bool) where
  add_subnet-In :
      (ips : List Text) (t : Targets) (ip : Text)
      → In ip (add_subnet scanned ips t).submitted
        ↔ (In ip t.submitted ⊎ (In ip ips × (is_scanned scanned ip ≡ false)))
  unfolding add_subnet
  add_subnet-In ips t ip =
      let fresh : Text → Bool = λ s. not (is_scanned scanned s) in
      (
        λ i. elim (In-append_cases ip t.submitted (keep fresh ips) i) [
          | inl j ↦ inl j
          | inr j ↦ let (k, e) = In-keep fresh ip ips j in inr (k, ground arith)
        ],
        λ s. elim s [
          | inl j ↦ In-append_left ip t.submitted (keep fresh ips) j
          | inr (k, e) ↦
              In-append_right ip t.submitted (keep fresh ips)
                (In-keep_intro fresh ip ips k (ap not e))
        ],
      )

  IsWanted-skip :
      (cidr : Text) (cidrs : List Text) (ip : Text)
      → net.parse_cidr cidr ≡ none
      → IsWanted net scanned (cidr ∷ cidrs) ip ↔ IsWanted net scanned cidrs ip
  IsWanted-skip cidr cidrs ip e = (
    λ ((cidr2, subnet, a, i, p, b, s), f). elim i [
      | inl q ↦ absurd (none-ne-some subnet (sym e ∙ ap net.parse_cidr q ∙ p))
      | inr j ↦ ((cidr2, subnet, a, j, p, b, s), f)
    ],
    λ ((cidr2, subnet, a, i, p, b, s), f). ((cidr2, subnet, a, inr i, p, b, s), f),
  )

  IsWanted-cons :
      (cidr : Text) (cidrs : List Text) (ip : Text) (subnet : Cidr) (ips : List Text)
      → net.parse_cidr cidr ≡ some subnet
      → (In ip ips ↔ ((a : Ip) × Belongs subnet a × (net.show_ip a ≡ ip)))
      → IsWanted net scanned (cidr ∷ cidrs) ip
        ↔ ((In ip ips × (is_scanned scanned ip ≡ false)) ⊎ IsWanted net scanned cidrs ip)
  IsWanted-cons cidr cidrs ip subnet ips e h = (
    λ ((cidr2, subnet2, a, i, p, b, s), f). elim i [
      | inl q ↦
          let same = some-injective subnet2 subnet (sym p ∙ ap net.parse_cidr (sym q) ∙ e) in
          inl (h.1 (a, subst (λ (n : Cidr). Belongs n a) same b, s), f)
      | inr j ↦ inr ((cidr2, subnet2, a, j, p, b, s), f)
    ],
    λ w. elim w [
      | inl (j, f) ↦ let (a, b, s) = h.0 j in ((cidr, subnet, a, inl refl, e, b, s), f)
      | inr ((cidr2, subnet2, a, i, p, b, s), f) ↦ ((cidr2, subnet2, a, inr i, p, b, s), f)
    ],
  )

  nothing-IsWanted : (ip : Text) → ¬ IsWanted net scanned [] ip
  nothing-IsWanted ip ((cidr, subnet, a, i, p, b, s), f) = elim i [ ]

  parses-none : (cidr : Text) → net.parse_cidr cidr ≡ none → parses net cidr ≡ false
  parses-none cidr e = rw (parses, e) refl

  parses-some :
      (cidr : Text) (subnet : Cidr) → net.parse_cidr cidr ≡ some subnet → parses net cidr ≡ true
  parses-some cidr subnet e = rw (parses, e) refl

  add_subnet-has_ips :
      (ips : List Text) (t : Targets) → 0 < length ips → (add_subnet scanned ips t).has_ips ≡ true
  unfolding add_subnet
  add_subnet-has_ips ips t h = ground arith

  collect_targets-from :
      (i : ℕ) (cidrs : List Text) (t : Targets)
      → ((cidr : Text) (subnet : Cidr)
          → In cidr cidrs
          → net.parse_cidr cidr ≡ some subnet
          → IsScannable net subnet)
      → (out : Targets) × (collect_targets net c shuffle scanned done i cidrs t
          ≡ some (out, is_cut done i cidrs))
        × ((ip : Text)
            → In ip out.submitted
              ↔ (In ip t.submitted ⊎ IsWanted net scanned (reached done i cidrs) ip))
        × (out.has_ips ≡ t.has_ips || any (parses net) (reached done i cidrs))
  unfolding collect_targets
  collect_targets-from i [] t scannable = (
    t,
    refl,
    λ ip. (λ j. inl j, λ s. elim s [ inl j ↦ j | inr w ↦ absurd (nothing-IsWanted ip w) ]),
    ground arith,
  )
  collect_targets-from i (cidr ∷ cidrs) t scannable =
      let later =
        λ (cidr2 : Text) (subnet : Cidr) (j : In cidr2 cidrs). scannable cidr2 subnet (inr j) in
      elim (Bool-cases (done i)) [
        | inl d ↦ (
          t,
          rw (collect_targets, d) refl,
          λ ip.
              rw d (λ j. inl j, λ s. elim s [ inl j ↦ j | inr w ↦ absurd (nothing-IsWanted ip w) ]),
          rw d (ground arith),
        )
        | inr d ↦
            elim (listing net c shuffle reorders cidr
              (λ subnet. scannable cidr subnet (inl refl))) [
                | unread e q ↦
                    let (out, found, all, has) = collect_targets-from (suc i) cidrs t later in
                    (
                      out,
                      rw (collect_targets, d, q) found,
                      λ ip. rw d (
                          either_skip (all ip)
                            (IsWanted-skip cidr (reached done (suc i) cidrs) ip e)),
                      rw d (has ∙ ground (arith, parses-none cidr e)),
                    )
                | read subnet ips e q each many ↦
                    let (out, found, all, has) =
                      collect_targets-from (suc i) cidrs (add_subnet scanned ips t) later in
                    (
                      out,
                      rw (collect_targets, d, q) found,
                      λ ip. rw d (
                          either_cons (all ip) (add_subnet-In ips t ip) (
                            IsWanted-cons cidr (reached done (suc i) cidrs) ip subnet ips e
                              (each ip))),
                      rw d (
                          has
                          ∙ ground
                              (arith, add_subnet-has_ips ips t many, parses-some cidr subnet e)),
                    )
              ]
      ]

  -- The context may be done before any of the subnets. Where every subnet that can be read has a
  -- prefix, is smaller than the rounds of the loops and holds no IPv4 address in sixteen bytes, and
  -- whatever the shuffle: the phase goes through the subnets before which the context is not done,
  -- and submits exactly the addresses of these that an earlier scan has not tested. It answers that
  -- it was cancelled where it is cut off; fails where it is not, no subnet can be read and there are
  -- no earlier results; and otherwise answers what the pool of workers answers.
  pub run_latency_scan_lem :
      (initial : ℕ) (wait : Fallible (Unit {0}))
      → ((cidr : Text) (subnet : Cidr)
          → In cidr c.subnets
          → net.parse_cidr cidr ≡ some subnet
          → IsScannable net subnet)
      → (out : Targets) × (run_latency_scan net c shuffle scanned done initial wait
          ≡ some (
            out,
            if is_cut done 0 c.subnets
                then err (bytes "context canceled")
                else if any (parses net) (reached done 0 c.subnets) || not (initial == 0)
                then wait
                else err (bytes "scanner failed: no scannable IPs detected"),
          ))
        × ((ip : Text) → In ip out.submitted ↔ IsWanted net scanned (reached done 0 c.subnets) ip)
  unfolding run_latency_scan
  run_latency_scan_lem initial wait scannable =
      let (out, found, all, has) = collect_targets-from 0 c.subnets no_targets scannable in
      (
        out,
        elim (Bool-cases (is_cut done 0 c.subnets)) [
          | inl t ↦ rw (run_latency_scan, found, t) refl
          | inr t ↦
              rw (run_latency_scan, found, t)
                (ap (λ (a : Fallible (Unit {0})). some (out, a))
                  (answer out.has_ips (any (parses net) (reached done 0 c.subnets)) initial no_ips
                    wait has))
        ],
        λ ip.
            (λ i. elim ((all ip).0 i) [ inl j ↦ elim j [ ] | inr w ↦ w ], λ w. (all ip).1 (inr w)),
      )
