-- ===== src/Core/Selection.antt =====
-- Which engine a scheme gets, and which chains a core accepts.
use xray_knife.Prelude.{
  ◌++◌, ◌+◌, ℕ, ◌≤◌, ◌≡◌, refl, sym, ◌∙◌, ◌↔◌, ◌⊎◌, inl, inr, Bool, true, false, ◌||◌, List, [],
  ◌∷◌, none, some, arith, length, In, All, Bool-cases, ltb, if◌then◌else◌,
}
use xray_knife.Text.{Text, bytes, eq_text}
use xray_knife.Text.Equality.{eq_text_iff}
use xray_knife.Core.{
  Core, Engine, xray, singbox, ok, err, Fallible, ProtocolApi, xray_schemes, engine_for_scheme,
  is_vless_tcp, first_bad_hop, validate_chain_for_core, select_core_for_link, automatic_core,
}

abbrev pub singbox_schemes : List Text
singbox_schemes = bytes "hysteria2" ∷ bytes "hy2" ∷ []

-- A chain of tests against a list of texts.
abbrev one_of : Text → List Text → Bool
one_of s [] = false
one_of s (t ∷ ts) = eq_text s t || one_of s ts

one_of_iff : (s : Text) (ts : List Text) → (one_of s ts ≡ true) ↔ In s ts
one_of_iff s [] = (λ h. cc, λ h. elim h [ ])
one_of_iff s (t ∷ ts) =
    let ih = one_of_iff s ts in
    let e = eq_text_iff s t in
    (
      λ h. elim (Bool-cases (eq_text s t)) [
        | inl p ↦ inl (sym (e.0 p))
        | inr p ↦ inr (ih.0 (rw p at h))
      ],
      λ i. elim i [ inl p ↦ rw (e.1 (sym p)) | inr j ↦ rw (ih.1 j) (ground arith) ],
    )

engine_cases :
    (s : Text)
    → engine_for_scheme s ≡ (
        if one_of s singbox_schemes
        then some singbox
        else if one_of s xray_schemes
        then some xray
        else none)
unfolding engine_for_scheme
engine_cases s = ground arith

schemes_apart : (s : Text) → In s xray_schemes → one_of s singbox_schemes ≡ false
unfolding eq_text
schemes_apart s (inl e) = rw (← e)
schemes_apart s (inr (inl e)) = rw (← e)
schemes_apart s (inr (inr (inl e))) = rw (← e)
schemes_apart s (inr (inr (inr (inl e)))) = rw (← e)
schemes_apart s (inr (inr (inr (inr (inl e))))) = rw (← e)
schemes_apart s (inr (inr (inr (inr (inr (inl e)))))) = rw (← e)
schemes_apart s (inr (inr (inr (inr (inr (inr n)))))) = elim n [ ]

-- The automatic core hands a link to sing-box exactly when its scheme is one of Hysteria's two, to
-- xray exactly when it is one of xray's six, and refuses it otherwise.
pub engine_for_scheme_iff :
    (s : Text)
    → ((engine_for_scheme s ≡ some singbox) ↔ In s singbox_schemes)
      × ((engine_for_scheme s ≡ some xray) ↔ In s xray_schemes)
engine_for_scheme_iff s =
    let box = one_of_iff s singbox_schemes in
    let ray = one_of_iff s xray_schemes in
    let c = engine_cases s in
    (
      (λ h. box.0 (ground (arith, c, h)), λ i. rw (c, box.1 i)),
      (λ h. ray.0 (ground (arith, c, h)), λ i. rw (c, schemes_apart s i, ray.1 i)),
    )

engine_none : (s : Text) → ¬ In s singbox_schemes → ¬ In s xray_schemes → engine_for_scheme s ≡ none
engine_none s n m = engine_cases s ∙ rw (not_one s singbox_schemes n, not_one s xray_schemes m)
  where
    not_one : (t : Text) (ts : List Text) → ¬ In t ts → one_of t ts ≡ false
    not_one t ts h = elim (Bool-cases (one_of t ts)) [
      | inl p ↦ absurd (h ((one_of_iff t ts).0 p))
      | inr p ↦ p
    ]

-- The core to which the automatic core sends a link of a known scheme.
abbrev pub core_of : {P : Type 0} → Engine → Core P → Core P → Core P
core_of xray x b = x
core_of singbox x b = b

-- The automatic core creates for a link what the core of the link's scheme creates for it; it
-- fails for a link whose scheme is neither core's.
pub automatic_core_dispatch :
    {P : Type 0} (scheme_of : Text → Fallible Text) (api : ProtocolApi P) (x b : Core P)
    (link scheme : Text)
    → scheme_of link ≡ ok scheme
    → let made = (automatic_core scheme_of api x b).create_protocol link in
      (In scheme singbox_schemes → made ≡ b.create_protocol link)
      × (In scheme xray_schemes → made ≡ x.create_protocol link)
      × (¬ In scheme singbox_schemes → ¬ In scheme xray_schemes → (e : Text) × (made ≡ err e))
unfolding automatic_core select_core_for_link
automatic_core_dispatch scheme_of api x b link scheme h = (
  λ i. ground (arith, h, (engine_for_scheme_iff scheme).0.1 i),
  λ i. ground (arith, h, (engine_for_scheme_iff scheme).1.1 i),
  λ n m.
      let unknown = engine_none scheme n m in
      (bytes "unsupported protocol for automatic core: " ++ scheme, ground (arith, h, unknown)),
)

first_bad_hop_iff :
    {P : Type 0} (c : Core P) (i : ℕ) (hops : List P)
    → (first_bad_hop c i hops ≡ ok tt) ↔ All (λ (p : P). is_vless_tcp (c.general p) ≡ false) hops
unfolding first_bad_hop
first_bad_hop_iff c i [] = (λ h. tt, λ h. refl)
first_bad_hop_iff c i (hop ∷ hops) =
    let (to, from) = first_bad_hop_iff c (i + 1) hops in
    elim (Bool-cases (is_vless_tcp (c.general hop))) [
      | inl e ↦ rw e (λ h. cc, λ h. cc)
      | inr e ↦ rw e (λ h. (refl, to h), λ h. from h.1)
    ]

validate_chain_for_core_back :
    {P : Type 0} (c : Core P) (core_name : Text) (hops : List P)
    → 2 ≤ length hops
    → ((core_name ≡ bytes "singbox") ⊎ (core_name ≡ bytes "sing-box")
        → All (λ (p : P). is_vless_tcp (c.general p) ≡ false) hops)
    → validate_chain_for_core c core_name hops ≡ ok tt
unfolding validate_chain_for_core
validate_chain_for_core_back c core_name hops long good =
    let from = (first_bad_hop_iff c 0 hops).1 in
    let a = eq_text_iff core_name (bytes "singbox") in
    let b = eq_text_iff core_name (bytes "sing-box") in
    let enough : ltb (length hops) 2 ≡ false = ground arith in
    elim (Bool-cases (eq_text core_name (bytes "singbox"))) [
      | inl e ↦ rw (enough, e) (from (good (inl (a.0 e))))
      | inr e ↦ elim (Bool-cases (eq_text core_name (bytes "sing-box"))) [
        | inl f ↦ rw (enough, e, f) (from (good (inr (b.0 f))))
        | inr f ↦ rw (enough, e, f)
      ]
    ]

-- A chain is accepted exactly when it has two hops or more and, for sing-box, none of them is
-- VLESS over TCP.
pub validate_chain_for_core_iff :
    {P : Type 0} (c : Core P) (core_name : Text) (hops : List P)
    → (validate_chain_for_core c core_name hops ≡ ok tt) ↔ (
        (2 ≤ length hops)
        × ((core_name ≡ bytes "singbox") ⊎ (core_name ≡ bytes "sing-box")
            → All (λ (p : P). is_vless_tcp (c.general p) ≡ false) hops))
unfolding validate_chain_for_core
validate_chain_for_core_iff c core_name hops =
    let (to, from) = first_bad_hop_iff c 0 hops in
    let a = eq_text_iff core_name (bytes "singbox") in
    let b = eq_text_iff core_name (bytes "sing-box") in
    (
      λ h. (ground arith, λ o. to (ground (arith, a, b, o))),
      λ w. validate_chain_for_core_back c core_name hops w.0 w.1,
    )
