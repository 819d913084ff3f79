-- ===== src/Core.antt =====
-- pkg/core: the interface that every proxy core offers to the rest of the program
-- (pkg/core/factory.go, pkg/core/protocol/interface.go), the core that picks one of two by the
-- link's scheme, and the check of a chain of hops (pkg/core/chain.go).
pub mod Selection
use xray_knife.Prelude.{
  ◌≡◌, refl, ◌⊎◌, inl, inr, ℕ, ◌+◌, ◌++◌, Bool, true, false, ◌||◌, ◌&&◌, List, [], ◌∷◌, Option,
  none, some, if◌then◌else◌, ltb, length,
}
use xray_knife.Text.{Text, bytes, eq_text, decimal}

-- A Go call that returns a value and an error, the error by its message.
pub data Fallible {ℓ} (A : Type ℓ) : Type ℓ where
  ok : A → Fallible A
  err : Text → Fallible A

infixl 5 ◌>>=◌ ◌>>◌
abbrev pub ◌>>=◌ {ℓ κ} : {A : Type ℓ} {B : Type κ} → Fallible A → (A → Fallible B) → Fallible B
ok a >>= f = f a
err e >>= f = err e

abbrev pub ◌>>◌ {ℓ} : {B : Type ℓ} → Fallible (Unit {0}) → Fallible B → Fallible B
m >> k = m >>= λ _. k

pub Fallible-cases {ℓ} :
    {A : Type ℓ} (m : Fallible A) → ((a : A) × (m ≡ ok a)) ⊎ ((e : Text) × (m ≡ err e))
Fallible-cases (ok a) = inl (a, refl)
Fallible-cases (err e) = inr (e, refl)

pub record GeneralConfig : Type 0 where
  pub protocol : Text
  pub address : Text
  pub network : Text
  pub port : Text
  pub remark : Text
  pub tls : Text
  pub kind : Text  -- the field `Type`
  pub orig_link : Text

-- The methods of a protocol (the interface `Protocol`).
pub record ProtocolApi (P : Type 0) : Type 0 where
  pub parse : P → Fallible P
  pub get_link : P → Text
  pub general : P → GeneralConfig

-- What the program asks of a core, over the protocols `P` that it creates.
pub record Core (P : Type 0) : Type 0 where
  pub create_protocol : Text → Fallible P
  pub api : ProtocolApi P
  pub open api use *

-- A link that the core reads: created and parsed.
unfoldable pub read_link : {P : Type 0} → Core P → Text → Option P
read_link c link = elim (c.create_protocol link) [
  | err e ↦ none
  | ok p ↦ elim (c.parse p) [ err e ↦ none | ok q ↦ some q ]
]

-- The engines that the automatic core chooses from.
pub data Engine : Type 0 where
  xray singbox : Engine

pub data CoreType : Type 0 where
  xray_core_type singbox_core_type auto_core_type : CoreType

unfoldable pub core_factory : CoreType → Option Engine
core_factory xray_core_type = some xray
core_factory singbox_core_type = some singbox
core_factory auto_core_type = none

abbrev pub xray_schemes : List Text
xray_schemes =
    bytes "vmess"
    ∷ bytes "vless"
    ∷ bytes "trojan"
    ∷ bytes "ss"
    ∷ bytes "socks"
    ∷ bytes "wireguard"
    ∷ []

-- The `switch` on the scheme.
unfoldable pub engine_for_scheme : Text → Option Engine
engine_for_scheme scheme =
    if eq_text scheme (bytes "hysteria2") || eq_text scheme (bytes "hy2")
    then some singbox
    else if eq_text scheme (bytes "vmess")
        || eq_text scheme (bytes "vless")
        || eq_text scheme (bytes "trojan")
        || eq_text scheme (bytes "ss")
        || eq_text scheme (bytes "socks")
        || eq_text scheme (bytes "wireguard")
    then some xray
    else none

-- `scheme_of` is url.Parse and the scheme that it finds.
unfoldable pub select_core_for_link : (Text → Fallible Text) → Text → Fallible Engine
unfolding engine_for_scheme
select_core_for_link scheme_of link = do
  scheme ← scheme_of link
  elim (engine_for_scheme scheme) [
    | none ↦ err (bytes "unsupported protocol for automatic core: " ++ scheme)
    | some e ↦ ok e
  ]

-- The automatic core over the two others.
unfoldable pub automatic_core :
    {P : Type 0} → (Text → Fallible Text) → ProtocolApi P → Core P → Core P → Core P
unfolding select_core_for_link
automatic_core scheme_of api xray_core singbox_core = record {
  create_protocol = λ link. select_core_for_link scheme_of link >>= λ e. elim e [
    | xray ↦ xray_core.create_protocol link
    | singbox ↦ singbox_core.create_protocol link
  ];
  api = api;
}

-- VLESS over TCP, which sing-box does not take as a hop.
unfoldable pub is_vless_tcp : GeneralConfig → Bool
is_vless_tcp g = eq_text g.protocol (bytes "vless") && eq_text g.kind (bytes "tcp")

unfoldable pub first_bad_hop : {P : Type 0} → Core P → ℕ → List P → Fallible (Unit {0})
unfolding is_vless_tcp
first_bad_hop c i [] = ok tt
first_bad_hop c i (hop ∷ hops) =
    if is_vless_tcp (c.general hop)
    then err (
        bytes "sing-box does not support VLESS with TCP transport in chain hop "
        ++ decimal i
        ++ bytes " ("
        ++ (c.general hop).remark
        ++ bytes ")")
    else first_bad_hop c (i + 1) hops

unfoldable pub validate_chain_for_core : {P : Type 0} → Core P → Text → List P → Fallible (Unit {0})
unfolding first_bad_hop
validate_chain_for_core c core_name hops =
    if ltb (length hops) 2
    then err (bytes "chain requires at least 2 hops, got " ++ decimal (length hops))
    else if eq_text core_name (bytes "singbox") || eq_text core_name (bytes "sing-box")
    then first_bad_hop c 0 hops
    else ok tt
