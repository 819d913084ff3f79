-- ===== src/Scanner/Client/Address.antt =====
-- The address that the scanner puts into a protocol.
use mathlib.Core.Option.{none-ne-some}
use xray_knife.Prelude.{
  ℕ, ◌≡◌, ◌↔◌, refl, sym, ap, ◌∙◌, inl, inr, true, false, ◌||◌, [], ◌∷◌, ◌++◌, none, some, arith,
  ◌==◌, Bool-cases, Option-cases, append_assoc,
}
use xray_knife.Text.{Text, bytes, contains, has_prefix}
use xray_knife.Core.{ok, Fallible-cases}
use xray_knife.Prescan.{join_host_port}
use xray_knife.Scanner.Client.{
  struct, cut_at, has_byte, split_bracketed, split_plain, split_parts, split_host_port, set_address,
}

has_byte-append : (c : ℕ) (s t : Text) → has_byte c (s ++ t) ≡ has_byte c s || has_byte c t
unfolding has_byte
has_byte-append c [] t = refl
has_byte-append c (d ∷ s) t = ground (arith, has_byte-append c s t)

cut_at-append : (c : ℕ) (s t : Text) → has_byte c s ≡ false → cut_at c (s ++ (c ∷ t)) ≡ some (s, t)
unfolding cut_at has_byte
cut_at-append c [] t h = ground arith
cut_at-append c (d ∷ s) t h =
    let e : (d == c) ≡ false = ground arith in
    rw (cut_at, e, cut_at-append c s t (ground arith)) refl

contains_colon : (s : Text) → contains s (bytes ":") ≡ has_byte b':' s
unfolding contains has_byte has_prefix
contains_colon [] = refl
contains_colon (c ∷ s) = ground (arith, contains_colon s)

-- A port as net.SplitHostPort returns it.
abbrev pub IsPort : Text → Type 0
IsPort port =
    (has_byte b':' port ≡ false) × (has_byte b'[' port ≡ false) × (has_byte b']' port ≡ false)

abbrev pub IsHost : Text → Type 0
IsHost host = (has_byte b'[' host ≡ false) × (has_byte b']' host ≡ false)

cut_at-parts :
    (c : ℕ) (s before after : Text) → cut_at c s ≡ some (before, after) → s ≡ before ++ (c ∷ after)
unfolding cut_at
cut_at-parts c [] before after h = absurd (none-ne-some (before, after) h)
cut_at-parts c (d ∷ s) before after h = elim (Option-cases (cut_at c s)) [
  | inl e ↦ ground arith
  | inr ((b, a), e) ↦ ground (arith, cut_at-parts c s b a e)
]

split_bracketed-IsPort : (s host port : Text) → split_bracketed s ≡ ok (host, port) → IsPort port
unfolding split_bracketed has_byte
split_bracketed-IsPort s host port h = elim (Option-cases (cut_at b']' s)) [
  | inl e ↦ absurd (ground arith)
  | inr ((before, []), e) ↦ absurd (ground arith)
  | inr ((before, d ∷ after), e) ↦ ground arith
]

has_byte-parts :
    (d : ℕ) (s before after : Text)
    → cut_at b':' s ≡ some (before, after)
    → has_byte d s ≡ (has_byte d before || has_byte d (b':' ∷ after))
has_byte-parts d s before after e =
    ap (has_byte d) (cut_at-parts b':' s before after e) ∙ has_byte-append d before (b':' ∷ after)

split_plain-IsPort : (s host port : Text) → split_plain s ≡ ok (host, port) → IsPort port
unfolding split_plain has_byte
split_plain-IsPort s host port h = elim (Option-cases (cut_at b':' s)) [
  | inl e ↦ absurd (ground arith)
  | inr ((before, after), e) ↦
      ground (arith, has_byte-parts b'[' s before after e, has_byte-parts b']' s before after e)
]

split_parts-IsPort : (s host port : Text) → split_parts s ≡ ok (host, port) → IsPort port
unfolding split_parts
split_parts-IsPort [] host port h = absurd (ground arith)
split_parts-IsPort (c ∷ s) host port h =
    ground (arith, split_bracketed-IsPort s host port, split_plain-IsPort (c ∷ s) host port)

split_host_port-parts :
    (s host port : Text) → (split_parts s ≡ ok (host, port)) ↔ (split_host_port s ≡ ok (host, port))
unfolding split_host_port
split_host_port-parts s host port = elim (Fallible-cases (split_parts s)) [
  | inr (e, f) ↦ (λ h. ground arith, λ h. ground arith)
  | inl (parts, f) ↦ (λ h. ground arith, λ h. ground arith)
]

split_bracketed-host :
    (host port : Text)
    → IsHost host
    → IsPort port
    → split_bracketed (host ++ (b']' ∷ b':' ∷ port)) ≡ ok (host, port)
unfolding split_bracketed
split_bracketed-host host port h p =
    rw (split_bracketed, cut_at-append b']' host (b':' ∷ port) (h.1), h.0, p.0, p.1, p.2) refl

split_plain-host :
    (host port : Text)
    → IsHost host
    → IsPort port
    → has_byte b':' host ≡ false
    → split_plain (host ++ (b':' ∷ port)) ≡ ok (host, port)
unfolding split_plain has_byte
split_plain-host host port h p plain =
    let open_byte : has_byte b'[' (b':' ∷ port) ≡ false = ground (arith, p.1) in
    let close_byte : has_byte b']' (b':' ∷ port) ≡ false = ground (arith, p.2) in
    rw
      (
        split_plain,
        cut_at-append b':' host port plain,
        p.0,
        has_byte-append b'[' host (b':' ∷ port),
        has_byte-append b']' host (b':' ∷ port),
        h.0,
        h.1,
        open_byte,
        close_byte,
      )
      refl

split_parts_plain :
    (s : Text) → has_byte b':' s ≡ true → has_byte b'[' s ≡ false → split_parts s ≡ split_plain s
unfolding split_parts has_byte
split_parts_plain [] h k = absurd (ground arith)
split_parts_plain (c ∷ s) h k = ground arith

split_parts_bracketed :
    (host port : Text)
    → split_parts (b'[' ∷ (host ++ (b']' ∷ b':' ∷ port)))
      ≡ split_bracketed (host ++ (b']' ∷ b':' ∷ port))
unfolding split_parts has_byte
split_parts_bracketed host port = ground (arith, has_byte-append b':' host (b']' ∷ b':' ∷ port))

join_bracketed :
    (host port : Text)
    → contains host (bytes ":") ≡ true
    → join_host_port host port ≡ b'[' ∷ (host ++ (b']' ∷ b':' ∷ port))
unfolding join_host_port
join_bracketed host port e =
    rw (join_host_port, e) (append_assoc (bytes "[" ++ host) (bytes "]:") port)

join_plain :
    (host port : Text)
    → contains host (bytes ":") ≡ false
    → join_host_port host port ≡ host ++ (b':' ∷ port)
unfolding join_host_port
join_plain host port e = rw (join_host_port, e) (append_assoc host (bytes ":") port)

split_host_port-join_host_port :
    (host port : Text)
    → IsHost host
    → IsPort port
    → split_host_port (join_host_port host port) ≡ ok (host, port)
unfolding split_host_port split_parts join_host_port has_byte
split_host_port-join_host_port host port h p = elim (Bool-cases (contains host (bytes ":"))) [
  | inl e ↦
      ap split_host_port (join_bracketed host port e)
      ∙ ((split_host_port-parts (b'[' ∷ (host ++ (b']' ∷ b':' ∷ port))) host port).0
          (split_parts_bracketed host port ∙ split_bracketed-host host port h p))
  | inr e ↦
      ap split_host_port (join_plain host port e)
      ∙ ((split_host_port-parts (host ++ (b':' ∷ port)) host port).0 (
          split_parts_plain (host ++ (b':' ∷ port))
            (ground (arith, has_byte-append b':' host (b':' ∷ port)))
            (ground (arith, h.0, p.1, has_byte-append b'[' host (b':' ∷ port)))
          ∙ split_plain-host host port h p (sym (contains_colon host) ∙ e)))
]

-- Where the field `Endpoint` has a host and a port, the scanner's address takes the place of the
-- host and the port stays, also for an IPv6 address.
pub set_address-split_host_port :
    (old host port ip : Text)
    → split_host_port old ≡ ok (host, port)
    → IsHost ip
    → (new : Text) × (set_address
          (struct none (some (record { can_set = true; content = some old })))
          ip
        ≡ ok (struct none (some (record { can_set = true; content = some new }))))
      × (split_host_port new ≡ ok (ip, port))
unfolding set_address
set_address-split_host_port old host port ip split h =
    let p = split_parts-IsPort old host port ((split_host_port-parts old host port).1 split) in
    (join_host_port ip port, rw split refl, split_host_port-join_host_port ip port h p)
