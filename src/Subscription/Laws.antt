-- ===== src/Subscription/Laws.antt =====
-- What the decoder accepts, and what it returns.
use xray_knife.Prelude.{
  ℕ, suc, ◌+◌, ◌≤◌, ◌≡◌, refl, ap, ◌↔◌, true, false, not, List, [], ◌∷◌, arith, length, keep, map,
  all, Bool-cases, inl, inr, if◌then◌else◌, ◌==◌, ltb,
}
use xray_knife.Text.{Text, is_empty, trim_space, split}
use xray_knife.Subscription.{
  Decoded, ok, err, ◌>>=◌, invalid_format, too_large, is_share_link, collect, decode, DecodeOptions,
  limits, Codecs, unwrap_body, trim_body,
}

-- The lines that are not blank, trimmed.
abbrev pub full_lines : List Text → List Text
full_lines lines = keep (λ l. not (is_empty l)) (map trim_space lines)

collect-eq :
    (m n : ℕ) (lines : List Text)
    → n ≤ m
    → all is_share_link (full_lines lines) ≡ true
    → n + length (full_lines lines) ≤ m
    → collect m n lines ≡ ok (full_lines lines)
unfolding collect
collect-eq m n [] l a b = refl
collect-eq m n (raw ∷ lines) l a b =
    ground (arith, collect-eq m n lines l, collect-eq m (suc n) lines)

collect-ok :
    (m n : ℕ) (lines links : List Text)
    → n ≤ m
    → collect m n lines ≡ ok links
    → (all is_share_link (full_lines lines) ≡ true) × (n + length (full_lines lines) ≤ m)
unfolding collect
collect-ok m n [] links l h = (refl, omega arith)
collect-ok m n (raw ∷ lines) links l h =
    let line = trim_space raw in
    elim (Bool-cases (is_empty line)) [
      | inl blank ↦ rw blank (collect-ok m n lines links l (rw blank at h))
      | inr full ↦ elim (Bool-cases (is_share_link line)) [
        | inr bad ↦ cc (rw (full, bad) at h)
        | inl good ↦ elim (Bool-cases (n == m)) [
          | inl e ↦ cc (rw (full, good, e) at h)
          | inr e ↦
              let (tail, t, _) = inverse (collect m (suc n) lines) (rw (full, good, e) at h) in
              let (a, b) = collect-ok m (suc n) lines tail (ground arith) t in
              rw (full, good) (a, omega arith)
        ]
      ]
    ]
  where
    inverse :
        (d : Decoded (List Text))
        → (d >>= λ ls. ok (trim_space raw ∷ ls)) ≡ ok links
        → (tail : List Text) × (d ≡ ok tail) × (trim_space raw ∷ tail ≡ links)
    inverse (ok tail) e = (tail, refl, cc)
    inverse (err x) e = cc

collect-value :
    (m n : ℕ) (lines links : List Text)
    → n ≤ m
    → collect m n lines ≡ ok links
    → links ≡ full_lines lines
collect-value m n lines links l h =
    let (a, b) = collect-ok m n lines links l h in let e = collect-eq m n lines l a b in cc

module _ (codecs : Codecs) (raw : Text) (opts : DecodeOptions) {mb ml : ℕ} {payload : Text}
    (limited : limits opts ≡ ok (mb, ml)) (full : is_empty (trim_body raw) ≡ false)
    (unwrapped : unwrap_body codecs (trim_body raw) ≡ ok payload) where
  decode-eq : decode codecs raw opts ≡ (
      if ltb mb (length raw)
      then err too_large
      else if codecs.utf8_valid payload
      then collect ml 0 (split payload 10)
      else err invalid_format)
  unfolding decode
  decode-eq = ground (arith, limited, full, unwrapped)

-- A body that is not blank and has a payload, its own text or what the first codec that accepts it
-- decodes, is decoded without error exactly when it is within the size limit, the payload is valid
-- UTF-8, every line that is not blank is a share link, and these are within the limit on links;
-- the result is then these lines, trimmed, in order, with nothing left out.
pub decode_ok_iff :
    (codecs : Codecs) (raw : Text) (opts : DecodeOptions) (mb ml : ℕ) (payload : Text)
    (links : List Text)
    → limits opts ≡ ok (mb, ml)
    → is_empty (trim_body raw) ≡ false
    → unwrap_body codecs (trim_body raw) ≡ ok payload
    → (decode codecs raw opts ≡ ok links) ↔ (
        (length raw ≤ mb)
        × (codecs.utf8_valid payload ≡ true)
        × (links ≡ full_lines (split payload 10))
        × (all is_share_link links ≡ true)
        × (length links ≤ ml))
decode_ok_iff codecs raw opts mb ml payload links limited full unwrapped =
    let e = decode-eq codecs raw opts limited full unwrapped in
    let lines = split payload 10 in
    (
      λ h.
          let small : length raw ≤ mb = ground (arith, e, h) in
          let valid : codecs.utf8_valid payload ≡ true = ground (arith, e, h) in
          let got : collect ml 0 lines ≡ ok links = ground (arith, e, h) in
          let same = collect-value ml 0 lines links (omega arith) got in
          let (a, b) = collect-ok ml 0 lines links (omega arith) got in
          (small, valid, same, rw same a, rw same (omega arith)),
      λ h.
          let (small, valid, same, shares, few) = h in
          let fits =
            collect-eq ml 0 lines (omega arith) (rw same at shares)
              (omega (arith, ap length same)) in
          ground (arith, e, fits),
    )
