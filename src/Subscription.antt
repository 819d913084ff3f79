-- ===== src/Subscription.antt =====
-- pkg/subscription/subscription.go: the decoder of subscription bodies. base64 and the UTF-8 check
-- are the standard library's, and parameters here.
pub mod Laws
use xray_knife.Prelude.{
  ℕ, zero, suc, Bool, true, false, ◌||◌, ◌&&◌, not, List, [], ◌∷◌, ◌++◌, Option, none, some,
  if◌then◌else◌, ltb, leb, ◌==◌, length, keep, all,
}
use xray_knife.Text.{Text, bytes, is_empty, trim_space, trim_prefix, contains, cut, split}

pub data DecodeError : Type 0 where
  negative_limits too_large too_many_links invalid_format : DecodeError

pub data Decoded {ℓ} (A : Type ℓ) : Type ℓ where
  ok : A → Decoded A
  err : DecodeError → Decoded A

infixl 5 ◌>>=◌ ◌>>◌
abbrev pub ◌>>=◌ {ℓ κ} : {A : Type ℓ} {B : Type κ} → Decoded A → (A → Decoded B) → Decoded B
ok a >>= f = f a
err e >>= f = err e

abbrev pub ◌>>◌ {ℓ} : {B : Type ℓ} → Decoded (Unit {0}) → Decoded B → Decoded B
m >> k = m >>= λ _. k

abbrev pub require : Bool → DecodeError → Decoded (Unit {0})
require true e = ok tt
require false e = err e

-- A limit as the caller gives it: `none` stands for a negative number.
pub record DecodeOptions : Type 0 where
  pub max_bytes : Option ℕ
  pub max_links : Option ℕ

abbrev pub default_max_bytes : ℕ
default_max_bytes = 67108864

abbrev pub default_max_links : ℕ
default_max_links = 100000

or_default : ℕ → ℕ → ℕ
or_default d n = if n == 0 then d else n

unfoldable pub limits : DecodeOptions → Decoded (ℕ × ℕ)
unfolding or_default
limits opts = elim opts.max_bytes [
  | none ↦ err negative_limits
  | some b ↦ elim opts.max_links [
    | none ↦ err negative_limits
    | some l ↦ ok (or_default default_max_bytes b, or_default default_max_links l)
  ]
]

-- The byte order mark of UTF-8.
abbrev pub bom : Text
bom = 239 ∷ 187 ∷ 191 ∷ []

unfoldable pub trim_body : Text → Text
trim_body body = trim_space (trim_prefix (trim_space body) bom)

unfoldable pub ascii_letter : ℕ → Bool
ascii_letter c = (leb b'a' c && leb c b'z') || (leb b'A' c && leb c b'Z')

scheme_byte : ℕ → Bool
unfolding ascii_letter
scheme_byte c = ascii_letter c || (leb b'0' c && leb c b'9') || c == b'+' || c == b'-' || c == b'.'

unfoldable pub valid_scheme : Text → Bool
unfolding scheme_byte ascii_letter
valid_scheme [] = false
valid_scheme (c ∷ s) = ascii_letter c && all scheme_byte s

not_folding : ℕ → Bool
not_folding c = not (c == 32 || c == 9 || c == 13 || c == 10)

-- The four encodings, tried in turn.
unfoldable pub first_decoding : List (Text → Option Text) → Text → Option Text
first_decoding [] s = none
first_decoding (dec ∷ decs) s = elim (dec s) [ some b ↦ some b | none ↦ first_decoding decs s ]

-- What the standard library does for the decoder.
pub record Codecs : Type 0 where
  pub base64 : List (Text → Option Text)  -- standard, raw standard, URL, raw URL
  pub utf8_valid : Text → Bool

-- The body in plain form.
unfoldable pub unwrap_body : Codecs → Text → Decoded Text
unfolding first_decoding trim_body not_folding
unwrap_body codecs body =
    if contains body (bytes "://")
    then ok body
    else elim (first_decoding codecs.base64 (keep not_folding body)) [
      | none ↦ err invalid_format
      | some b ↦ ok (trim_body b)
    ]

-- A line that is a share link: a valid scheme, and something behind it.
unfoldable pub is_share_link : Text → Bool
unfolding valid_scheme
is_share_link line = elim (cut line (bytes "://")) [
  | none ↦ false
  | some (scheme, value) ↦ not (is_empty value) && valid_scheme scheme
]

-- The loop over the lines, with the number of links so far.
unfoldable pub collect : ℕ → ℕ → List Text → Decoded (List Text)
collect max_links n [] = ok []
collect max_links n (raw ∷ lines) =
    let line = trim_space raw in
    let rest = collect max_links n lines in
    let kept = collect max_links (suc n) lines >>= λ links. ok (line ∷ links) in
    if is_empty line
    then rest
    else if not (is_share_link line)
    then err invalid_format
    else if n == max_links
    then err too_many_links
    else kept

unfoldable pub decode : Codecs → Text → DecodeOptions → Decoded (List Text)
unfolding limits trim_body unwrap_body collect
decode codecs raw opts = do
  bound ← limits opts
  require (not (ltb bound.0 (length raw))) too_large
  if is_empty (trim_body raw) then ok [] else do
    body ← unwrap_body codecs (trim_body raw)
    require (codecs.utf8_valid body) invalid_format
    collect bound.1 0 (split body 10)
