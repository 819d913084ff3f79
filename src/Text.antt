-- ===== src/Text.antt =====
-- Go strings as lists of bytes, with the operations of the standard library's `strings`, `bytes`
-- and `unicode` that the program calls: equality, prefixes, cutting, splitting and trimming.
pub mod Equality
pub mod Trim
use Prim.Native.Char.{code}
use Prim.Native.String.{String}
use xray_knife.Prelude.{
  ℕ, zero, suc, ◌+◌, ◌/◌, ◌%◌, Bool, true, false, ◌&&◌, ◌||◌, not, List, [], ◌∷◌, ◌++◌, reverse,
  Option, none, some, ◌==◌, leb, ltb, if◌then◌else◌, drop, length,
}

abbrev pub Text : Type 0
Text = List ℕ

-- The bytes of an ASCII literal.
abbrev pub bytes : String → Text
bytes String.[] = []
bytes (String.◌∷◌ c s) = code c ∷ bytes s

unfoldable pub eq_text : Text → Text → Bool
eq_text [] [] = true
eq_text [] (_ ∷ _) = false
eq_text (_ ∷ _) [] = false
eq_text (a ∷ s) (b ∷ t) = (a == b) && eq_text s t

unfoldable pub is_empty : Text → Bool
is_empty [] = true
is_empty (_ ∷ _) = false

-- strings.HasPrefix
unfoldable pub has_prefix : Text → Text → Bool
has_prefix s [] = true
has_prefix [] (_ ∷ _) = false
has_prefix (a ∷ s) (b ∷ p) = (a == b) && has_prefix s p

-- strings.TrimPrefix
unfoldable pub trim_prefix : Text → Text → Text
unfolding has_prefix
trim_prefix s p = if has_prefix s p then drop (length p) s else s

-- strings.TrimSuffix
unfoldable pub trim_suffix : Text → Text → Text
unfolding trim_prefix
trim_suffix s p = reverse (trim_prefix (reverse s) (reverse p))

-- strings.Contains
unfoldable pub contains : Text → Text → Bool
unfolding has_prefix
contains [] p = has_prefix [] p
contains (a ∷ s) p = has_prefix (a ∷ s) p || contains s p

-- strings.Cut: what stands before and after the first occurrence of the separator.
cut_from : Text → Text → Text → Option (Text × Text)
unfolding has_prefix
cut_from before [] sep = if has_prefix [] sep then some (reverse before, []) else none
cut_from before (a ∷ s) sep =
    let later = cut_from (a ∷ before) s sep in
    if has_prefix (a ∷ s) sep then some (reverse before, drop (length sep) (a ∷ s)) else later

unfoldable pub cut : Text → Text → Option (Text × Text)
unfolding cut_from
cut s sep = cut_from [] s sep

-- strings.Split by a separator of one byte. `cur` is the part under way, last byte first.
split_from : Text → Text → ℕ → List Text
split_from cur [] sep = reverse cur ∷ []
split_from cur (a ∷ s) sep =
    let closed = reverse cur ∷ split_from [] s sep in
    let longer = split_from (a ∷ cur) s sep in if a == sep then closed else longer

unfoldable pub split : Text → ℕ → List Text
unfolding split_from
split s sep = split_from [] s sep

-- strings.Join
unfoldable pub join : List Text → Text → Text
join [] sep = []
join (s ∷ []) sep = s
join (s ∷ t ∷ ts) sep = s ++ sep ++ join (t ∷ ts) sep

-- strings.ToLower on ASCII letters.
lower_byte : ℕ → ℕ
lower_byte c = if leb b'A' c && leb c b'Z' then c + 32 else c

unfoldable pub to_lower : Text → Text
unfolding lower_byte
to_lower [] = []
to_lower (c ∷ s) = lower_byte c ∷ to_lower s

-- unicode.IsSpace for the code point that begins a text, by the length of its UTF-8 encoding: 0 if
-- the text does not begin with white space.
is_space1 : ℕ → Bool
is_space1 a = (leb 9 a && leb a 13) || a == 32

is_space2 : ℕ → ℕ → Bool
is_space2 a b = a == 194 && (b == 133 || b == 160)

is_space3 : ℕ → ℕ → ℕ → Bool
is_space3 a b c =
    (a == 225 && b == 154 && c == 128)
    || (a == 226 && b == 128 && ((leb 128 c && leb c 138) || c == 168 || c == 169 || c == 175))
    || (a == 226 && b == 129 && c == 159)
    || (a == 227 && b == 128 && c == 128)

unfoldable pub space_width : Text → ℕ
unfolding is_space1 is_space2 is_space3
space_width [] = 0
space_width (a ∷ []) = if is_space1 a then 1 else 0
space_width (a ∷ b ∷ []) = if is_space1 a then 1 else if is_space2 a b then 2 else 0
space_width (a ∷ b ∷ c ∷ s) =
    if is_space1 a then 1 else if is_space2 a b then 2 else if is_space3 a b c then 3 else 0

-- The same at the end of a text, which is given last byte first.
unfoldable pub last_space_width : Text → ℕ
unfolding is_space1 is_space2 is_space3
last_space_width [] = 0
last_space_width (a ∷ []) = if is_space1 a then 1 else 0
last_space_width (b ∷ a ∷ []) = if is_space1 b then 1 else if is_space2 a b then 2 else 0
last_space_width (c ∷ b ∷ a ∷ s) =
    if is_space1 c then 1 else if is_space2 b c then 2 else if is_space3 a b c then 3 else 0

-- Drops leading code points while `width` finds one; `k` bytes of the one at hand are still to go.
unfoldable pub strip : (Text → ℕ) → ℕ → Text → Text
strip width k [] = []
strip width (suc k) (a ∷ s) = strip width k s
strip width zero (a ∷ s) = elim (width (a ∷ s)) [ zero ↦ a ∷ s | suc k ↦ strip width k s ]

-- strings.TrimSpace and bytes.TrimSpace
unfoldable pub trim_space : Text → Text
unfolding strip space_width last_space_width
trim_space s = reverse (strip last_space_width 0 (reverse (strip space_width 0 s)))

-- A number in decimal, as `%d` prints it.
digits_from : ℕ → ℕ → Text → Text
digits_from zero n rest = rest
digits_from (suc f) n rest =
    let more = digits_from f (n / 10) ((b'0' + n % 10) ∷ rest) in
    if ltb n 10 then (b'0' + n) ∷ rest else more

unfoldable pub decimal : ℕ → Text
unfolding digits_from
decimal n = digits_from (n + 1) n []
