-- ===== src/Scanner/Client.antt =====
-- How the scanner reaches an address: a dial with retries, or a client of a core for a config link
-- whose address is replaced; the two measurements over it.
pub mod Address
pub mod Attempts
use xray_knife.Prelude.{
  ℕ, zero, suc, ◌+◌, ◌-◌, ◌*◌, Bool, true, false, ◌||◌, ◌&&◌, not, List, [], ◌∷◌, ◌++◌, Option,
  none, some, if◌then◌else◌, ltb, leb, ◌==◌, any,
}
use xray_knife.Text.{Text, bytes, eq_text, is_empty, decimal}
use xray_knife.Core.{Fallible, ok, err, ◌>>=◌, Engine, xray, singbox}
use xray_knife.Prescan.{join_host_port}
use xray_knife.Scanner.{Speeds, ScanResult, ScannerConfig, fresh_result, scan_port}

abbrev pub attempts_failed : ℕ → Text → Text → Text
attempts_failed attempts target last =
    bytes "all "
    ++ decimal attempts
    ++ bytes " connection attempts to "
    ++ target
    ++ bytes " failed, last error: "
    ++ last

-- The dialer of `createDialerWithRetry` to the address `target`: `dial i` is what attempt `i`
-- answers, `done i` the error of a context that is done before it. `left` attempts remain; after the
-- last one, the number of the next is that of the attempts made.
module _ {C : Type 0} (target : Text) (dial : ℕ → Fallible C) (done : ℕ → Option Text) where
  unfoldable pub dial_loop : ℕ → ℕ → Text → Fallible C
  dial_loop zero i last = err (attempts_failed i target last)
  dial_loop (suc left) i last = elim (done i) [
    | some e ↦ err e
    | none ↦ elim (dial i) [ ok conn ↦ ok conn | err e ↦ dial_loop left (suc i) e ]
  ]

  -- `retries` is not negative, so that there is a first attempt.
  unfoldable pub dial_with_retry : ℕ → Fallible C
  unfolding dial_loop
  dial_with_retry retries = dial_loop (suc retries) 0 []

unfoldable pub target_address : ScannerConfig → Text → Text
unfolding scan_port join_host_port
target_address c ip = join_host_port ip (decimal (scan_port c))

-- A field of a protocol's struct, as reflection sees it: `none` is not a string.
pub record Field : Type 0 where
  pub can_set : Bool
  pub content : Option Text

-- A value behind the interface: a struct by the two fields that are looked for, or no struct.
pub data Reflected : Type 0 where
  no_struct : Reflected
  struct : Option Field → Option Field → Reflected

unfoldable pub cut_at : ℕ → Text → Option (Text × Text)
cut_at c [] = none
cut_at c (d ∷ s) =
    let rest = cut_at c s in
    if d == c
    then some ([], s)
    else elim rest [ none ↦ none | some (before, after) ↦ some (d ∷ before, after) ]

unfoldable pub has_byte : ℕ → Text → Bool
has_byte c s = any (λ d. d == c) s

-- What net.SplitHostPort makes of the text after an opening bracket.
unfoldable pub split_bracketed : Text → Fallible (Text × Text)
unfolding cut_at has_byte
split_bracketed s = elim (cut_at b']' s) [
  | none ↦ err (bytes "missing ']' in address")
  | some (host, []) ↦ err (bytes "missing port in address")
  | some (host, d ∷ port) ↦
      if not (d == b':')
      then err (bytes "missing port in address")
      else if has_byte b':' port
      then err (bytes "too many colons in address")
      else if has_byte b'[' host || has_byte b'[' port
      then err (bytes "unexpected '[' in address")
      else if has_byte b']' port
      then err (bytes "unexpected ']' in address")
      else ok (host, port)
]

-- And of one without it.
unfoldable pub split_plain : Text → Fallible (Text × Text)
unfolding cut_at has_byte
split_plain s = elim (cut_at b':' s) [
  | none ↦ err (bytes "missing port in address")
  | some (host, port) ↦
      if has_byte b':' port
      then err (bytes "too many colons in address")
      else if has_byte b'[' s
      then err (bytes "unexpected '[' in address")
      else if has_byte b']' s
      then err (bytes "unexpected ']' in address")
      else ok (host, port)
]

-- net.SplitHostPort, and the text of its error.
unfoldable pub split_parts : Text → Fallible (Text × Text)
unfolding split_bracketed split_plain has_byte
split_parts [] = err (bytes "missing port in address")
split_parts (c ∷ s) =
    if not (has_byte b':' (c ∷ s))
    then err (bytes "missing port in address")
    else if c == b'['
    then split_bracketed s
    else split_plain (c ∷ s)

unfoldable pub split_host_port : Text → Fallible (Text × Text)
unfolding split_parts
split_host_port s = elim (split_parts s) [
  | ok parts ↦ ok parts
  | err e ↦ err (if is_empty s then e else bytes "address " ++ s ++ bytes ": " ++ e)
]

abbrev pub with_content : Field → Text → Field
with_content f s = record { can_set = f.can_set; content = some s }

-- `setAddress`: the address replaces the field `Address`, or the host of the field `Endpoint`.
unfoldable pub set_address : Reflected → Text → Fallible Reflected
unfolding split_host_port join_host_port
set_address no_struct ip = err (bytes "provided interface is not a struct or a pointer to a struct")
set_address (struct (some address) endpoint) ip =
    if not address.can_set
    then err (bytes "'Address' field is not settable")
    else elim address.content [
      | none ↦ err (bytes "'Address' field is not a string")
      | some old ↦ ok (struct (some (with_content address ip)) endpoint)
    ]
set_address (struct none (some endpoint)) ip =
    if not endpoint.can_set
    then err (bytes "'Endpoint' field is not settable")
    else elim endpoint.content [
      | none ↦ err (bytes "'Endpoint' field is not a string")
      | some old ↦ elim (split_host_port old) [
        | err e ↦ err (bytes "could not split host:port from endpoint '" ++ old ++ bytes "': " ++ e)
        | ok (host, port) ↦ ok (struct none (some (with_content endpoint (join_host_port ip port))))
      ]
    ]
set_address (struct none none) ip = err (bytes "struct has no 'Address' or 'Endpoint' field")

-- `selectedCoreMap`
unfoldable pub selected_core : Text → Option Engine
selected_core scheme =
    if eq_text scheme (bytes "vmess")
      || eq_text scheme (bytes "vless")
      || eq_text scheme (bytes "ss")
      || eq_text scheme (bytes "trojan")
      || eq_text scheme (bytes "socks")
      || eq_text scheme (bytes "wireguard")
    then some xray
    else if eq_text scheme (bytes "hysteria2") || eq_text scheme (bytes "hy2")
    then some singbox
    else none

-- What the scanner asks of a core about its config link.
pub record LinkWorld (P I : Type 0) : Type 0 where
  pub scheme_of : Text → Fallible Text
  pub create_protocol : Engine → Text → Fallible P
  pub parse : P → Fallible P
  pub reflect : P → Reflected
  pub rebuild : P → Reflected → P
  pub make_http_client : Engine → P → Fallible I

abbrev wrap_err {ℓ} : {A : Type ℓ} → Text → Fallible A → Fallible A
wrap_err prefix (ok a) = ok a
wrap_err prefix (err e) = err (prefix ++ e)

abbrev or_unsupported : Text → Option Engine → Fallible Engine
or_unsupported scheme none = err (bytes "unsupported protocol scheme for auto core: " ++ scheme)
or_unsupported scheme (some e) = ok e

unfoldable pub create_client_from_config :
    {P I : Type 0} → LinkWorld P I → ScannerConfig → Text → Fallible I
unfolding set_address selected_core
create_client_from_config w c ip = do
  scheme ←
      wrap_err (bytes "failed to parse config link for core selection: ")
        (w.scheme_of c.config_link)
  core ← or_unsupported scheme (selected_core scheme)
  made ← wrap_err (bytes "failed to create protocol: ") (w.create_protocol core c.config_link)
  proto ← wrap_err (bytes "failed to parse protocol: ") (w.parse made)
  fields ← wrap_err (bytes "failed to set IP on protocol: ") (set_address (w.reflect proto) ip)
  w.make_http_client core (w.rebuild proto fields)
