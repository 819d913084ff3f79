-- ===== src/Chain.antt =====
-- pkg/proxy/chain.go: how the hops of a chain are chosen, from links that are given or from the pool,
-- and utils.ParseFileByNewline (utils/utils.go), which reads the given ones from a file. The shuffle
-- of math/rand and the lines that bufio.Scanner finds in a file are arguments.
pub mod Fixed
pub mod FromPool
pub mod Exit
use xray_knife.Prelude.{
  ℕ, ◌+◌, Bool, true, false, not, ◌&&◌, ◌||◌, List, [], ◌∷◌, ◌++◌, map, Option, none, some,
  if◌then◌else◌, ltb, leb, length, keep,
}
use xray_knife.Text.{Text, bytes, is_empty, trim_space, split, decimal}
use xray_knife.Core.{Fallible, ok, err, Core, read_link}
use xray_knife.Pool.{seen_before}

-- The lines of the file that are not empty, trimmed.
unfoldable pub parse_file_by_newline : (Text → List Text) → Text → List Text
parse_file_by_newline scan_lines file_name =
    map trim_space (keep (λ line. not (is_empty line)) (scan_lines file_name))

-- One round of the loop over the links: a blank one is passed over, one that cannot be read is an
-- error.
unfoldable pub hop_at : {P : Type 0} → Core P → ℕ → Text → Fallible (Option P)
hop_at c i link =
    if is_empty (trim_space link) then ok none else elim (c.create_protocol (trim_space link)) [
      | err e ↦
          err (
            bytes "chain hop " ++ decimal i ++ bytes ": failed to create protocol from link: " ++ e)
      | ok p ↦ elim (c.parse p) [
        | err e ↦ err (bytes "chain hop " ++ decimal i ++ bytes ": failed to parse protocol: " ++ e)
        | ok q ↦ ok (some q)
      ]
    ]

unfoldable pub read_hops : {P : Type 0} → Core P → ℕ → List Text → List P → Fallible (List P)
unfolding hop_at
read_hops c i [] hops = ok hops
read_hops c i (link ∷ links) hops = elim (hop_at c i link) [
  | err e ↦ err e
  | ok none ↦ read_hops c (i + 1) links hops
  | ok (some q) ↦ read_hops c (i + 1) links (hops ++ q ∷ [])
]

-- The checks on the number of links and on the number of hops read from them.
unfoldable pub hops_of_links : {P : Type 0} → Core P → List Text → Fallible (List P)
unfolding read_hops
hops_of_links c links =
    if ltb (length links) 2
    then err (bytes "chain requires at least 2 hops, got " ++ decimal (length links))
    else elim (read_hops c 0 links []) [
      | err e ↦ err e
      | ok hops ↦
          if ltb (length hops) 2
          then err (
              bytes "chain requires at least 2 valid hops after parsing, got "
              ++ decimal (length hops))
          else ok hops
    ]

-- The links of a fixed chain, where the command names a source of them.
unfoldable pub chain_source : (Text → List Text) → Text → Text → Option (List Text)
unfolding parse_file_by_newline
chain_source scan_lines chain_links chain_file =
    if not (is_empty chain_links)
    then some (split chain_links b'|')
    else if not (is_empty chain_file)
    then some (parse_file_by_newline scan_lines chain_file)
    else none

unfoldable pub resolve_fixed_chain :
    {P : Type 0} → (Text → List Text) → Core P → Text → Text → Fallible (List P)
unfolding chain_source hops_of_links
resolve_fixed_chain scan_lines c chain_links chain_file =
    elim (chain_source scan_lines chain_links chain_file) [
      | none ↦ err (bytes "no chain links or chain file specified")
      | some links ↦ hops_of_links c links
    ]

-- A link of the pool, trimmed, created and parsed; `none` where the loops pass it over.
unfoldable pub read_hop : {P : Type 0} → Core P → Text → Option P
read_hop c link = if is_empty (trim_space link) then none else read_link c (trim_space link)

-- The loop over the shuffled pool, until there are `n` hops.
unfoldable pub gather : {P : Type 0} → Core P → ℕ → List Text → List P → List P
unfolding read_hop
gather c n [] hops = hops
gather c n (link ∷ links) hops = elim (leb n (length hops)) [
  | true ↦ hops
  | false ↦ elim (read_hop c link) [
    | none ↦ gather c n links hops
    | some p ↦ gather c n links (hops ++ p ∷ [])
  ]
]

-- `shuffle` is the order in which the shuffled indices visit the pool.
unfoldable pub select_chain_from_pool :
    {P : Type 0} → (List Text → List Text) → Core P → List Text → ℕ → Fallible (List P)
unfolding gather
select_chain_from_pool shuffle c pool num_hops =
    if ltb num_hops 2
    then err (bytes "chain requires at least 2 hops, got " ++ decimal num_hops)
    else if ltb (length pool) num_hops
    then err (
        bytes "pool has "
        ++ decimal (length pool)
        ++ bytes " configs but chain requires "
        ++ decimal num_hops
        ++ bytes " hops")
    else let hops = gather c num_hops (shuffle pool) [] in
      if ltb (length hops) num_hops
      then err (
          bytes "only "
          ++ decimal (length hops)
          ++ bytes " of "
          ++ decimal num_hops
          ++ bytes " hops parsed from a pool of "
          ++ decimal (length pool))
      else ok hops

-- The map `usedLinks`, by its keys.
unfoldable pub used_links : {P : Type 0} → Core P → List P → Text → List Text
used_links c fixed_hops exclude_link =
    (if is_empty exclude_link then [] else exclude_link ∷ []) ++ map c.get_link fixed_hops

-- The links of the pool that may be the new exit.
unfoldable pub exit_candidates : List Text → List Text → List Text
unfolding seen_before
exit_candidates used pool =
    keep (λ link. not (is_empty link) && not (seen_before link used)) (map trim_space pool)

-- The first of the links that can be read.
unfoldable pub first_readable : {P : Type 0} → Core P → List Text → Option P
first_readable c [] = none
first_readable c (link ∷ links) = elim (read_link c link) [
  | none ↦ first_readable c links
  | some p ↦ some p
]

unfoldable pub select_exit_hop_from_pool :
    {P : Type 0} → (List Text → List Text) → Core P → List Text → List P → Text → Fallible (List P)
unfolding used_links exit_candidates first_readable
select_exit_hop_from_pool shuffle c pool fixed_hops exclude_link =
    let candidates = exit_candidates (used_links c fixed_hops exclude_link) pool in
    if ltb (length fixed_hops) 1
    then err (bytes "fixedHops must have at least 1 hop for exit rotation")
    else if ltb (length candidates) 1
    then err (bytes "no available exit hop candidates in pool")
    else elim (first_readable c (shuffle candidates)) [
      | some p ↦ ok (fixed_hops ++ p ∷ [])
      | none ↦ err (
          bytes "could not find a valid exit hop from "
          ++ decimal (length candidates)
          ++ bytes " candidates")
    ]
