-- ===== src/Tests/Chains.antt =====
-- Tests of the choice of hops and of the pre-check.
use xray_knife.Prelude.{
  ◌≡◌, ◌≤◌, refl, inl, inr, ◌⊎◌, Bool, true, List, [], ◌∷◌, none, some, length, ◌+◌, arith,
}
use xray_knife.Text.{
  Text, bytes, eq_text, is_empty, has_prefix, trim_prefix, trim_suffix, contains, cut, split,
  trim_space, strip, space_width, last_space_width, to_lower, decimal,
}
use xray_knife.Core.{ok, err, read_link}
use xray_knife.Pool.{seen_before}
use xray_knife.Chain.{
  parse_file_by_newline, hop_at, read_hops, hops_of_links, chain_source, resolve_fixed_chain,
  read_hop, gather, select_chain_from_pool, used_links, exit_candidates, first_readable,
  select_exit_hop_from_pool,
}
use xray_knife.Chain.Fixed.{resolve_fixed_chain_iff}
use xray_knife.Prelude.Reordered.{IsReordered, nil, cons, swap}
use xray_knife.Chain.FromPool.{select_chain_from_pool_lem}
use xray_knife.Chain.Exit.{IsFree, select_exit_hop_from_pool_lem}
use xray_knife.Prescan.{
  is_udp_based, is_number, join_host_port, endpoint_of, endpoint_for_link, worker_count, settle,
  uniq_from, assemble, run_prescan,
}
use xray_knife.Prescan.Counts.{run_prescan_lem, run_prescan_endpoints}
use xray_knife.Tests.{text_core, link_a, link_b, link_bad, pool}

chains_code : Unit {0}
unfolding eq_text is_empty has_prefix trim_prefix trim_suffix contains cut split trim_space strip
    space_width last_space_width to_lower decimal read_link seen_before parse_file_by_newline hop_at
    read_hops hops_of_links chain_source resolve_fixed_chain read_hop gather select_chain_from_pool
    used_links exit_candidates first_readable select_exit_hop_from_pool is_udp_based is_number
    join_host_port endpoint_of endpoint_for_link worker_count settle uniq_from assemble run_prescan
chains_code = tt

abbrev two_links : Text
two_links = bytes "vmess://a| |vmess://b "

resolve_fixed_chain_iff_example :
    resolve_fixed_chain (λ name. []) text_core two_links [] ≡ ok (link_a ∷ link_b ∷ [])
unfolding chains_code
resolve_fixed_chain_iff_example =
    (resolve_fixed_chain_iff text_core (λ name. []) two_links [] (link_a ∷ link_b ∷ [])).1
      (split two_links b'|', refl, omega arith, refl)

abbrev swap_first : List Text → List Text
swap_first (l ∷ m ∷ links) = m ∷ l ∷ links
swap_first links = links

swap_first-IsReordered : (links : List Text) → IsReordered (swap_first links) links
swap_first-IsReordered [] = nil
swap_first-IsReordered (l ∷ []) = cons l nil
swap_first-IsReordered (l ∷ m ∷ links) = swap m l links

select_chain_from_pool_lem_example :
    let out = select_chain_from_pool swap_first text_core pool 2 in
    (out ≡ ok (link_a ∷ link_b ∷ [])) ⊎ ((e : Text) × (out ≡ err e))
unfolding chains_code
select_chain_from_pool_lem_example =
    elim (select_chain_from_pool_lem text_core swap_first pool 2 (swap_first-IsReordered pool)) [
      | inl w ↦ inl w.2
      | inr w ↦ inr w.1
    ]

chain_tests :
    (select_chain_from_pool swap_first text_core pool 2 ≡ ok (link_a ∷ link_b ∷ []))
    × (select_exit_hop_from_pool swap_first text_core pool (link_a ∷ []) []
        ≡ ok (link_a ∷ link_b ∷ []))
unfolding chains_code
chain_tests = (refl, refl)

abbrev numbers : Text → Bool
numbers s = true

abbrev dial : Text → Bool
dial e = eq_text e (bytes "a:443")

select_exit_hop_from_pool_lem_example :
    let out = select_exit_hop_from_pool swap_first text_core pool (link_a ∷ []) [] in
    ((p : Text) × (link : Text) × (out ≡ ok (link_a ∷ p ∷ []))
      × (read_link text_core link ≡ some p)
      × IsFree text_core pool (link_a ∷ []) [] link)
    ⊎ (((e : Text) × (out ≡ err e))
        × ((link_a ∷ [] ≡ [])
            ⊎ ((link : Text)
                → IsFree text_core pool (link_a ∷ []) [] link
                → read_link text_core link ≡ none)))
select_exit_hop_from_pool_lem_example =
    select_exit_hop_from_pool_lem text_core swap_first pool (link_a ∷ []) [] swap_first-IsReordered

prescan_tests : run_prescan numbers text_core dial pool ≡ record {
  reachable = link_a ∷ link_bad ∷ [] ∷ link_a ∷ [];
  tcp_reachable = 2;
  bypassed = 2;
  filtered_out = 1;
  unique_endpoints = 2;
}
unfolding chains_code
prescan_tests = refl

run_prescan_lem_example :
    let out = run_prescan numbers text_core dial pool in
    length out.reachable ≡ out.tcp_reachable + out.bypassed
run_prescan_lem_example = (run_prescan_lem numbers text_core dial pool).2

run_prescan_endpoints_example :
    1 ≤ worker_count (some 0) (run_prescan numbers text_core dial pool).unique_endpoints
run_prescan_endpoints_example = (run_prescan_endpoints numbers text_core dial pool (some 0)).1
