-- ===== src/Tests/Links.antt =====
-- Tests of the selection of a core, of the pool of links and of the subscription decoder.
use xray_knife.Prelude.{
  ◌≡◌, refl, true, [], ◌∷◌, none, some, length, if◌then◌else◌, ◌+◌, arith, count_if, Distinct,
}
use xray_knife.Text.{
  Text, bytes, eq_text, is_empty, has_prefix, trim_prefix, contains, cut, split, trim_space, strip,
  space_width, last_space_width,
}
use xray_knife.Core.{
  Fallible, ok, err, engine_for_scheme, select_core_for_link, automatic_core, is_vless_tcp,
  first_bad_hop, validate_chain_for_core,
}
use xray_knife.Pool.{
  seen_before, dedup_from, deduplicate_links, semantic_key, semantic_from,
  semantic_deduplicate_links,
}
use xray_knife.Pool.Dedup.{deduplicate_links-covers}
use xray_knife.Pool.Semantic.{semantic_deduplicate_links_partition}
use xray_knife.Subscription.{
  Codecs, DecodeOptions, limits, trim_body, unwrap_body, first_decoding, is_share_link, collect,
  decode, valid_scheme, ascii_letter,
}
use xray_knife.Subscription
use xray_knife.Subscription.Laws.{decode_ok_iff}
use xray_knife.Tests.{link_a, link_b, link_bad, pool}

links_code : Unit {0}
unfolding eq_text is_empty has_prefix trim_prefix contains cut split trim_space strip space_width
    last_space_width engine_for_scheme select_core_for_link automatic_core is_vless_tcp
    first_bad_hop validate_chain_for_core seen_before dedup_from deduplicate_links semantic_key
    semantic_from semantic_deduplicate_links limits trim_body unwrap_body first_decoding
    is_share_link collect decode valid_scheme ascii_letter
links_code = tt

pool_tests :
    (deduplicate_links pool ≡ (link_a ∷ link_bad ∷ link_b ∷ [], 2))
    × ((semantic_deduplicate_links (λ l. ok (bytes "same")) (link_a ∷ link_b ∷ [] ∷ [])).1 ≡ 1)
unfolding links_code
pool_tests = (refl, refl)

deduplicate_links-covers_example : Distinct (deduplicate_links pool).0
deduplicate_links-covers_example = (deduplicate_links-covers pool).0

abbrev fingerprint : Text → Fallible Text
fingerprint l = if contains l (bytes "bad") then err [] else ok (bytes "same")

semantic_deduplicate_links_partition_example :
    let out = semantic_deduplicate_links fingerprint pool in
    length out.0 + out.1 + count_if (λ l. is_empty (trim_space l)) pool ≡ 5
semantic_deduplicate_links_partition_example =
    (semantic_deduplicate_links_partition fingerprint pool).2

abbrev codecs : Codecs
codecs = record { base64 = (λ s. none) ∷ []; utf8_valid = λ s. true }

abbrev no_limits : DecodeOptions
no_limits = record { max_bytes = some 0; max_links = some 2 }

abbrev body : Text
body = bytes "vmess://a\n\n  hy2://b \n"

decode_ok_iff_example :
    decode codecs body no_limits ≡ Subscription.ok (link_a ∷ bytes "hy2://b" ∷ [])
unfolding links_code
decode_ok_iff_example =
    (decode_ok_iff codecs body no_limits 67108864 2 (trim_space body) _ refl refl refl).1
      (omega arith, refl, refl, refl, omega arith)
