-- ===== src/Pool.antt =====
-- pkg/http/httptester.go: the lists of links that are tested. Both passes trim every link, drop
-- the blank ones and keep the first of each class of equal links.
pub mod Dedup
pub mod Semantic
pub mod Ranking
use xray_knife.Prelude.{
  ℕ, ◌-◌, zero, suc, Bool, true, false, ◌||◌, List, [], ◌∷◌, ◌++◌, Option, none, some,
  if◌then◌else◌, length,
}
use xray_knife.Text.{Text, bytes, eq_text, is_empty, trim_space}
use xray_knife.Core.{Fallible, ok, err}

-- The map `seen`, as the list of its keys.
unfoldable pub seen_before : Text → List Text → Bool
seen_before k [] = false
seen_before k (j ∷ seen) = eq_text j k || seen_before k seen

-- The loop of `DeduplicateLinks`; `unique` is in order of insertion.
unfoldable pub dedup_from : List Text → List Text → List Text
unfolding seen_before
dedup_from seen [] = []
dedup_from seen (link ∷ links) =
    let trimmed = trim_space link in
    let skipped = dedup_from seen links in
    let kept = trimmed ∷ dedup_from (trimmed ∷ seen) links in
    if is_empty trimmed then skipped else if seen_before trimmed seen then skipped else kept

unfoldable pub deduplicate_links : List Text → List Text × ℕ
unfolding dedup_from
deduplicate_links links = let unique = dedup_from [] links in (unique, length links - length unique)

-- The key of `SemanticDeduplicateLinks`: the connection fingerprint, or the link itself.
unfoldable pub semantic_key : (Text → Fallible Text) → Text → Text
semantic_key fingerprint link = elim (fingerprint link) [ ok f ↦ f | err e ↦ bytes "raw:" ++ link ]

unfoldable pub semantic_from : (Text → Fallible Text) → List Text → ℕ → List Text → List Text × ℕ
unfolding seen_before semantic_key
semantic_from fingerprint seen removed [] = ([], removed)
semantic_from fingerprint seen removed (link ∷ links) =
    let trimmed = trim_space link in
    let key = semantic_key fingerprint trimmed in
    let blank = semantic_from fingerprint seen removed links in
    let again = semantic_from fingerprint seen (suc removed) links in
    let fresh = semantic_from fingerprint (key ∷ seen) removed links in
    if is_empty trimmed
    then blank
    else if seen_before key seen
    then again
    else (trimmed ∷ fresh.0, fresh.1)

unfoldable pub semantic_deduplicate_links : (Text → Fallible Text) → List Text → List Text × ℕ
unfolding semantic_from
semantic_deduplicate_links fingerprint links = semantic_from fingerprint [] 0 links
