-- ===== src/Prescan/Counts.antt =====
-- What the pre-check keeps, how it counts, and which endpoints it dials.
use xray_knife.Prelude.{
  ℕ, suc, ◌+◌, ◌≤◌, ◌≡◌, ◌≢◌, refl, sym, ap, ◌∙◌, ◌↔◌, Bool, true, false, ◌||◌, List, [], ◌∷◌, ◌++◌,
  append_assoc, arith, length, keep, count_if, length-append, Bool-cases, inl, inr, ◌⊎◌,
  if◌then◌else◌, In, Distinct, Option, append-nil,
}
use xray_knife.Text.{Text, is_empty}
use xray_knife.Text.Equality.{is_empty_iff}
use xray_knife.Core.{Core}
use xray_knife.Pool.{seen_before}
use xray_knife.Pool.Dedup.{seen_before_iff}
use xray_knife.Prescan.{
  PrescanResult, endpoint_for_link, settle, uniq_from, assemble, run_prescan, worker_count,
}

module _ (endpoint : Text → Text) (dial : Text → Bool) where
  -- The link bypasses the check, or its endpoint answers.
  abbrev pub survives : Text → Bool
  survives link = is_empty (endpoint link) || dial (endpoint link)

  settle-reachable :
      (l : Text) (res : PrescanResult)
      → (settle endpoint dial l res).reachable
        ≡ res.reachable ++ (if survives l then l ∷ [] else [])
  unfolding settle
  settle-reachable l res = ground (arith, append-nil res.reachable)

  keep-cons :
      (l : Text) (links : List Text)
      → keep survives (l ∷ links) ≡ (if survives l then l ∷ [] else []) ++ keep survives links
  keep-cons l links = ground arith

  assemble-reachable :
      (links : List Text) (res : PrescanResult)
      → (assemble endpoint dial links res).reachable ≡ res.reachable ++ keep survives links
  unfolding assemble
  assemble-reachable [] res = sym (append-nil res.reachable)
  assemble-reachable (l ∷ links) res =
      assemble-reachable links (settle endpoint dial l res)
      ∙ ap (λ (t : List Text). t ++ keep survives links) (settle-reachable l res)
      ∙ append_assoc res.reachable (if survives l then l ∷ [] else []) (keep survives links)
      ∙ ap (λ (t : List Text). res.reachable ++ t) (sym (keep-cons l links))

  -- The links counted so far, and those kept among them.
  abbrev IsBalanced : ℕ → PrescanResult → Type 0
  IsBalanced n res =
      (res.tcp_reachable + res.bypassed + res.filtered_out ≡ n)
      × (length res.reachable ≡ res.tcp_reachable + res.bypassed)

  settle-IsBalanced :
      (n : ℕ) (l : Text) (res : PrescanResult)
      → IsBalanced n res
      → IsBalanced (suc n) (settle endpoint dial l res)
  unfolding settle
  settle-IsBalanced n l res h = ground (arith, length-append res.reachable (l ∷ []))

  assemble-IsBalanced :
      (links : List Text) (n : ℕ) (res : PrescanResult)
      → IsBalanced n res
      → IsBalanced (n + length links) (assemble endpoint dial links res)
  unfolding assemble
  assemble-IsBalanced [] n res h = omega arith
  assemble-IsBalanced (l ∷ links) n res h = omega (
    arith,
    assemble-IsBalanced links (suc n) (settle endpoint dial l res) (settle-IsBalanced n l res h),
  )

  settle-same :
      (l : Text) (res : PrescanResult)
      → let out = settle endpoint dial l res in
        (out.bypassed ≡ res.bypassed + (if is_empty (endpoint l) then 1 else 0))
        × (out.unique_endpoints ≡ res.unique_endpoints)
  unfolding settle
  settle-same l res = ground arith

  assemble-same :
      (links : List Text) (res : PrescanResult)
      → let out = assemble endpoint dial links res in
        (out.bypassed ≡ res.bypassed + count_if (λ l. is_empty (endpoint l)) links)
        × (out.unique_endpoints ≡ res.unique_endpoints)
  unfolding assemble
  assemble-same [] res = omega arith
  assemble-same (l ∷ links) res =
      let ih = assemble-same links (settle endpoint dial l res) in
      ground (arith, ih, settle-same l res)

module _ (endpoint : Text → Text) where
  uniq_from-Distinct :
      (seen links : List Text) → Distinct seen → Distinct (uniq_from endpoint seen links)
  unfolding uniq_from
  uniq_from-Distinct seen [] d = d
  uniq_from-Distinct seen (l ∷ links) d =
      elim (Bool-cases (is_empty (endpoint l) || seen_before (endpoint l) seen)) [
        | inl e ↦ rw e (uniq_from-Distinct seen links d)
        | inr e ↦
            let new : seen_before (endpoint l) seen ≡ false = ground arith in
            rw e (
              uniq_from-Distinct (endpoint l ∷ seen) links
                ((λ i. cc (new, (seen_before_iff (endpoint l) seen).1 i)), d))
      ]

  uniq_from-In :
      (seen links : List Text) (e : Text)
      → In e (uniq_from endpoint seen links)
        ↔ (In e seen ⊎ ((e ≢ []) × ((l : Text) × In l links × (endpoint l ≡ e))))
  unfolding uniq_from
  uniq_from-In seen [] e = (λ i. inl i, λ o. elim o [ inl i ↦ i | inr w ↦ absurd w.1.1 ])
  uniq_from-In seen (l ∷ links) e =
      elim (Bool-cases (is_empty (endpoint l) || seen_before (endpoint l) seen)) [
        | inl old ↦
            let (to, from) = uniq_from-In seen links e in
            rw old (
              λ i. elim (to i) [ inl j ↦ inl j | inr w ↦ inr (w.0, (w.1.0, inr w.1.1, w.1.2)) ],
              λ o. elim o [
                | inl j ↦ from (inl j)
                | inr w ↦ from (known w.0 w.1.0 w.1.1 w.1.2 (blank_or_seen old))
              ],
            )
        | inr new ↦
            let (to, from) = uniq_from-In (endpoint l ∷ seen) links e in
            rw new (
              λ i. elim (to i) [
                | inl (inl q) ↦ inr (
                  (λ b. cc (full_of new, (is_empty_iff (endpoint l)).1 (q ∙ b))),
                  (l, inl refl, q),
                )
                | inl (inr j) ↦ inl j
                | inr w ↦ inr (w.0, (w.1.0, inr w.1.1, w.1.2))
              ],
              λ o. elim o [
                | inl j ↦ from (inl (inr j))
                | inr w ↦ from (moved w.0 w.1.0 w.1.1 w.1.2)
              ],
            )
      ]
    where
      known :
          e ≢ []
          → (k : Text) → In k (l ∷ links)
          → endpoint k ≡ e
          → (endpoint l ≡ []) ⊎ In (endpoint l) seen
          → In e seen ⊎ ((e ≢ []) × ((m : Text) × In m links × (endpoint m ≡ e)))
      known f k (inr j) q o = inr (f, (k, j, q))
      known f k (inl p) q (inl b) = absurd (f (sym q ∙ ap endpoint (sym p) ∙ b))
      known f k (inl p) q (inr i) = inl (rw (← q, ← p) i)

      blank_or_seen :
          is_empty (endpoint l) || seen_before (endpoint l) seen ≡ true
          → (endpoint l ≡ []) ⊎ In (endpoint l) seen
      blank_or_seen old = elim (Bool-cases (is_empty (endpoint l))) [
        | inl b ↦ inl ((is_empty_iff (endpoint l)).0 b)
        | inr f ↦ inr ((seen_before_iff (endpoint l) seen).0 (rw f at old))
      ]

      full_of :
          is_empty (endpoint l) || seen_before (endpoint l) seen ≡ false
          → is_empty (endpoint l) ≡ false
      full_of new = ground arith

      moved :
          e ≢ []
          → (k : Text) → In k (l ∷ links)
          → endpoint k ≡ e
          → In e (endpoint l ∷ seen) ⊎ ((e ≢ []) × ((m : Text) × In m links × (endpoint m ≡ e)))
      moved f k (inr j) q = inr (f, (k, j, q))
      moved f k (inl p) q = inl (inl (ap endpoint p ∙ q))

-- What the pre-check answers for the links, with the endpoint of each and what dialling it gives.
module _ {P : Type 0} (fits_int : Text → Bool) (c : Core P) (dial : Text → Bool)
    (links : List Text) where
  -- The survivors are the links that bypass the check or whose endpoint answers, in input order;
  -- every link is counted once, as reachable, bypassed or filtered out, and the survivors are those
  -- counted as reachable or bypassed; the bypassed ones are those without an endpoint.
  pub run_prescan_lem :
      let out = run_prescan fits_int c dial links in
      (out.reachable ≡ keep (survives (endpoint_for_link fits_int c) dial) links)
      × (out.tcp_reachable + out.bypassed + out.filtered_out ≡ length links)
      × (length out.reachable ≡ out.tcp_reachable + out.bypassed)
      × (out.bypassed ≡ count_if (λ l. is_empty (endpoint_for_link fits_int c l)) links)
  unfolding run_prescan
  run_prescan_lem =
      let endpoint = endpoint_for_link fits_int c in
      let start : PrescanResult = record {
        reachable = [];
        tcp_reachable = 0;
        bypassed = 0;
        filtered_out = 0;
        unique_endpoints = length (uniq_from endpoint [] links);
      } in
      let counts = assemble-IsBalanced endpoint dial links 0 start (refl, refl) in
      (
        assemble-reachable endpoint dial links start,
        omega (arith, counts.0),
        counts.1,
        omega (arith, (assemble-same endpoint dial links start).0),
      )

  -- The endpoints the pre-check reports are counted without repetition: they are the length of a
  -- list in which no endpoint stands twice and in which exactly the links' nonblank endpoints stand.
  -- The workers that dial them are at least one and, when there is an endpoint, at most as many as
  -- the endpoints, whatever number was asked for.
  pub run_prescan_endpoints :
      (workers : Option ℕ)
      → let n = (run_prescan fits_int c dial links).unique_endpoints in
        ((uniq : List Text) × (n ≡ length uniq)
          × Distinct uniq
          × ((e : Text)
              → In e uniq
                ↔ ((e ≢ []) × ((l : Text) × In l links × (endpoint_for_link fits_int c l ≡ e)))))
        × (1 ≤ worker_count workers n)
        × (1 ≤ n → worker_count workers n ≤ n)
  unfolding run_prescan worker_count
  run_prescan_endpoints workers =
      let endpoint = endpoint_for_link fits_int c in
      (
        (
          uniq_from endpoint [] links,
          (assemble-same endpoint dial links _).1,
          uniq_from-Distinct endpoint [] links tt,
          λ e. (
            λ i. elim ((uniq_from-In endpoint [] links e).0 i) [ inl j ↦ absurd j | inr w ↦ w ],
            λ w. (uniq_from-In endpoint [] links e).1 (inr w),
          ),
        ),
        ground arith,
        λ h. ground arith,
      )
