-- ===== src/Rotation/Selection.antt =====
-- Which config a search brings up, and which links it strikes.
use mathlib.Core.Path.{subst}
use xray_knife.Prelude.{
  ◌/◌, ◌<◌, ℕ, ◌≤◌, ◌≡◌, ◌≢◌, refl, sym, ap, ◌∙◌, Bool, true, false, not, ◌||◌, List, [], ◌∷◌, map,
  none, some, arith, Bool-cases, Option-cases, inl, inr, In, In-take, Distinct,
}
use xray_knife.Text.{Text, eq_text, is_empty}
use xray_knife.Text.Equality.{eq_text_iff, is_empty_iff}
use xray_knife.Examiner.Types.{Result, is_passed}
use xray_knife.Rotation.Blacklist.{
  Settings, Blacklist, record_strike, drop_last_used, candidates_of, filter_blacklisted,
}
use xray_knife.Rotation.Filtering.{filter_blacklisted-In}
use xray_knife.Rotation.Candidates.{
  World, has_protocol, try_results, find_and_start_working_config, batch_of, batch_size_for,
}

-- The batch is never larger than what is available; left to itself it takes a tenth of the pool
-- where that is between 10 and 200 links.
pub batch_size_for_bounds :
    (s : Settings) (n : ℕ)
    → (batch_size_for s n ≤ n)
      × (s.batch_size ≡ 0 → 100 ≤ n → n < 2010 → batch_size_for s n ≡ n / 10)
      × (s.batch_size ≢ 0 → s.batch_size ≤ n → batch_size_for s n ≡ s.batch_size)
unfolding batch_size_for
batch_size_for_bounds s n = ground arith

drop_last_used-In :
    (last : Text) (links : List Text) (l : Text) → In l (drop_last_used last links) → In l links
unfolding drop_last_used
drop_last_used-In last [] l i = elim i [ ]
drop_last_used-In last (k ∷ links) l i = elim (Bool-cases (eq_text k last)) [
  | inl e ↦ inr (rw e at i)
  | inr e ↦ elim (rw e at i) [ inl q ↦ inl q | inr j ↦ inr (drop_last_used-In last links l j) ]
]

-- With no link twice, the last one used is gone.
drop_last_used-gone :
    (last : Text) (links : List Text) → Distinct links → ¬ In last (drop_last_used last links)
unfolding drop_last_used
drop_last_used-gone last [] d i = elim i [ ]
drop_last_used-gone last (k ∷ links) (apart, d) i = elim (Bool-cases (eq_text k last)) [
  | inl e ↦ apart (rw (← (eq_text_iff k last).0 e) at (rw e at i))
  | inr e ↦ elim (rw e at i) [
    | inl q ↦ cc (e, (eq_text_iff k last).1 q)
    | inr j ↦ drop_last_used-gone last links d j
  ]
]

module _ {P : Type 0} (s : Settings) (w : World P) (can_release : Bool) where
  -- The chosen result is one of those given, passed, and its instance was built and started.
  try_results-chosen :
      (rs : List (Result P)) (gone : Bool) (bl : Blacklist) (r : Result P)
      → (try_results s w can_release rs gone bl).chosen ≡ some r
      → In r rs
        × (is_passed r.status ≡ true)
        × (w.make_instance r.config_link ≡ none)
        × (w.start r.config_link ≡ none)
  unfolding try_results
  try_results-chosen [] gone bl r h = cc
  try_results-chosen (q ∷ rs) gone bl r h =
      let link = q.config_link in
      let bl' = record_strike s (w.strike_time link) link bl in
      elim (Bool-cases (not (is_passed q.status) || not (has_protocol q))) [
        | inl skip ↦ later (try_results-chosen rs gone bl r (rw skip at h))
        | inr fit ↦ elim (Option-cases (w.make_instance link)) [
          | inr (why, e) ↦ later (try_results-chosen rs gone bl' r (rw (fit, e) at h))
          | inl e ↦ elim (Option-cases (w.start link)) [
            | inr (why, f) ↦
                later (try_results-chosen rs (gone || can_release) bl' r (rw (fit, e, f) at h))
            | inl up ↦
                let same : q ≡ r = cc (rw (fit, e, up) at h) in
                subst
                  (λ (t : Result P).
                    In t (q ∷ rs)
                    × (is_passed t.status ≡ true)
                    × (w.make_instance t.config_link ≡ none)
                    × (w.start t.config_link ≡ none))
                  same (inl refl, ground arith, e, up)
          ]
        ]
      ]
    where
      later :
          (In r rs
            × (is_passed r.status ≡ true)
            × (w.make_instance r.config_link ≡ none)
            × (w.start r.config_link ≡ none))
          → In r (q ∷ rs)
            × (is_passed r.status ≡ true)
            × (w.make_instance r.config_link ≡ none)
            × (w.start r.config_link ≡ none)
      later (i, p, m, u) = (inr i, p, m, u)

  try_results-finds :
      (rs : List (Result P)) (gone : Bool) (bl : Blacklist) (r : Result P)
      → In r rs
      → is_passed r.status ≡ true
      → has_protocol r ≡ true
      → w.make_instance r.config_link ≡ none
      → w.start r.config_link ≡ none
      → (try_results s w can_release rs gone bl).chosen ≢ none
  unfolding try_results
  try_results-finds [] gone bl r i p q m u h = elim i [ ]
  try_results-finds (t ∷ rs) gone bl r (inl e) p q m u h =
      let p' : is_passed t.status ≡ true = rw e p in
      let q' : has_protocol t ≡ true = rw e q in
      let m' : w.make_instance t.config_link ≡ none = rw e m in
      let u' : w.start t.config_link ≡ none = rw e u in cc (rw (p', q', m', u') at h)
  try_results-finds (t ∷ rs) gone bl r (inr i) p q m u h =
      let link = t.config_link in
      let bl' = record_strike s (w.strike_time link) link bl in
      elim (Bool-cases (not (is_passed t.status) || not (has_protocol t))) [
        | inl skip ↦ try_results-finds rs gone bl r i p q m u (rw skip at h)
        | inr fit ↦ elim (Option-cases (w.make_instance link)) [
          | inr (why, e) ↦ try_results-finds rs gone bl' r i p q m u (rw (fit, e) at h)
          | inl e ↦ elim (Option-cases (w.start link)) [
            | inr (why, f) ↦
                try_results-finds rs (gone || can_release) bl' r i p q m u (rw (fit, e, f) at h)
            | inl up ↦ cc (rw (fit, e, up) at h)
          ]
        ]
      ]

In-map :
    {A B : Type 0} (f : A → B) (b : B) (xs : List A)
    → In b (map f xs)
    → (a : A) × In a xs × (f a ≡ b)
In-map f b [] i = elim i [ ]
In-map f b (x ∷ xs) (inl e) = (x, inl refl, e)
In-map f b (x ∷ xs) (inr i) = let (a, j, e) = In-map f b xs i in (a, inr j, e)

In-map_of_In : {A B : Type 0} (f : A → B) (a : A) (xs : List A) → In a xs → In (f a) (map f xs)
In-map_of_In f a [] i = elim i [ ]
In-map_of_In f a (x ∷ xs) (inl e) = inl (ap f e)
In-map_of_In f a (x ∷ xs) (inr i) = inr (In-map_of_In f a xs i)

-- What the search relies on: shuffling and sorting rearrange their input, no link of the pool
-- stands twice, and the result of a test names the link that was tested.
pub record IsFair {P : Type 0} (s : Settings) (w : World P) : Type 0 where
  pub shuffled : (l : Text) → In l (w.shuffle s.config_links) → In l s.config_links
  pub apart : Distinct (w.shuffle s.config_links)
  pub sorted : (r : Result P) (rs : List (Result P)) → In r (w.sort rs) → In r rs
  pub sorted_all : (r : Result P) (rs : List (Result P)) → In r rs → In r (w.sort rs)
  pub named : (l : Text) → (w.examine l).config_link ≡ l

module _ {P : Type 0} (s : Settings) (w : World P) (can_release : Bool) (last : Text)
    (bl : Blacklist) (fair : IsFair s w) where
  batch_of-In :
      (l : Text)
      → In l (batch_of s w can_release last bl).0
      → In l s.config_links × ((last ≢ []) → l ≢ last)
  unfolding batch_of candidates_of
  batch_of-In l i =
      let available = candidates_of last (w.shuffle s.config_links) in
      let kept =
        filter_blacklisted-In s w.now available bl l
          (In-take l _ (filter_blacklisted s w.now available bl).0 i) in
      elim (Bool-cases (is_empty last)) [
        | inl blank ↦
            (fair.shuffled l (rw blank at kept), λ full e. full ((is_empty_iff last).0 blank))
        | inr named ↦
            let dropped : In l (drop_last_used last (w.shuffle s.config_links)) =
              rw named at kept in
            (
              fair.shuffled l (drop_last_used-In last _ l dropped),
              λ full e. drop_last_used-gone last _ fair.apart (rw e at dropped),
            )
      ]

  chosen_sound :
      (r : Result P)
      → (find_and_start_working_config s w can_release last bl).chosen ≡ some r
      → In r.config_link s.config_links
        × (last ≢ [] → r.config_link ≢ last)
        × (r ≡ w.examine r.config_link)
        × (is_passed r.status ≡ true)
        × (w.make_instance r.config_link ≡ none)
        × (w.start r.config_link ≡ none)
  unfolding find_and_start_working_config
  chosen_sound r h = elim (Bool-cases w.cancelled) [
    | inl stop ↦ cc (rw stop at h)
    | inr go ↦
        let results = w.sort (map w.examine (batch_of s w can_release last bl).0) in
        let (i, p, m, u) = try_results-chosen s w can_release results false _ r (rw go at h) in
        let (l, j, e) = In-map w.examine r _ (fair.sorted r _ i) in
        let same : l ≡ r.config_link =
          sym (fair.named l) ∙ ap (λ (t : Result P). t.config_link) e in
        let (pool, other) = batch_of-In l j in
        (rw (← same) pool, λ full q. other full (same ∙ q), sym e ∙ ap w.examine same, p, m, u)
  ]

  chosen_complete :
      (l : Text)
      → w.cancelled ≡ false
      → In l (batch_of s w can_release last bl).0
      → is_passed (w.examine l).status ≡ true
      → has_protocol (w.examine l) ≡ true
      → w.make_instance l ≡ none
      → w.start l ≡ none
      → (find_and_start_working_config s w can_release last bl).chosen ≢ none
  unfolding find_and_start_working_config
  chosen_complete l go i p q m u h =
      let results = map w.examine (batch_of s w can_release last bl).0 in
      try_results-finds s w can_release (w.sort results) false _ (w.examine l)
        (fair.sorted_all (w.examine l) results (In-map_of_In w.examine l _ i)) p q
        (ap w.make_instance (fair.named l) ∙ m) (ap w.start (fair.named l) ∙ u) (rw go at h)

-- A chosen result comes from a link of the pool that is not the last one used; the link passed its
-- test, and its instance was built and started. Conversely, if the context is not done and some
-- link of the batch passes with a protocol whose instance can be built and started, then a result
-- is chosen.
pub find_and_start_chosen :
    {P : Type 0} (s : Settings) (w : World P) (can_release : Bool) (last : Text) (bl : Blacklist)
    → IsFair s w
    → let a = find_and_start_working_config s w can_release last bl in
      ((r : Result P)
        → a.chosen ≡ some r
        → In r.config_link s.config_links
          × (last ≢ [] → r.config_link ≢ last)
          × (r ≡ w.examine r.config_link)
          × (is_passed r.status ≡ true)
          × (w.make_instance r.config_link ≡ none)
          × (w.start r.config_link ≡ none))
      × ((l : Text)
          → w.cancelled ≡ false
          → In l (batch_of s w can_release last bl).0
          → is_passed (w.examine l).status ≡ true
          → has_protocol (w.examine l) ≡ true
          → w.make_instance l ≡ none
          → w.start l ≡ none
          → a.chosen ≢ none)
find_and_start_chosen s w can_release last bl fair =
    (chosen_sound s w can_release last bl fair, chosen_complete s w can_release last bl fair)
