-- ===== src/Chain/FromPool.antt =====
-- Which hops a chain gets from the pool, whatever the shuffle.
use xray_knife.Prelude.{
  ℕ, zero, suc, ◌+◌, ◌≤◌, ◌<◌, ◌≡◌, refl, sym, ap, ◌∙◌, ◌⊎◌, inl, inr, true, false, List, [], ◌∷◌,
  ◌++◌, append-nil, append_assoc, Option, none, some, ltb, leb, length, take, arith, Bool-cases,
  Option-cases, length-take, length-append, length-take-le,
}
use xray_knife.Prelude.Reordered.{IsReordered, nil, cons, swap, trans}
use xray_knife.Text.{Text}
use xray_knife.Core.{ok, err, Core}
use xray_knife.Chain.{read_hop, gather, select_chain_from_pool}

abbrev pub push : {A : Type 0} → Option A → List A → List A
push none xs = xs
push (some x) xs = x ∷ xs

length-push :
    {A : Type 0} (o : Option A) (xs ys : List A)
    → length xs ≡ length ys
    → length (push o xs) ≡ length (push o ys)
length-push none xs ys h = h
length-push (some x) xs ys h = ap suc h

length-push-push :
    {A : Type 0} (o p : Option A) (xs : List A)
    → length (push o (push p xs)) ≡ length (push p (push o xs))
length-push-push none p xs = refl
length-push-push (some x) none xs = refl
length-push-push (some x) (some y) xs = refl

take-nil : {A : Type 0} (n : ℕ) → take {A = A} n [] ≡ []
take-nil zero = refl
take-nil (suc n) = refl

module _ {P : Type 0} (c : Core P) where
  -- The hops among them.
  abbrev pub readable : List Text → List P
  readable [] = []
  readable (link ∷ links) = push (read_hop c link) (readable links)

  gather-take :
      (links : List Text) (n m : ℕ) (hops : List P)
      → length hops + m ≡ n
      → gather c n links hops ≡ hops ++ take m (readable links)
  unfolding gather
  gather-take [] n m hops h = sym (ap (λ x. hops ++ x) (take-nil m) ∙ append-nil hops)
  gather-take (link ∷ links) n zero hops h =
      let full : leb n (length hops) ≡ true = ground arith in
      rw (gather, full) (sym (append-nil hops))
  gather-take (link ∷ links) n (suc m) hops h =
      let room : leb n (length hops) ≡ false = ground arith in
      elim (Option-cases (read_hop c link)) [
        | inl e ↦ rw (gather, room, e) (gather-take links n (suc m) hops h)
        | inr (p, e) ↦
            rw (gather, room, e)
              (gather-take links n m (hops ++ p ∷ []) (omega (arith, length-append hops (p ∷ [])))
                ∙ append_assoc hops (p ∷ []) (take m (readable links)))
      ]

  length-readable-IsReordered :
      {l m : List Text} → IsReordered l m → length (readable l) ≡ length (readable m)
  length-readable-IsReordered nil = refl
  length-readable-IsReordered (cons a d) =
      length-push (read_hop c a) _ _ (length-readable-IsReordered d)
  length-readable-IsReordered (swap a b l) =
      length-push-push (read_hop c a) (read_hop c b) (readable l)
  length-readable-IsReordered (trans d e) =
      length-readable-IsReordered d ∙ length-readable-IsReordered e

  length-readable-le : (links : List Text) → length (readable links) ≤ length links
  length-readable-le [] = omega arith
  length-readable-le (link ∷ links) = elim (Option-cases (read_hop c link)) [
    | inl e ↦ rw e (omega (arith, length-readable-le links))
    | inr (p, e) ↦ rw e (omega (arith, length-readable-le links))
  ]

  length-take-min : (n : ℕ) (xs : List P) → length (take n xs) ≤ length xs
  length-take-min zero xs = omega arith
  length-take-min (suc n) [] = omega arith
  length-take-min (suc n) (x ∷ xs) = omega (arith, length-take-min n xs)

  -- From a pool in any order, a chain of `n` hops is found just when `n` is at least two and `n` of the
  -- pool's links can be read; then the hops are the first `n` that can be read, and otherwise the
  -- answer is an error.
  pub select_chain_from_pool_lem :
      (shuffle : List Text → List Text) (pool : List Text) (n : ℕ)
      → IsReordered (shuffle pool) pool
      → let out = select_chain_from_pool shuffle c pool n in
        ((2 ≤ n)
          × (n ≤ length (readable pool))
          × (out ≡ ok (take n (readable (shuffle pool))))
          × (length (take n (readable (shuffle pool))) ≡ n))
        ⊎ (((n < 2) ⊎ (length (readable pool) < n)) × ((e : Text) × (out ≡ err e)))
  unfolding select_chain_from_pool
  select_chain_from_pool_lem shuffle pool n h =
      let found = readable (shuffle pool) in
      let got : gather c n (shuffle pool) [] ≡ take n found =
        gather-take (shuffle pool) n n [] (omega arith) in
      let same = length-readable-IsReordered h in
      let below = length-readable-le pool in
      elim (Bool-cases (ltb n 2)) [
        | inl few ↦ rw few (inr (inl (ground arith), (_, refl)))
        | inr many ↦ elim (Bool-cases (ltb (length pool) n)) [
          | inl short ↦ rw (many, short) (inr (inr (ground arith), (_, refl)))
          | inr long ↦ elim (Bool-cases (ltb (length (take n found)) n)) [
            | inl missing ↦
                rw (many, long, got, missing)
                  (inr (inr (ground (arith, length-take n found, same)), (_, refl)))
            | inr enough ↦
                rw (many, long, got, enough)
                  (inl (
                    ground arith,
                    ground (arith, length-take-min n found, same),
                    refl,
                    ground (arith, length-take-le n found),
                  ))
          ]
        ]
      ]
