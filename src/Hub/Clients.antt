-- ===== src/Hub/Clients.antt =====
-- The clients of the hub: who is registered, and whose channel is closed.
use mathlib.Core.Path.{subst}
use xray_knife.Prelude.{
  ℕ, ◌<◌, ◌≡◌, refl, sym, ap, ◌∙◌, inl, inr, true, false, not, ◌&&◌, List, [], ◌∷◌, some, ◌==◌,
  keep, arith, Bool-cases,
}
use xray_knife.Hub.{Channel, Hub, member, put, close_channel, unregister, evict}

-- No client is registered twice.
abbrev pub IsUnique : List ℕ → Type 0
IsUnique [] = Unit
IsUnique (c ∷ cs) = (member c cs ≡ false) × IsUnique cs

-- The registered clients are those that were made and whose channel is open, each once.
pub record IsSound (h : Hub) : Type 0 where
  pub unique : IsUnique h.clients
  pub known : (c : ℕ) → member c h.clients ≡ true → c < h.next
  pub closing : (c : ℕ) → c < h.next → (h.channels c).closed ≡ not (member c h.clients)

member-keep :
    (c d : ℕ) (cs : List ℕ) → member d (keep (λ e. not (e == c)) cs) ≡ member d cs && not (d == c)
unfolding member
member-keep c d [] = refl
member-keep c d (e ∷ cs) = ground (arith, member-keep c d cs)

keep-IsUnique : (c : ℕ) (cs : List ℕ) → IsUnique cs → IsUnique (keep (λ e. not (e == c)) cs)
unfolding member
keep-IsUnique c [] u = tt
keep-IsUnique c (e ∷ cs) u = elim (Bool-cases (e == c)) [
  | inl q ↦ rw q (keep-IsUnique c cs u.1)
  | inr q ↦ rw q (ground (arith, member-keep c e cs, u.0), keep-IsUnique c cs u.1)
]

-- From `h` to `g`, the clients of `gone` have left, and the buffers are as before.
pub record HasLeft (gone : List ℕ) (h g : Hub) : Type 0 where
  pub sound : IsSound g
  pub left : (d : ℕ) → member d g.clients ≡ member d h.clients && not (member d gone)
  pub next : g.next ≡ h.next
  pub queue : (d : ℕ) → (g.channels d).queue ≡ (h.channels d).queue
  pub taken : (d : ℕ) → (g.channels d).taken ≡ (h.channels d).taken

abbrev closed_hub : ℕ → Hub → Hub
closed_hub c h = record h {
  clients = keep (λ d. not (d == c)) h.clients;
  channels = put c (record (h.channels c) { closed = true }) h.channels;
}

unregister_open :
    (c : ℕ) (h : Hub)
    → member c h.clients ≡ true
    → (h.channels c).closed ≡ false
    → unregister c h ≡ some (closed_hub c h)
unfolding unregister close_channel
unregister_open c h m o = rw (unregister, m, close_channel, o) refl

pub eqb_sound : (d c : ℕ) → (d == c) ≡ true → d ≡ c
eqb_sound d c h = ground arith

pub put_at :
    (c : ℕ) (ch : Channel) (channels : ℕ → Channel) (d : ℕ)
    → (d == c) ≡ true
    → put c ch channels d ≡ ch
unfolding put
put_at c ch channels d e = rw e refl

pub put_off :
    (c : ℕ) (ch : Channel) (channels : ℕ → Channel) (d : ℕ)
    → (d == c) ≡ false
    → put c ch channels d ≡ channels d
unfolding put
put_off c ch channels d e = rw e refl

-- Closing a channel moves nothing.
pub put_keeps {ℓ} :
    {A : Type ℓ} (field : Channel → A) (c : ℕ) (ch : Channel) (channels : ℕ → Channel)
    → field ch ≡ field (channels c)
    → (d : ℕ) → field (put c ch channels d) ≡ field (channels d)
put_keeps field c ch channels h d = elim (Bool-cases (d == c)) [
  | inl e ↦
      ap field (put_at c ch channels d e) ∙ h ∙ ap (λ x. field (channels x)) (sym (eqb_sound d c e))
  | inr e ↦ ap field (put_off c ch channels d e)
]

closed_hub-closing :
    (c d : ℕ) (h : Hub)
    → (h.channels d).closed ≡ not (member d h.clients)
    → ((closed_hub c h).channels d).closed ≡ not (member d (closed_hub c h).clients)
unfolding put
closed_hub-closing c d h s = ground (arith, member-keep c d h.clients)

pub unregister-HasLeft :
    (c : ℕ) (h : Hub) → IsSound h → (g : Hub) × (unregister c h ≡ some g) × HasLeft (c ∷ []) h g
unfolding member unregister
unregister-HasLeft c h s = elim (Bool-cases (member c h.clients)) [
  | inl m ↦
      let o : (h.channels c).closed ≡ false = s.closing c (s.known c m) ∙ ap not m in
      (
        closed_hub c h,
        unregister_open c h m o,
        record {
          sound = record {
            unique = keep-IsUnique c h.clients s.unique;
            known = λ d i. s.known d (ground (arith, member-keep c d h.clients, i));
            closing = λ d l. closed_hub-closing c d h (s.closing d l);
          };
          left = λ d. ground (arith, member-keep c d h.clients);
          next = refl;
          queue = put_keeps (λ x. x.queue) c _ h.channels refl;
          taken = put_keeps (λ x. x.taken) c _ h.channels refl;
        },
      )
  | inr m ↦ (
    h,
    rw (unregister, m) refl,
    record { sound = s; left = λ d. stays d m; next = refl; queue = λ d. refl; taken = λ d. refl },
  )
]
  where
    stays :
        (d : ℕ)
        → member c h.clients ≡ false
        → member d h.clients ≡ member d h.clients && not (member d (c ∷ []))
    stays d m = elim (Bool-cases (c == d)) [
      | inl e ↦
          let gone : member d h.clients ≡ false =
            subst (λ x. member x h.clients ≡ false) (eqb_sound c d e) m in
          rw gone refl
      | inr e ↦ ground arith
    ]

pub evict-HasLeft :
    (cs : List ℕ) (h : Hub) → IsSound h → (g : Hub) × (evict cs h ≡ some g) × HasLeft cs h g
unfolding evict member
evict-HasLeft [] h s = (
  h,
  refl,
  record { sound = s; left = λ d. ground arith; next = refl; queue = λ d. refl; taken = λ d. refl },
)
evict-HasLeft (c ∷ cs) h s =
    let (k, e, l) = unregister-HasLeft c h s in
    let (g, f, m) = evict-HasLeft cs k l.sound in
    (
      g,
      rw (evict, e) f,
      record {
        sound = m.sound;
        left = λ d. ground (arith, m.left d, l.left d);
        next = m.next ∙ l.next;
        queue = λ d. m.queue d ∙ l.queue d;
        taken = λ d. m.taken d ∙ l.taken d;
      },
    )
