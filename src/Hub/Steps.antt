-- ===== src/Hub/Steps.antt =====
-- The single steps of the hub, and what they leave to a client.
use mathlib.Core.Path.{subst}
use xray_knife.Prelude.{
  ℕ, ◌≤◌, ◌<◌, ◌≡◌, refl, sym, ap, ◌∙◌, inl, inr, true, false, not, List, [], ◌∷◌, ◌++◌, Option,
  some, ltb, ◌==◌, length, take, arith, Bool-cases, Option-cases, append-nil, append_assoc,
}
use xray_knife.Text.{Text, is_empty, trim_space}
use xray_knife.Hub.{
  Hub, HubEvent, open_channel, member, register, dispatch_first, post, write, receive_first,
  connect, deliver, leave, read, emit, log,
}
use xray_knife.Hub.Clients.{IsUnique, IsSound, HasLeft, evict-HasLeft, put_at, put_off, put_keeps}
use xray_knife.Hub.FanOut.{fan_out-IsSent}

-- What a client has been sent and was not lost: read, or waiting in its channel.
abbrev pub history : Hub → ℕ → List Text
history h c = (h.channels c).taken ++ (h.channels c).queue

-- The message that a step of the loop delivers.
unfoldable pub delivered : HubEvent → Hub → List Text
delivered deliver h = take 1 h.broadcast
delivered connect h = []
delivered (leave c) h = []
delivered (read c) h = []
delivered (emit message) h = []
delivered (log p) h = []

-- A step is sound, brings no client back, and leaves a client that stays with what it had and what
-- is delivered.
pub record IsStep (sent : List Text) (h g : Hub) : Type 0 where
  pub sound : IsSound g
  pub grows : h.next ≤ g.next
  pub stays : (c : ℕ) → c < h.next → member c g.clients ≡ true → member c h.clients ≡ true
  pub keeps : (c : ℕ) → c < h.next → member c g.clients ≡ true → history g c ≡ history h c ++ sent

-- A step in which clients only leave.
pub HasLeft-IsStep : (gone : List ℕ) (h g : Hub) → HasLeft gone h g → IsStep [] h g
HasLeft-IsStep gone h g l = record {
  sound = l.sound;
  grows = omega (arith, l.next);
  stays = λ c i m. ground (arith, l.left c, m);
  keeps = λ c i m. cc (l.taken c, l.queue c, append-nil (history h c));
}

-- A step that moves no client.
pub same-IsStep :
    (h g : Hub)
    → IsSound h
    → g.clients ≡ h.clients
    → g.next ≡ h.next
    → ((c : ℕ) → (g.channels c).closed ≡ (h.channels c).closed)
    → ((c : ℕ) → history g c ≡ history h c)
    → IsStep [] h g
same-IsStep h g s p q r t = record {
  sound = record {
    unique = subst IsUnique (sym p) s.unique;
    known = λ c m. omega (arith, q, s.known c (subst (λ x. member c x ≡ true) p m));
    closing = λ c i. r c ∙ s.closing c (omega (arith, q, i)) ∙ ap (λ x. not (member c x)) (sym p);
  };
  grows = omega (arith, q);
  stays = λ c i m. ap (member c) (sym p) ∙ m;
  keeps = λ c i m. t c ∙ sym (append-nil (history h c));
}

pub dispatch_first-IsStep :
    (b : List Text) (h : Hub)
    → IsSound h
    → (g : Hub) × (dispatch_first b h ≡ some g) × IsStep (take 1 b) h g
unfolding dispatch_first
dispatch_first-IsStep [] h s = (h, refl, same-IsStep h h s refl refl (λ c. refl) (λ c. refl))
dispatch_first-IsStep (message ∷ rest) h s =
    let (sent, stale, e, w) =
      fan_out-IsSent message h.clients h.channels s.unique
        (λ d i. s.closing d (s.known d i) ∙ ap not i) in
    let mid : Hub = record h { channels = sent; broadcast = rest } in
    let sound : IsSound mid = record {
      unique = s.unique;
      known = s.known;
      closing = λ d i. w.closed d ∙ s.closing d i;
    } in
    let (g, f, l) = evict-HasLeft stale mid sound in
    (
      g,
      rw (dispatch_first, e) f,
      record {
        sound = l.sound;
        grows = omega (arith, l.next);
        stays = λ c i m. ground (arith, l.left c, m);
        keeps = λ c i m.
            let here : member c h.clients ≡ true = ground (arith, l.left c, m) in
            let there : member c stale ≡ false = ground (arith, l.left c, m) in
            cc (
              l.taken c,
              l.queue c,
              w.taken c,
              w.reached c here there,
              append_assoc (h.channels c).taken (h.channels c).queue (message ∷ []),
            );
      },
    )

pub register-IsStep : (h : Hub) → IsSound h → IsStep [] h (register h)
unfolding register member
register-IsStep h s = record {
  sound = record {
    unique = (new, s.unique);
    known = λ c m. ground (arith, s.known c, m);
    closing = λ c i. elim (Bool-cases (c == h.next)) [
      | inl e ↦ ap (λ x. x.closed) (put_at h.next open_channel h.channels c e) ∙ ground arith
      | inr e ↦
          ap (λ x. x.closed) (put_off h.next open_channel h.channels c e)
          ∙ s.closing c (ground arith)
          ∙ ground arith
    ];
  };
  grows = omega arith;
  stays = λ c i m. ground (arith, m);
  keeps = λ c i m.
      ap (λ x. x.taken ++ x.queue) (put_off h.next open_channel h.channels c (ground arith))
      ∙ sym (append-nil (history h c));
}
  where
    new : member h.next h.clients ≡ false
    new = elim (Bool-cases (member h.next h.clients)) [
      | inl m ↦ let i = s.known h.next m in absurd (omega (arith, i))
      | inr m ↦ m
    ]

receive_first-history :
    (q : List Text) (c : ℕ) (h : Hub)
    → (h.channels c).queue ≡ q
    → (d : ℕ) → history (receive_first q c h) d ≡ history h d
unfolding receive_first
receive_first-history [] c h e d = refl
receive_first-history (message ∷ rest) c h e d =
    put_keeps (λ x. x.taken ++ x.queue) c _ h.channels
      (append_assoc (h.channels c).taken (message ∷ []) rest
        ∙ ap (λ x. (h.channels c).taken ++ x) (sym e))
      d

pub receive_first-IsStep :
    (q : List Text) (c : ℕ) (h : Hub)
    → (h.channels c).queue ≡ q
    → IsSound h
    → IsStep [] h (receive_first q c h)
unfolding receive_first
receive_first-IsStep [] c h e s = same-IsStep h h s refl refl (λ d. refl) (λ d. refl)
receive_first-IsStep (message ∷ rest) c h e s =
    same-IsStep h (receive_first (message ∷ rest) c h) s refl refl
      (put_keeps (λ x. x.closed) c _ h.channels refl) (receive_first-history (message ∷ rest) c h e)

pub post-IsStep : (message : Text) (h : Hub) → IsSound h → IsStep [] h (post message h)
unfolding post
post-IsStep message h s = elim (Bool-cases (ltb (length h.broadcast) 1024)) [
  | inl e ↦ rw (post, e) (same-IsStep h _ s refl refl (λ d. refl) (λ d. refl))
  | inr e ↦ rw (post, e) (same-IsStep h h s refl refl (λ d. refl) (λ d. refl))
]

pub write-IsStep :
    (marshal : Text → Option Text) (p : Text) (h : Hub)
    → IsSound h
    → IsStep [] h (write marshal p h)
unfolding write
write-IsStep marshal p h s = elim (Bool-cases (is_empty (trim_space p))) [
  | inl e ↦ rw (write, e) (same-IsStep h h s refl refl (λ d. refl) (λ d. refl))
  | inr e ↦ elim (Option-cases (marshal (trim_space p))) [
    | inl f ↦ rw (write, e, f) (same-IsStep h h s refl refl (λ d. refl) (λ d. refl))
    | inr (message, f) ↦ rw (write, e, f) (post-IsStep message h s)
  ]
]
