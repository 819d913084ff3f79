-- ===== src/Hub/FanOut.antt =====
-- One message sent to every client, in the order of the list.
use mathlib.Core.Path.{subst}
use xray_knife.Prelude.{
  ℕ, ◌≡◌, refl, ap, ◌∙◌, ◌⊎◌, inl, inr, true, false, List, [], ◌∷◌, ◌++◌, none, some, ltb, ◌==◌,
  length, arith, Bool-cases,
}
use xray_knife.Text.{Text}
use xray_knife.Hub.{Channel, member, put, offer, fan_out, send_capacity}
use xray_knife.Hub.Clients.{IsUnique, put_at, put_off, put_keeps, eqb_sound}

-- What the loop over the clients does to the channels, the message having missed `stale`.
pub record IsSent (message : Text) (cs : List ℕ) (channels sent : ℕ → Channel) (stale : List ℕ)
    : Type 0 where
  pub closed : (d : ℕ) → (sent d).closed ≡ (channels d).closed
  pub taken : (d : ℕ) → (sent d).taken ≡ (channels d).taken
  pub others : (d : ℕ) → member d cs ≡ false → (sent d).queue ≡ (channels d).queue
  pub missed : (d : ℕ) → member d cs ≡ false → member d stale ≡ false
  pub reached :
      (d : ℕ)
      → member d cs ≡ true
      → member d stale ≡ false
      → (sent d).queue ≡ (channels d).queue ++ message ∷ []

-- A channel that is open takes the message or is full.
offer_cases :
    (message : Text) (ch : Channel)
    → ch.closed ≡ false
    → (offer message ch ≡ some none)
      ⊎ (offer message ch ≡ some (some (record ch { queue = ch.queue ++ message ∷ [] })))
unfolding offer
offer_cases message ch o = elim (Bool-cases (ltb (length ch.queue) send_capacity)) [
  | inl e ↦ rw (offer, o, e) (inr refl)
  | inr e ↦ rw (offer, o, e) (inl refl)
]

pub fan_out-IsSent :
    (message : Text) (cs : List ℕ) (channels : ℕ → Channel)
    → IsUnique cs
    → ((d : ℕ) → member d cs ≡ true → (channels d).closed ≡ false)
    → (sent : ℕ → Channel) × (stale : List ℕ) × (fan_out message cs channels ≡ some (sent, stale))
      × IsSent message cs channels sent stale
unfolding fan_out member
fan_out-IsSent message [] channels u o = (
  channels,
  [],
  refl,
  record {
    closed = λ d. refl;
    taken = λ d. refl;
    others = λ d e. refl;
    missed = λ d e. refl;
    reached = λ d e. cc e;
  },
)
fan_out-IsSent message (c ∷ cs) channels u o =
    elim (offer_cases message (channels c) (o c (ground arith))) [
      | inl full ↦
          let (sent, stale, e, s) =
            fan_out-IsSent message cs channels u.1 (λ d i. o d (ground arith)) in
          (
            sent,
            c ∷ stale,
            rw (fan_out, full, e) refl,
            record {
              closed = s.closed;
              taken = s.taken;
              others = λ d i. s.others d (ground arith);
              missed = λ d i. ground (arith, s.missed d);
              reached = λ d i m. s.reached d (ground arith) (ground arith);
            },
          )
      | inr room ↦
          let fed =
            put c (record (channels c) { queue = (channels c).queue ++ message ∷ [] }) channels in
          let (sent, stale, e, s) =
            fan_out-IsSent message cs fed u.1
              (λ d i. put_keeps (λ x. x.closed) c _ channels refl d ∙ o d (ground arith)) in
          (
            sent,
            stale,
            rw (fan_out, room) e,
            record {
              closed = λ d. s.closed d ∙ put_keeps (λ x. x.closed) c _ channels refl d;
              taken = λ d. s.taken d ∙ put_keeps (λ x. x.taken) c _ channels refl d;
              others = λ d i.
                  s.others d (ground arith)
                  ∙ ap (λ x. x.queue) (put_off c _ channels d (ground arith));
              missed = λ d i. s.missed d (ground arith);
              reached = λ d i m. elim (Bool-cases (c == d)) [
                | inl q ↦
                    let same = eqb_sound c d q in
                    s.others d (subst (λ x. member x cs ≡ false) same u.0)
                    ∙ ap (λ x. x.queue) (put_at c _ channels d (ground arith))
                    ∙ ap (λ x. (channels x).queue ++ message ∷ []) same
                | inr q ↦
                    s.reached d (ground arith) m
                    ∙ ap (λ x. x.queue ++ message ∷ []) (put_off c _ channels d (ground arith))
              ];
            },
          )
    ]
