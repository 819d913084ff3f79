-- ===== src/Hub/Runs.antt =====
-- Runs of the hub, and what its clients get in them.
use xray_knife.Prelude.{
  ℕ, ◌<◌, ◌≡◌, refl, ap, ◌∙◌, true, not, List, [], ◌∷◌, ◌++◌, Option, none, some, arith,
  append_assoc,
}
use xray_knife.Text.{Text}
use xray_knife.Hub.{
  Hub, HubEvent, new_hub, member, dispatch, receive, hub_step, run_hub, connect, deliver, leave,
  read, emit, log,
}
use xray_knife.Hub.Clients.{IsSound, unregister-HasLeft}
use xray_knife.Hub.Steps.{
  history, delivered, IsStep, HasLeft-IsStep, same-IsStep, dispatch_first-IsStep, register-IsStep,
  receive_first-IsStep, post-IsStep, write-IsStep,
}

hub_step-IsStep :
    (marshal : Text → Option Text) (e : HubEvent) (h : Hub)
    → IsSound h
    → (g : Hub) × (hub_step marshal e h ≡ some g) × IsStep (delivered e h) h g
unfolding hub_step dispatch receive delivered
hub_step-IsStep marshal connect h s = (_, refl, register-IsStep h s)
hub_step-IsStep marshal deliver h s = dispatch_first-IsStep h.broadcast h s
hub_step-IsStep marshal (leave c) h s =
    let (g, e, l) = unregister-HasLeft c h s in (g, e, HasLeft-IsStep (c ∷ []) h g l)
hub_step-IsStep marshal (read c) h s =
    (_, refl, receive_first-IsStep (h.channels c).queue c h refl s)
hub_step-IsStep marshal (emit message) h s = (_, refl, post-IsStep message h s)
hub_step-IsStep marshal (log p) h s = (_, refl, write-IsStep marshal p h s)

-- The messages that the loop delivers in a run.
pub delivered_in : (Text → Option Text) → List HubEvent → Hub → List Text
delivered_in marshal [] h = []
delivered_in marshal (e ∷ es) h =
    delivered e h ++ elim (hub_step marshal e h) [ none ↦ [] | some g ↦ delivered_in marshal es g ]

IsStep-join : (a b : List Text) (h m g : Hub) → IsStep a h m → IsStep b m g → IsStep (a ++ b) h g
IsStep-join a b h m g p q = record {
  sound = q.sound;
  grows = omega (arith, p.grows, q.grows);
  stays = λ c i r. p.stays c i (q.stays c (omega (arith, p.grows, i)) r);
  keeps = λ c i r.
      let j : c < m.next = omega (arith, p.grows, i) in
      q.keeps c j r
      ∙ ap (λ x. x ++ b) (p.keeps c i (q.stays c j r))
      ∙ append_assoc (history h c) a b;
}

run_hub-IsStep :
    (marshal : Text → Option Text) (es : List HubEvent) (h : Hub)
    → IsSound h
    → (g : Hub) × (run_hub marshal es h ≡ some g) × IsStep (delivered_in marshal es h) h g
unfolding run_hub delivered_in
run_hub-IsStep marshal [] h s = (h, refl, same-IsStep h h s refl refl (λ c. refl) (λ c. refl))
run_hub-IsStep marshal (e ∷ es) h s =
    let (m, f, p) = hub_step-IsStep marshal e h s in
    let (g, k, q) = run_hub-IsStep marshal es m p.sound in
    (
      g,
      rw (run_hub, f) k,
      rw (delivered_in, f) (IsStep-join (delivered e h) (delivered_in marshal es m) h m g p q),
    )

new_hub-IsSound : IsSound new_hub
unfolding new_hub member
new_hub-IsSound = record {
  unique = tt;
  known = λ c m. cc m;
  closing = λ c i. absurd (omega (arith, i));
}

-- Whatever clients connect and leave, whatever is posted, logged, delivered and read, and in
-- whatever order: the loop does not panic, so no channel is closed twice and none is sent on once
-- it is closed; and at the end the channel of a client is closed exactly when the client is no
-- longer registered.
pub run_hub_safe :
    (marshal : Text → Option Text) (es : List HubEvent)
    → (h : Hub) × (run_hub marshal es new_hub ≡ some h)
      × ((c : ℕ) → c < h.next → (h.channels c).closed ≡ not (member c h.clients))
run_hub_safe marshal es =
    let (h, e, s) = run_hub-IsStep marshal es new_hub new_hub-IsSound in
    let sound = s.sound in (h, e, sound.closing)

-- A client that is registered after some events, and still is after some more, was not replaced in
-- between: what it has read with what waits in its channel is what it had, followed by every message
-- that the loop delivered since, in order.
pub run_hub_delivers :
    (marshal : Text → Option Text) (before after : List HubEvent)
    → (h : Hub) × (g : Hub) × (run_hub marshal before new_hub ≡ some h)
      × (run_hub marshal after h ≡ some g)
      × ((c : ℕ)
          → c < h.next
          → member c g.clients ≡ true
          → (member c h.clients ≡ true)
            × (history g c ≡ history h c ++ delivered_in marshal after h))
run_hub_delivers marshal before after =
    let (h, e, s) = run_hub-IsStep marshal before new_hub new_hub-IsSound in
    let (g, f, t) = run_hub-IsStep marshal after h s.sound in
    (h, g, e, f, λ c i m. (t.stays c i m, t.keeps c i m))
