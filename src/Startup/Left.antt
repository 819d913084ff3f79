-- ===== src/Startup/Left.antt =====
-- What New leaves on the machine: the state file of crash recovery and the proxy of the system.
use xray_knife.Prelude.{
  ◌≡◌, refl, ◌∙◌, ◌⊎◌, inl, inr, Bool, true, false, List, [], ◌∷◌, ◌++◌, if◌then◌else◌, arith,
  Bool-cases,
}
use xray_knife.Text.{Text, bytes}
use xray_knife.Core.{ok, err, Fallible-cases}
use xray_knife.Startup.{
  ProxyConfig, SystemEvent, state_cleared, state_saved, proxy_set, proxy_touched, Machine, is_mode,
  recover_proxy, clear_state, recover_namespace, system_mode,
}

-- How the proxy of the system is left: as recovery left it, set, or set in part at most.
pub data ProxyLeft : Type 0 where
  kept : ProxyLeft
  pointed partly : Text → Text → ProxyLeft

-- Whether the state file of crash recovery is there in the end, and where the proxy points to.
abbrev pub state_left : Bool → List SystemEvent → Bool
state_left b [] = b
state_left b (state_saved ∷ es) = state_left true es
state_left b (state_cleared ∷ es) = state_left false es
state_left b (_ ∷ es) = state_left b es

abbrev pub points_to : ProxyLeft → List SystemEvent → ProxyLeft
points_to o [] = o
points_to o (proxy_set addr port ∷ es) = points_to (pointed addr port) es
points_to o (proxy_touched addr port ∷ es) = points_to (partly addr port) es
points_to o (_ ∷ es) = points_to o es

pub moved :
    {A B : Type 0} {x y z v : ProxyLeft}
    → x ≡ y
    → (y ≡ z) ⊎ (A × B × (y ≡ v))
    → (x ≡ z) ⊎ (A × B × (x ≡ v))
moved k (inl e) = inl (k ∙ e)
moved k (inr (a, b, e)) = inr (a, b, k ∙ e)

module _ {P : Type 0} (m : Machine P) where
  -- Where New leaves the system after recovery, from a state file that is there or not: without the
  -- file, and the proxy as it was or, where setting it failed, set in part at most; or, in system
  -- mode, with the proxy set and the file.
  abbrev pub IsGivenUp : Bool → ProxyConfig → List SystemEvent → Type 0
  IsGivenUp b c events =
      (state_left b events ≡ false)
      × ((points_to kept events ≡ kept)
          ⊎ ((is_mode (bytes "system") c ≡ true)
              × ((e : Text) × (m.set_proxy c.listen_addr c.listen_port ≡ err e))
              × (points_to kept events ≡ partly c.listen_addr c.listen_port)))

  abbrev pub IsPointed : Bool → ProxyConfig → List SystemEvent → Type 0
  IsPointed b c events =
      (state_left b events ≡ is_mode (bytes "system") c)
      × (points_to kept events
          ≡ (if is_mode (bytes "system") c then pointed c.listen_addr c.listen_port else kept))

module _ {P : Type 0} (m : Machine P) (clears : m.can_clear ≡ true) where
  unset_state :
      (addr port : Text)
      → let events = state_saved ∷ proxy_touched addr port ∷ clear_state m in
        (state_left false events ≡ false) × (points_to kept events ≡ partly addr port)
  unset_state addr port = ground arith

  pub system_mode-left :
      (c : ProxyConfig)
      → (((e : Text) × ((system_mode m c).1 ≡ err e)) × IsGivenUp m false c (system_mode m c).0)
        ⊎ (((system_mode m c).1 ≡ ok tt) × IsPointed m false c (system_mode m c).0)
  unfolding system_mode
  system_mode-left c = elim (Bool-cases (is_mode (bytes "system") c)) [
    | inr n ↦ inr (rw (system_mode, n) (refl, (refl, refl)))
    | inl y ↦ elim (Fallible-cases m.new_manager) [
      | inr (e, a) ↦ inl (rw (system_mode, y, a) ((_, refl), (refl, inl refl)))
      | inl (u, a) ↦ elim (Fallible-cases m.get_proxy) [
        | inr (e, b) ↦ inl (rw (system_mode, y, a, b) ((_, refl), (refl, inl refl)))
        | inl (v, b) ↦ elim (Fallible-cases m.save_state) [
          | inr (e, d) ↦ inl (rw (system_mode, y, a, b, d) ((_, refl), (refl, inl refl)))
          | inl (w, d) ↦ elim (Fallible-cases (m.set_proxy c.listen_addr c.listen_port)) [
            | inr (e, f) ↦ inl (
                rw (system_mode, y, a, b, d, f)
                  (
                    (_, refl),
                    (
                      (unset_state c.listen_addr c.listen_port).0,
                      inr (refl, (e, refl), (unset_state c.listen_addr c.listen_port).1),
                    ),
                  ))
            | inl (x, f) ↦ inr (rw (system_mode, y, a, b, d, f) (refl, (refl, refl)))
          ]
        ]
      ]
    ]
  ]

  pub done_before :
      (c : ProxyConfig) (events : List SystemEvent)
      → let all = (recover_proxy m ++ recover_namespace m c) ++ events in
        (state_left m.has_stale_state all ≡ state_left false events)
        × (points_to kept all ≡ points_to kept events)
  done_before c events = ground arith

  pub recovered :
      (state_left m.has_stale_state (recover_proxy m) ≡ false)
      × (points_to kept (recover_proxy m) ≡ kept)
  recovered = ground arith

  pub append_nothing :
      (c s : ProxyConfig)
      → state_left m.has_stale_state (recover_proxy m ++ recover_namespace m s) ≡ false
  append_nothing c s = ground arith

  pub append_kept :
      (c s : ProxyConfig) → points_to kept (recover_proxy m ++ recover_namespace m s) ≡ kept
  append_kept c s = ground arith
