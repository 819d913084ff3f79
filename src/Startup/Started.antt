-- ===== src/Startup/Started.antt =====
-- What a service that New returns is, and what New leaves on the machine.
use xray_knife.Prelude.{◌≤◌, ◌<◌, ◌≡◌, ◌⊎◌, true, false, ◌||◌, List, [], if◌then◌else◌}
use xray_knife.Text.{Text, bytes, is_empty}
use xray_knife.Core.{Fallible, ok, err, Engine}
use xray_knife.Startup.{
  ProxyConfig, SystemEvent, Machine, is_port, check_port, clamp, is_mode, app_mode,
}
use xray_knife.Startup.Left.{IsGivenUp, IsPointed}

-- The listener, for the configuration `c` that was passed in: what its mode demands, or else what
-- the inbound link says and, where it says nothing, what the flags say.
abbrev pub Listens : {P : Type 0} → Machine P → ProxyConfig → P → ProxyConfig → Type 0
Listens m c inbound out =
    let g = m.general inbound in
    ((is_mode (bytes "app") c ≡ true)
      × (m.is_linux ≡ true)
      × (m.is_root ≡ true)
      × (out.listen_addr ≡ bytes "0.0.0.0")
      × (out.listen_port ≡ c.listen_port)
      × (out.inbound_protocol ≡ bytes "socks"))
    ⊎ (((is_mode (bytes "host-tun") c ≡ true)
          × (m.is_linux ≡ true)
          × (m.is_root ≡ true)
          × (is_empty c.bind_interface ≡ false)
          × (out.listen_addr ≡ bytes "127.0.0.1")
          × (out.listen_port ≡ c.listen_port)
          × (out.inbound_protocol ≡ bytes "socks"))
        ⊎ ((is_mode (bytes "app") c ≡ false)
            × (is_mode (bytes "host-tun") c ≡ false)
            × (out.listen_addr ≡ (
                if is_empty c.inbound_config_link || is_empty g.address
                then c.listen_addr
                else g.address))
            × (out.listen_port ≡ (
                if is_empty c.inbound_config_link || is_empty g.port
                then c.listen_port
                else g.port))
            × (out.inbound_protocol ≡ c.inbound_protocol)))

-- The fields that neither mode changes.
abbrev Same : ProxyConfig → ProxyConfig → Type 0
Same c d =
    (d.mode ≡ c.mode)
    × (d.listen_port ≡ c.listen_port)
    × (d.rotation_interval ≡ c.rotation_interval)
    × (d.maximum_allowed_delay ≡ c.maximum_allowed_delay)
    × (d.bind_interface ≡ c.bind_interface)

module _ {P : Type 0} (m : Machine P) where
  -- A mode that needs Linux and root, and sets the listener to `addr`.
  abbrev IsForced : Text → Text → ProxyConfig → ProxyConfig → Type 0
  IsForced name addr c d =
      (is_mode name c ≡ true)
      × (m.is_linux ≡ true)
      × (m.is_root ≡ true)
      × (d.listen_addr ≡ addr)
      × (d.inbound_protocol ≡ bytes "socks")
      × (is_empty d.inbound_config_link ≡ true)
      × Same c d

  -- The service that comes back, from the configuration that passed the modes.
  abbrev pub Serves : ProxyConfig → P → ProxyConfig → Type 0
  Serves c inbound out =
      (is_port c.listen_port ≡ true)
      × (5 ≤ out.rotation_interval)
      × (0 < out.maximum_allowed_delay)
      × Listens m c inbound out

  abbrev pub IsNew : ProxyConfig → List SystemEvent × Fallible (ProxyConfig × (Engine × P)) → Type 0
  IsNew c w =
      (((e : Text) × (w.1 ≡ err e)) × IsGivenUp m m.has_stale_state c w.0)
      ⊎ ((out : ProxyConfig) × (core : Engine) × (inbound : P) × (w.1 ≡ ok (out, (core, inbound)))
          × Serves c inbound out
          × IsPointed m m.has_stale_state c w.0)

  abbrev pub IsOutcome :
      ProxyConfig → List SystemEvent × Fallible (ProxyConfig × (Engine × P)) → Type 0
  IsOutcome c w =
      ((e : Text) × (w.1 ≡ err e)
        × ((check_port c ≡ err e) ⊎ (app_mode m (clamp c) ≡ err e))
        × (w.0 ≡ []))
      ⊎ IsNew c w
