-- ===== src/Startup.antt =====
-- pkg/proxy/service.go, New: the checks and defaults of a proxy service before it runs, and what it
-- does to the settings of the operating system. The error of a port that is no number is named by
-- its first words only.
pub mod Left
pub mod Started
use xray_knife.Prelude.{
  ℕ, ◌+◌, ◌*◌, ◌-◌, ◌^◌, Bool, true, false, ◌||◌, ◌&&◌, not, List, [], ◌∷◌, ◌++◌, Option, none,
  some, if◌then◌else◌, ltb, leb, ◌==◌, all, length,
}
use xray_knife.Text.{Text, bytes, eq_text, is_empty}
use xray_knife.Core.{Fallible, ok, err, ◌>>=◌, GeneralConfig, Engine, xray, singbox}
use xray_knife.Pool.{deduplicate_links}

-- The fields of the configuration that New reads or sets.
pub record ProxyConfig : Type 0 where
  pub core_type : Text
  pub inbound_protocol : Text
  pub listen_addr : Text
  pub listen_port : Text
  pub inbound_config_link : Text
  pub mode : Text
  pub rotation_interval : ℕ
  pub maximum_allowed_delay : ℕ
  pub shell : Bool
  pub namespace_name : Text
  pub bind_interface : Text
  pub host_tun_deadman : ℕ
  pub config_links : List Text

-- What is done to the machine. The state file is what crash recovery reads; `proxy_touched` is a
-- setting of the proxy that failed, after some of its writes or before the first.
pub data SystemEvent : Type 0 where
  proxy_restored state_cleared state_saved namespace_recovered : SystemEvent
  proxy_set proxy_touched : Text → Text → SystemEvent

-- The answers of the machine. `has_stale_state` is whether LoadState reads a state, `can_clear`
-- whether ClearState removes its file, whose error New passes over; a save that fails leaves no
-- state that can be read.
pub record Machine (P : Type 0) : Type 0 where
  pub is_linux : Bool
  pub is_root : Bool
  pub stdin_is_tty : Bool
  pub has_stale_state : Bool
  pub can_clear : Bool
  pub has_proxy_manager : Bool
  pub configs_for_proxy : Fallible (List Text)
  pub create_inbound : Engine → ProxyConfig → Fallible P
  pub general : P → GeneralConfig
  pub set_inbound : P → Fallible (Unit {0})
  pub new_manager : Fallible (Unit {0})
  pub get_proxy : Fallible (Unit {0})
  pub save_state : Fallible (Unit {0})
  pub set_proxy : Text → Text → Fallible (Unit {0})

abbrev digit_value : ℕ → ℕ
digit_value c = c - b'0'

value_from : ℕ → Text → ℕ
value_from n [] = n
value_from n (c ∷ s) = value_from (10 * n + digit_value c) s

-- Whether strconv.ParseUint reads the text as 16 bits.
unfoldable pub is_port : Text → Bool
unfolding value_from
is_port s =
    not (is_empty s) && all (λ c. leb b'0' c && leb c b'9') s && ltb (value_from 0 s) (2 ^ 16)

unfoldable pub check_port : ProxyConfig → Fallible (Unit {0})
unfolding is_port
check_port c =
    if is_empty c.listen_port
    then err (bytes "listen port is required")
    else if is_port c.listen_port
    then ok tt
    else err (bytes "invalid listen port")

abbrev pub min_rotation_interval : ℕ
min_rotation_interval = 5

abbrev pub default_max_delay_ms : ℕ
default_max_delay_ms = 5000

unfoldable pub clamp : ProxyConfig → ProxyConfig
clamp c = record c {
  rotation_interval =
      if ltb c.rotation_interval min_rotation_interval
      then min_rotation_interval
      else c.rotation_interval;
  maximum_allowed_delay =
      if c.maximum_allowed_delay == 0 then default_max_delay_ms else c.maximum_allowed_delay;
}

abbrev pub is_mode : Text → ProxyConfig → Bool
is_mode name c = eq_text c.mode name

abbrev prefixed {ℓ} : {A : Type ℓ} → Text → Fallible A → Fallible A
prefixed prefix (ok a) = ok a
prefixed prefix (err e) = err (prefix ++ e)

module _ {P : Type 0} (m : Machine P) where
  unfoldable pub app_mode : ProxyConfig → Fallible ProxyConfig
  app_mode c =
      if not (is_mode (bytes "app") c)
      then ok c
      else if not m.is_linux
      then err (bytes "app mode is only supported on Linux")
      else if not m.is_root
      then err (bytes "app mode requires root privileges. Run with sudo")
      else ok (record c {
        shell = c.shell || is_empty c.namespace_name;
        listen_addr = bytes "0.0.0.0";
        inbound_protocol = bytes "socks";
        inbound_config_link = [];
      })

  unfoldable pub host_tun_mode : ProxyConfig → Fallible ProxyConfig
  host_tun_mode c =
      if not (is_mode (bytes "host-tun") c)
      then ok c
      else if not m.is_linux
      then err (bytes "host-tun mode is only supported on Linux")
      else if not m.is_root
      then err (bytes "host-tun mode requires root privileges. Run with sudo")
      else if is_empty c.bind_interface
      then err (bytes "host-tun mode requires BindInterface (CLI: --bind <iface>)")
      else if ltb 0 c.host_tun_deadman && not m.stdin_is_tty
      then err (
          bytes
            "host-tun deadman > 0 requires an interactive terminal on stdin; for unattended use pass --host-tun-deadman 0 and run under tmux/setsid/systemd")
      else ok (record c {
        listen_addr = bytes "127.0.0.1";
        inbound_protocol = bytes "socks";
        inbound_config_link = [];
      })

  abbrev pub clear_state : List SystemEvent
  clear_state = if m.can_clear then state_cleared ∷ [] else []

  -- Crash recovery of the system proxy, and of the namespace in app mode.
  abbrev pub recover_proxy : List SystemEvent
  recover_proxy =
      if m.has_stale_state
      then (if m.has_proxy_manager then proxy_restored ∷ clear_state else clear_state)
      else []

  abbrev pub recover_namespace : ProxyConfig → List SystemEvent
  recover_namespace c = if is_mode (bytes "app") c then namespace_recovered ∷ [] else []

  unfoldable pub links_for : ProxyConfig → Fallible (List Text)
  links_for c =
      if not (length c.config_links == 0) then ok c.config_links else elim m.configs_for_proxy [
        | err e ↦ err (bytes "could not fetch configs from database: " ++ e)
        | ok links ↦
            if length links == 0
            then err (
                bytes
                  "no configs in database. Run 'xray-knife subs fetch --all' to populate, or pass --config / --file / --stdin")
            else ok links
      ]

  unfoldable pub core_for : ProxyConfig → Fallible Engine
  core_for c =
      if eq_text c.core_type (bytes "xray")
      then ok xray
      else if eq_text c.core_type (bytes "sing-box")
      then ok singbox
      else err (bytes "allowed core types: (xray, sing-box), got: " ++ c.core_type)

  -- The address of a custom inbound takes the place of the flags.
  unfoldable pub reconcile : P → ProxyConfig → ProxyConfig
  reconcile inbound c =
      let g = m.general inbound in
      if is_empty c.inbound_config_link then c else record c {
        listen_addr = if is_empty g.address then c.listen_addr else g.address;
        listen_port = if is_empty g.port then c.listen_port else g.port;
      }

  -- What New builds: the service's own configuration, its core and its inbound.
  unfoldable pub build_service : ProxyConfig → Fallible (ProxyConfig × (Engine × P))
  unfolding links_for core_for reconcile
  build_service c = do
    links ← links_for c
    core ← core_for c
    let pooled = record c { config_links = (deduplicate_links links).0 }
    inbound ← prefixed (bytes "failed to create inbound: ") (m.create_inbound core pooled)
    _ ← prefixed (bytes "failed to set inbound: ") (m.set_inbound inbound)
    ok (reconcile inbound pooled, (core, inbound))

  -- The system mode, on the configuration as it was before the inbound was reconciled.
  unfoldable pub system_mode : ProxyConfig → List SystemEvent × Fallible (Unit {0})
  system_mode c = if not (is_mode (bytes "system") c) then ([], ok tt) else elim m.new_manager [
    | err e ↦ ([], err (bytes "failed to create system proxy manager: " ++ e))
    | ok _ ↦ elim m.get_proxy [
      | err e ↦ ([], err (bytes "failed to read current system proxy settings: " ++ e))
      | ok _ ↦ elim m.save_state [
        | err e ↦ ([], err (bytes "failed to save system proxy state for crash recovery: " ++ e))
        | ok _ ↦ elim (m.set_proxy c.listen_addr c.listen_port) [
          | err e ↦ (
            state_saved ∷ proxy_touched c.listen_addr c.listen_port ∷ clear_state,
            err (bytes "failed to set system proxy: " ++ e),
          )
          | ok _ ↦ (state_saved ∷ proxy_set c.listen_addr c.listen_port ∷ [], ok tt)
        ]
      ]
    ]
  ]

  -- The end of New, with what was done before it.
  unfoldable pub finish_service :
      List SystemEvent → ProxyConfig → List SystemEvent × Fallible (ProxyConfig × (Engine × P))
  unfolding build_service system_mode
  finish_service done c = elim (build_service c) [
    | err e ↦ (done, err e)
    | ok s ↦ let w = system_mode c in (done ++ w.0, w.1 >>= λ _. ok s)
  ]

  unfoldable pub new_service :
      ProxyConfig → List SystemEvent × Fallible (ProxyConfig × (Engine × P))
  unfolding check_port clamp app_mode host_tun_mode finish_service
  new_service c = elim (check_port c) [
    | err e ↦ ([], err e)
    | ok _ ↦ elim (app_mode (clamp c)) [
      | err e ↦ ([], err e)
      | ok ready ↦ elim (host_tun_mode ready) [
        | err e ↦ (recover_proxy, err e)
        | ok set ↦ finish_service (recover_proxy ++ recover_namespace set) set
      ]
    ]
  ]
