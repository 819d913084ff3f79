-- ===== src/Tests/Startups.antt =====
-- Tests of the start of a proxy service.
use xray_knife.Prelude.{◌≡◌, refl, true, false, [], ◌∷◌}
use xray_knife.Text.{Text, bytes, eq_text, is_empty}
use xray_knife.Core.{ok, err}
use xray_knife.Startup.{
  ProxyConfig, Machine, is_port, check_port, clamp, app_mode, host_tun_mode, links_for, core_for,
  reconcile, build_service, system_mode, finish_service, new_service,
}
use xray_knife.Startup.Left.{kept, pointed, points_to}

startups_code : Unit {0}
unfolding eq_text is_empty is_port check_port clamp app_mode host_tun_mode links_for core_for
    reconcile build_service system_mode finish_service new_service
startups_code = tt

-- A link as a protocol: its inbound listens on port 9000.
abbrev machine : Machine Text
machine = record {
  is_linux = true;
  is_root = false;
  stdin_is_tty = false;
  has_stale_state = true;
  can_clear = true;
  has_proxy_manager = true;
  configs_for_proxy = err (bytes "no database");
  create_inbound = λ core c. ok c.inbound_config_link;
  general = λ link. record {
    protocol = bytes "socks";
    address = bytes "127.0.0.1";
    network = [];
    port = bytes "9000";
    remark = [];
    tls = [];
    kind = [];
    orig_link = link;
  };
  set_inbound = λ link. ok tt;
  new_manager = ok tt;
  get_proxy = ok tt;
  save_state = ok tt;
  set_proxy = λ addr port. ok tt;
}

abbrev own_inbound : ProxyConfig
own_inbound = record {
  core_type = bytes "xray";
  inbound_protocol = bytes "socks";
  listen_addr = bytes "127.0.0.1";
  listen_port = bytes "10808";
  inbound_config_link = bytes "socks://127.0.0.1:9000";
  mode = bytes "system";
  rotation_interval = 0;
  maximum_allowed_delay = 0;
  shell = false;
  namespace_name = [];
  bind_interface = [];
  host_tun_deadman = 0;
  config_links = bytes "vmess://a" ∷ [];
}

-- The proxy of the system points to the port of the flags, and the service listens on another.
other_port :
    points_to kept (new_service machine own_inbound).0 ≡ pointed (bytes "127.0.0.1") (bytes "10808")
unfolding startups_code
other_port = refl
