-- ===== src/Coordinator/Sample.antt =====
-- A coordinator with a client, at work on the concrete guest.
use proxmox_dns_firewall_loc.Config.{File, missing}
use proxmox_dns_firewall_loc.Prelude.{true, List, [], ◌∷◌, Option, some, refl, pos}
use proxmox_dns_firewall_loc.Text.{Text, codes}
use proxmox_dns_firewall_loc.Config.{Settings, File, missing}
use proxmox_dns_firewall_loc.Proxmox.Rules.{Rule, allow_rule, ip_family_four, bootstrap_rule}
use proxmox_dns_firewall_loc.Proxmox.Client.{no_cache, client_run}
use proxmox_dns_firewall_loc.Proxmox.Sample.{server, client, guest, pve}
use proxmox_dns_firewall_loc.Coordinator.State.{Coordinator}
use proxmox_dns_firewall_loc.Coordinator.Firewall.Steps.{Ready}
use proxmox_dns_firewall_loc.Coordinator.Refresh.{blank_view}

abbrev pub settings : Settings
settings = record {
  pve_host = codes "https://10.0.0.1:8006";
  pve_node = codes "pve";
  pve_vmid = pos 101;
  guest_type = codes "lxc";
  token_id = codes "dns@pve!lockdown";
  token_secret = codes "secret";
  insecure_tls = true;
  config_path = codes "/etc/pve-dns-lockdown/config.json";
  service_ipv4 = [];
}

abbrev pub name : Text
name = codes "deb.example"

abbrev pub rules : List Rule
rules =
    (allow_rule name (codes "192.0.2.1") ip_family_four).rule
    ∷ (allow_rule (codes "other.example") (codes "192.0.2.1") ip_family_four).rule
    ∷ (bootstrap_rule (codes "udp") (codes "10.0.0.53")).rule
    ∷ []

abbrev pub coordinator : Coordinator server
coordinator = record {
  settings = settings;
  px = some client;
  world = record {
    clock = 0;
    rules = rules;
    description =
        codes
          "PROXMOX_DNS_LOCKDOWN_BEGIN\ndeb.example\n# other.example\nPROXMOX_DNS_LOCKDOWN_END\n";
  };
  rule_sync = no_cache;
  seen = codes "seen.example" ∷ [];
  rejected_resolve_ips = (codes "other.example", codes "192.0.2.9" ∷ []) ∷ [];
  revision = 7;
  last_desc = [];
  last_config_digest = [];
  last_merged_allow_text = codes "deb.example\n# other.example";
  snap = blank_view settings;
  fw_activity = [];
}

pub coordinator-Ready : Ready server client guest pve coordinator
unfolding client_run
coordinator-Ready = record { on = refl; coherent = λ rules e. cc }

-- a url.Parse that takes every text, and finds no host in it
abbrev pub host_of : Text → Option Text
host_of t = some []

abbrev pub disk : Text → File
disk path = missing

abbrev pub resolver : Text
resolver = codes "10.0.0.53"

abbrev pub patch : Settings
patch = record settings {
  pve_host = codes " https://10.0.0.2:8006/";
  token_secret = codes " ";
  pve_vmid = pos 0;
  guest_type = codes "vm";
}
