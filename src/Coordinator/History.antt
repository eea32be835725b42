-- ===== src/Coordinator/History.antt =====
-- Calls of the coordinator one after the other: the answers of the DNS server, the saves of the
-- page, and the two tickers of New. Each call ends before the next one begins.
pub mod Untagged
pub mod Firewall
pub mod Tests
use proxmox_dns_firewall_loc.Prelude.{ℕ, List, [], ◌∷◌, Option}
use proxmox_dns_firewall_loc.Text.{Text}
use proxmox_dns_firewall_loc.Proxmox.Api.{Server}
use proxmox_dns_firewall_loc.Coordinator.State.{Coordinator}
use proxmox_dns_firewall_loc.Coordinator.Refresh.{refresh, refresh_run}
use proxmox_dns_firewall_loc.Coordinator.Dns.{Message, apply_dns, dns_run}
use proxmox_dns_firewall_loc.Coordinator.Save.{save_merged_list, save_run}
use proxmox_dns_firewall_loc.Coordinator.Configure.{run_bootstrap, configure_run}

pub data Call : Type 0 where
  answered : Text → Option Message → Call
  list_saved : Text → Call
  refreshed : Call
  bootstrapped : Call

-- `preferred` is the address of the host's network card, which stays the same meanwhile
module _ (srv : Server) (fuel : ℕ) (preferred : Text) where
  abbrev pub serve : Call → Coordinator srv → Coordinator srv
  serve (answered qname msg) c = apply_dns srv qname msg c
  serve (list_saved text) c = (save_merged_list srv text c).1
  serve refreshed c = refresh srv c
  serve bootstrapped c = (run_bootstrap srv fuel preferred c).1

  unfoldable pub serve_all : List Call → Coordinator srv → Coordinator srv
  serve_all [] c = c
  serve_all (k ∷ ks) c = serve_all ks (serve k c)

-- Opens every operation of this file, for evaluation.
unfoldable pub history_run : Unit {0}
unfolding dns_run save_run refresh_run configure_run serve_all
history_run = tt
