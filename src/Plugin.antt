-- ===== src/Plugin.antt =====
-- plugin/pve-dns-lockdown/lockdown.go: the writer that stands between the resolver's chain and the
-- client. The rest of the plugin is the interface of CoreDNS.
pub mod Transparent
mod Tests
use proxmox_dns_firewall_loc.Prelude.{Bool, true, false, List, [], ◌∷◌, Option, none, some}
use proxmox_dns_firewall_loc.Text.{Text}
use proxmox_dns_firewall_loc.Proxmox.Api.{Server}
use proxmox_dns_firewall_loc.Coordinator.State.{Coordinator}
use proxmox_dns_firewall_loc.Coordinator.Dns.{Message, apply_dns, dns_run}

-- dns.Msg as a request: the names of its questions
abbrev pub Query : Type 0
Query = List Text

-- `Msg` is the response as it goes out, of which ApplyDNS reads what `seen` gives. `write` is the
-- ResponseWriter that is wrapped, over a state of its own; it returns whether it has failed.
module _ (srv : Server) (Msg Wire : Type 0) (seen : Msg → Message)
    (write : Option Msg → Wire → Bool × Wire) where
  pub record Site : Type 0 where
    pub wire : Wire
    -- coordinator.Default
    pub default : Option (Coordinator srv)
    -- whether warnNilCoordinator has been done
    pub warned : Bool

  abbrev pub seen_message : Option Msg → Option Message
  seen_message none = none
  seen_message (some m) = some (seen m)

  abbrev pub note_answer : Text → Option Msg → Option (Coordinator srv) → Site → Site
  note_answer qname m none site = record site { warned = true }
  note_answer qname m (some c) site = record site {
    default = some (apply_dns srv qname (seen_message m) c);
  }

  abbrev pub note_response : Option Query → Option Msg → Site → Site
  note_response (some (qname ∷ questions)) m site = note_answer qname m site.default site
  note_response _ m site = site

  -- respWrap.WriteMsg
  unfoldable pub write_msg : Option Query → Option Msg → Site → Bool × Site
  write_msg req m site =
      let site' = note_response req m site in
      let (failed, wire) = write m site'.wire in (failed, record site' { wire = wire })

-- Opens every operation of this file, for evaluation.
unfoldable pub plugin_run : Unit {0}
unfolding dns_run write_msg
plugin_run = tt
