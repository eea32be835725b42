-- ===== src/Lib.antt =====
-- A DNS server that keeps the outbound firewall of a Proxmox guest in line with the names that the
-- guest may look up: a model of its core, and the theorems that make it correct.
--
-- The program has an allow list, kept as a block of lines in the guest's description; a client of
-- the Proxmox API; a coordinator that reads the list (Refresh), lets the operator edit it
-- (SaveMergedList) and the settings (UpdateSettings), and turns the answers of the DNS server into
-- firewall rules (ApplyDNS); a page whose requests call the coordinator; and a plugin that shows it
-- each response of the resolver.
--
-- Text, Ip: strings.TrimSpace, strings.Split, sort.Strings, net.ParseIP, IP.String and the like of
-- Go's library, as far as the code uses them. A string is the list of its code points; case is
-- folded on ASCII only. An address is the list of its eight groups.
--
-- Allowlist: internal/allowlist/allowlist.go, one function per function of the source. A
-- map[string]struct{} is the list of its keys, each once.
--
-- Proxmox: internal/proxmox/client.go. Proxmox.Api has what passes to and from the API, which is a
-- parameter (Server: an exchange of one request, and the clock); Proxmox.Row the reading of decoded
-- JSON; Proxmox.Resolve ResolveGuestByVMID; Proxmox.Rules the tags of rules and the tests on them;
-- Proxmox.Client the calls and RuleSyncCache; Proxmox.Display the texts for the page;
-- Proxmox.Reconcile SyncOutboundAllow, RemoveDynamicRules, PruneStaleOutboundAllowsForFQDN,
-- RemoveAllManagedEgressForFQDN and EnsureBootstrapDNS. What the client relies on of the API is the
-- record Pve of Proxmox.Reconcile.Model: the rules that a listing gives are numbered from 0, a
-- deletion takes the rule at its position, a new rule stands in front, requests that fail change
-- nothing, and no one else writes rules meanwhile. Proxmox.Sample is a concrete API of which this
-- is proved, and on which the tests and examples run.
--
-- Config: internal/config/config.go. A path holds nothing, something unreadable, bytes that are no
-- settings, or settings; JSON is modelled from the decoded value on.
--
-- Coordinator: internal/coordinator/coordinator.go. State has the record and the log of activity,
-- Changes the comparison of two lists, Refresh, Dns, Save, Configure and Update the calls, Firewall
-- the loop bodies that they share, Start the function New, Stream the subscribers of the event
-- stream with the writes of their handler, and History any sequence of calls, with an abstract
-- firewall that such a sequence is compared to. The calls of a sequence run one after the other.
-- url.Parse is a parameter, the host that it finds in a text.
--
-- Http: internal/httpserver. Http has requests, replies and the functions on texts, Http.Static
-- static.go, Http.Handlers the handlers and the routes. A request comes with its decoded form, a
-- reply holds the values that are encoded; what errors print as is a parameter (ErrorTexts), since
-- these texts hold the paths of requests and the texts of other packages. Of the event stream Http
-- has the set of channels and the first write, Stream what goes through the channels.
--
-- Netdetect: internal/netdetect/netdetect.go, over the list of the host's network cards.
--
-- Plugin: plugin/pve-dns-lockdown/lockdown.go, the method WriteMsg. The writer that it wraps is a
-- parameter with a state of its own.
--
-- Fuel: only ensure_bootstrap_dns takes fuel, one unit for each round of the recursion of
-- EnsureBootstrapDNS, which has no bound of its own; the calls that bootstrap hand it on, and
-- UpdateSettings has an outcome of its own (unfinished) for fuel that is spent. One unit is enough
-- where no bootstrap rule points to another address. Digits and the like are read by recursion on
-- the text, and `decimal` on fuel that exceeds its number. Positions and lengths are natural
-- numbers; the revision of a view wraps at 2 ^ 64, and the VMID is an integer.
--
-- Not modelled: the text of the page and the embedded files; the set-up of the plugin and the rest
-- of the plugin interface of CoreDNS; the start of the two servers in main; the log on standard
-- error; the building of URLs and headers; the texts of the client's errors, which are constructors
-- here, and the format of times. A call of the coordinator is one step: what other goroutines do
-- between its locks and its requests is left out. The pings of the event stream are left out, since
-- they carry nothing.
mod Prelude
pub mod Text
pub mod Allowlist
pub mod Ip
pub mod Proxmox
pub mod Config
pub mod Coordinator
pub mod Http
pub mod Netdetect
pub mod Plugin
