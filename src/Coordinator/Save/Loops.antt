-- ===== src/Coordinator/Save/Loops.antt =====
-- The loops of a save, seen from the rules that they are not about.
use proxmox_dns_firewall_loc.Prelude.{Bool, true, false, List, [], ◌∷◌, All}
use proxmox_dns_firewall_loc.Text.{Text, codes, contains}
use proxmox_dns_firewall_loc.Proxmox.Api.{Guest, Client, Server}
use proxmox_dns_firewall_loc.Proxmox.Rules.{Rule}
use proxmox_dns_firewall_loc.Proxmox.Reconcile.Model.{Pve}
use proxmox_dns_firewall_loc.Coordinator.State.{Addresses, addresses_of, delete_addresses}
use proxmox_dns_firewall_loc.Coordinator.Firewall.{Logged, sync_address, remove_name}
use proxmox_dns_firewall_loc.Coordinator.Firewall.Foreign.{Apart}
use proxmox_dns_firewall_loc.Coordinator.Firewall.Steps.{
  Ready, Spared, Spared-same, Spared-then, Spared-lists, sync_address-Spared, remove_name-Spared,
}
use proxmox_dns_firewall_loc.Coordinator.Save.{
  with_job, take_jobs, forget_name, save_removed, deny_name, deny_if, save_denied, sync_addresses,
  run_jobs,
}

-- no rule that passes the test is about one of the names, or the name of one of the jobs
abbrev pub Aparts : (Rule → Bool) → List Text → Type 0
Aparts p fs = All (Apart p) fs

abbrev pub ApartJobs : (Rule → Bool) → List (Text × List Text) → Type 0
ApartJobs p jobs = All (λ j. Apart p j.0) jobs

module _ (srv : Server) (px : Client) (g : Guest) (pve : Pve srv px g) (p : Rule → Bool) where
  pub save_removed-Spared :
      (fs : List Text) (l : Logged srv px)
      → Aparts p fs
      → Ready srv px g pve l.1
      → Spared srv px g pve p l.1 (save_removed srv px fs l).1
  unfolding save_removed
  save_removed-Spared [] l n r = Spared-same srv px g pve p l.1 r
  save_removed-Spared (f ∷ fs) l n r =
      let (gone, (rows, c)) = remove_name srv px f (codes "remove prune: ") l in
      let one : Spared srv px g pve p l.1 c =
        remove_name-Spared srv px g pve p f (codes "remove prune: ") l.0 l.1 n.0 r in
      let c' = forget_name srv px f c in
      let two : Spared srv px g pve p c c' =
        Spared-lists srv px g pve p c c'.seen c'.rejected_resolve_ips c.last_desc
          c.last_merged_allow_text one.ready in
      let rest = save_removed-Spared fs (rows, c') n.1 two.ready in
      Spared-then srv px g pve p l.1 c (save_removed srv px fs (rows, c')).1 one
        (Spared-then srv px g pve p c c' (save_removed srv px fs (rows, c')).1 two rest)

  deny_if-Spared :
      (b : Bool) (f : Text) (l : Logged srv px)
      → Apart p f
      → Ready srv px g pve l.1
      → Spared srv px g pve p l.1 (deny_if srv px b f l).1
  deny_if-Spared false f l e r = Spared-same srv px g pve p l.1 r
  deny_if-Spared true f l e r =
      let (gone, (rows, c)) = remove_name srv px f (codes "disable prune: ") l in
      let one : Spared srv px g pve p l.1 c =
        remove_name-Spared srv px g pve p f (codes "disable prune: ") l.0 l.1 e r in
      let c' = (deny_name srv px f l).1 in
      Spared-then srv px g pve p l.1 c c' one (
        Spared-lists srv px g pve p c c'.seen c'.rejected_resolve_ips c.last_desc
          c.last_merged_allow_text one.ready)

  pub save_denied-Spared :
      (listed fs : List Text) (l : Logged srv px)
      → Aparts p fs
      → Ready srv px g pve l.1
      → Spared srv px g pve p l.1 (save_denied srv px listed fs l).1
  unfolding save_denied
  save_denied-Spared listed [] l n r = Spared-same srv px g pve p l.1 r
  save_denied-Spared listed (f ∷ fs) l n r =
      let l' = deny_if srv px (contains listed f) f l in
      let one = deny_if-Spared (contains listed f) f l n.0 r in
      Spared-then srv px g pve p l.1 l'.1 (save_denied srv px listed fs l').1 one
        (save_denied-Spared listed fs l' n.1 one.ready)

  sync_addresses-Spared :
      (f : Text) (ips : List Text) (l : Logged srv px)
      → Apart p f
      → Ready srv px g pve l.1
      → Spared srv px g pve p l.1 (sync_addresses srv px f ips l).1
  unfolding sync_addresses
  sync_addresses-Spared f [] l n r = Spared-same srv px g pve p l.1 r
  sync_addresses-Spared f (ip ∷ ips) (rows, c) n r =
      let l' = sync_address srv px f ip (rows, c) in
      let one = sync_address-Spared srv px g pve p f ip rows c n r in
      Spared-then srv px g pve p c l'.1 (sync_addresses srv px f ips l').1 one
        (sync_addresses-Spared f ips l' n one.ready)

  pub run_jobs-Spared :
      (jobs : List (Text × List Text)) (l : Logged srv px)
      → ApartJobs p jobs
      → Ready srv px g pve l.1
      → Spared srv px g pve p l.1 (run_jobs srv px jobs l).1
  unfolding run_jobs
  run_jobs-Spared [] l n r = Spared-same srv px g pve p l.1 r
  run_jobs-Spared ((f, ips) ∷ jobs) l n r =
      let l' = sync_addresses srv px f ips l in
      let one = sync_addresses-Spared f ips l n.0 r in
      Spared-then srv px g pve p l.1 l'.1 (run_jobs srv px jobs l').1 one
        (run_jobs-Spared jobs l' n.1 one.ready)

  with_job-ApartJobs :
      (f : Text) (ips : List Text) (jobs : List (Text × List Text))
      → Apart p f
      → ApartJobs p jobs
      → ApartJobs p (with_job f ips jobs)
  with_job-ApartJobs f [] jobs e n = n
  with_job-ApartJobs f (ip ∷ ips) jobs e n = (e, n)

  pub take_jobs-ApartJobs :
      (fs : List Text) (m : Addresses) → Aparts p fs → ApartJobs p (take_jobs fs m).0
  unfolding take_jobs
  take_jobs-ApartJobs [] m n = tt
  take_jobs-ApartJobs (f ∷ fs) m n =
      with_job-ApartJobs f (addresses_of m f) (take_jobs fs (delete_addresses m f)).0 n.0
        (take_jobs-ApartJobs fs (delete_addresses m f) n.1)
