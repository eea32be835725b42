-- ===== src/Coordinator/State/Activity.antt =====
-- The log of firewall activity: enqueueFwActivities.
use proxmox_dns_firewall_loc.Prelude.{
  ℕ, ◌+◌, ◌-◌, ◌%◌, ◌≤◌, false, List, [], ◌∷◌, ◌++◌, ltb, Bool-cases, inl, inr, ◌≡◌, refl, sym, ap,
  ◌∙◌, arith, length, drop, map, length-drop, append_assoc, append-nil,
}
use proxmox_dns_firewall_loc.Proxmox.Api.{Server}
use proxmox_dns_firewall_loc.Coordinator.State.{
  ActivityRow, max_fw_activity_lines, revision_limit, last_rows, stamp, add_rows, Coordinator,
  finalize_view, enqueue_fw_activities,
}

add_rows-append :
    (now : ℕ) (log rows : List ActivityRow) → add_rows now log rows ≡ log ++ map (stamp now) rows
unfolding add_rows
add_rows-append now log [] = sym (append-nil log)
add_rows-append now log (row ∷ rows) =
    add_rows-append now (log ++ stamp now row ∷ []) rows
    ∙ append_assoc log (stamp now row ∷ []) (map (stamp now) rows)

last_rows-length : (rows : List ActivityRow) → length (last_rows rows) ≤ max_fw_activity_lines
unfolding last_rows
last_rows-length rows = ground (arith, length-drop (length rows - 20) rows)

-- the rows that an activity log loses
abbrev pub lost : List ActivityRow → ℕ
lost rows = length rows - max_fw_activity_lines

last_rows-drop : (rows : List ActivityRow) → last_rows rows ≡ drop (lost rows) rows
unfolding last_rows
last_rows-drop rows = elim (Bool-cases (ltb max_fw_activity_lines (length rows))) [
  | inl long ↦ rw long refl
  | inr short ↦ rw short (ap (λ n. drop n rows) (sym (none_lost short)))
]
  where
    none_lost : ltb max_fw_activity_lines (length rows) ≡ false → lost rows ≡ 0
    none_lost short = ground arith

-- However many rows are logged, at most twenty are kept: the last ones of the old rows followed by
-- the new ones, each with a time. Beyond that, the page shows these rows at the next revision,
-- and outside the clock has been read; everything else of the coordinator and of the page stays.
pub enqueue_fw_activities-log :
    (srv : Server) (row : ActivityRow) (rows : List ActivityRow) (c : Coordinator srv)
    → let c' = enqueue_fw_activities srv (row ∷ rows) c in
      let all = c.fw_activity ++ map (stamp (srv.now c.world).0) (row ∷ rows) in
      (length c'.fw_activity ≤ max_fw_activity_lines)
      × (c' ≡ record c {
        world = (srv.now c.world).1;
        fw_activity = drop (lost all) all;
        revision = (c.revision + 1) % revision_limit;
        snap = record c.snap {
          firewall_activity = drop (lost all) all;
          revision = (c.revision + 1) % revision_limit;
        };
      })
unfolding enqueue_fw_activities finalize_view
enqueue_fw_activities-log srv row rows c =
    let t = (srv.now c.world).0 in
    let joined = add_rows-append t c.fw_activity (row ∷ rows) in
    let kept = ap last_rows joined ∙ last_rows-drop (c.fw_activity ++ map (stamp t) (row ∷ rows)) in
    let revision = (c.revision + 1) % revision_limit in
    (
      last_rows-length (add_rows t c.fw_activity (row ∷ rows)),
      ap
          (λ log. record c {
            world = (srv.now c.world).1;
            fw_activity = log;
            revision = revision;
            snap = record c.snap { firewall_activity = log; revision = revision };
          })
          kept,
    )
