-- ===== src/ControlPlane/Apps/Removal.antt =====
-- What the removal of an application leaves.
use nvfuse.Prelude.{
  ℕ, ◌+◌, ◌<◌, ◌≡◌, ◌≢◌, refl, ap, ◌∙◌, true, false, arith, List, [], ◌∷◌, map, get_or, leb, ◌==◌,
  not, if◌then◌else◌, get_or-set_self, replicate,
}
use nvfuse.Prelude.Int.{pos}
use nvfuse.Run.{ok}
use nvfuse.ControlPlane.State.{Reservation, IsValid}
use nvfuse.ControlPlane.Log.Storage.{Storage}
use nvfuse.ControlPlane.Log.Defs.{store_container_table}
use nvfuse.ControlPlane.Alloc.New.{store-IsValid}
use nvfuse.ControlPlane.Release.Defs.{container_release_by_coreid}
use nvfuse.ControlPlane.Release.ByCore.{release_if_owned, idle, container_release_by_coreid-idle}
use nvfuse.ControlPlane.Release.Validity.{container_release_by_coreid-IsValid}
use nvfuse.ControlPlane.Apps.Defs.{
  num_cores, name_size, no_channel, AppNode, zero_node, node, set_node, Directories,
}
use nvfuse.ControlPlane.Apps.Ops.{
  Primary, is_invalid_core, destroy_containers, log_tables, store_app_table,
  app_manage_table_remove,
}
use nvfuse.ControlPlane.Apps.Laws.{IsApp}

-- How many rows are a core's.
unfoldable pub count_owned : ℕ → List Reservation → ℕ
count_owned core_id [] = 0
count_owned core_id (r ∷ t) = (if r.owner_core_id == core_id then 1 else 0) + count_owned core_id t

count_owned-release :
    (core_id : ℕ) (t : List Reservation)
    → core_id ≢ 0
    → count_owned core_id (map (release_if_owned core_id true) t) ≡ 0
unfolding count_owned
count_owned-release core_id [] nz = refl
count_owned-release core_id (r ∷ t) nz = ground (arith, count_owned-release core_id t nz)

count_owned-other :
    (core_id : ℕ) (r : Reservation) (t : List Reservation)
    → r.owner_core_id ≢ core_id
    → count_owned core_id (r ∷ t) ≡ count_owned core_id t
unfolding count_owned
count_owned-other core_id r t ne = ground arith

module _ (st : Storage) (dirs : Directories st) where
  open st use {Files}

  -- What stays of a core's node when its containers are destroyed.
  abbrev cleared : AppNode → AppNode
  cleared n = record n { channel_id = no_channel; name = replicate name_size 0; root_bg_id = 0 }

  abbrev without : (core_id : ℕ) → Primary → Primary
  without core_id p = record p {
    cp = (container_release_by_coreid core_id true p.cp).0;
    apps = set_node p.apps core_id (cleared (node p.apps core_id));
  }

  valid_core : (core_id : ℕ) → core_id ≢ 0 → core_id < num_cores → is_invalid_core core_id ≡ false
  valid_core core_id nz h = ground arith

  in_table : (core_id : ℕ) → core_id < num_cores → leb num_cores core_id ≡ false
  in_table core_id h = ground arith

  is_own : (a b : ℕ) → a ≡ b → not (a == b) ≡ false
  is_own a b e = ground arith

  remove-logs :
      (core_id : ℕ) (p : Primary) (fs : Files)
      → IsApp core_id p.apps
      → (node p.apps core_id).channel_id ≡ core_id
      → app_manage_table_remove st dirs core_id 1 p fs
        ≡ ok (log_tables st dirs (without core_id p) (destroy_containers st dirs core_id p fs).0)
  unfolding app_manage_table_remove
  remove-logs core_id p fs a c = rw (
    valid_core core_id (a.not_primary) (a.in_table),
    in_table core_id (a.in_table),
    is_own (node p.apps core_id).channel_id core_id c,
  )

  table-log :
      (p : Primary) (fs : Files)
      → ((log_tables st dirs p fs).0).cp.reservation_table ≡ p.cp.reservation_table
  unfolding log_tables store_container_table
  table-log p fs = refl

  apps-log :
      (p : Primary) (fs : Files)
      → ((log_tables st dirs p fs).0).apps.app_manage_table ≡ p.apps.app_manage_table
  unfolding log_tables store_app_table
  apps-log p fs = refl

  log-IsValid : (p : Primary) (fs : Files) → IsValid p.cp → IsValid ((log_tables st dirs p fs).0).cp
  unfolding log_tables
  log-IsValid p fs v = store-IsValid st p.cp fs v

  ret-log : (p : Primary) (fs : Files) → (log_tables st dirs p fs).2 ≡ pos 0
  unfolding log_tables
  ret-log p fs = refl

  -- The removal of a registered application with its containers, in a valid state in which none of
  -- them has references and the first row is not its own, returns 0. No row is the core's any more,
  -- its node is no application's, and the state is valid.
  pub app_manage_table_remove-released :
      (core_id : ℕ) (p : Primary) (fs : Files) (r0 : Reservation) (rest : List Reservation)
      → IsApp core_id p.apps
      → (node p.apps core_id).channel_id ≡ core_id
      → IsValid p.cp
      → p.cp.reservation_table ≡ r0 ∷ rest
      → r0.owner_core_id ≢ core_id
      → idle core_id true rest ≡ true
      → (p' : Primary) × (fs' : Files) × (app_manage_table_remove st dirs core_id 1 p fs
          ≡ ok (p', fs', pos 0))
        × (count_owned core_id p'.cp.reservation_table ≡ 0)
        × ((node p'.apps core_id).channel_id ≡ no_channel)
        × IsValid p'.cp
  app_manage_table_remove-released core_id p fs r0 rest a c v t ne i =
      let fs1 = (destroy_containers st dirs core_id p fs).0 in
      let out = log_tables st dirs (without core_id p) fs1 in
      (
        out.0,
        out.1,
        remove-logs core_id p fs a c
            ∙ ap (λ r. ok (out.0, out.1, r)) (ret-log (without core_id p) fs1),
        ap (count_owned core_id) (
              table-log (without core_id p) fs1
              ∙ ap (λ o. o.0.reservation_table)
                  (container_release_by_coreid-idle core_id true p.cp r0 rest v t i))
            ∙ count_owned-other core_id r0 (map (release_if_owned core_id true) rest) ne
            ∙ count_owned-release core_id rest (a.not_primary),
        ap (λ l. (get_or l core_id zero_node).channel_id) (apps-log (without core_id p) fs1)
            ∙ ap AppNode.channel_id (
                get_or-set_self p.apps.app_manage_table core_id (cleared (node p.apps core_id))
                  zero_node (omega (arith, a.in_table, a.all_nodes))),
        log-IsValid (without core_id p) fs1
            (container_release_by_coreid-IsValid core_id true p.cp v (a.not_primary)),
      )
