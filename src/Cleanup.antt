-- ===== src/Cleanup.antt =====
-- src/cleanup.rs: the task that clears out what has expired. A failure of the store is logged, and the
-- task goes on.
pub mod Sweep
use anony_mail.Base.{ℕ, zero, suc, ◌+◌, ◌-◌, ◌*◌}
use anony_mail.Model.{Time, hours}
use anony_mail.Store.{Store}

abbrev pub device_idle_window : Time
device_idle_window = hours (180 * 24)

module _ (store : Store) where
  -- What one tick does, with the two readings of the clock. The clock starts more than the window
  -- before every reading.
  unfoldable pub tick : Time → Time → store.State → store.State
  tick now later s0 =
      let s1 = (store.purge_expired s0 now).1 in
      let s2 = (store.prune_attested_devices s1 (later - device_idle_window)).1 in
      (store.run_maintenance s2).1

  -- So many ticks, from a count of readings on.
  unfoldable pub run : ℕ → (ℕ → Time) → ℕ → store.State → store.State
  run zero clock n s = s
  run (suc ticks) clock n s = run ticks clock (n + 2) (tick (clock n) (clock (n + 1)) s)
