-- ===== src/Scheduler/Classic/Scheduled.antt =====
-- What the table of the ids and the queues have in common.
pub mod Lookup
pub mod Preserved
pub mod TakenOut
pub mod Removed
pub mod Reached
use cyberrt_on_rpi.Base.{ℕ, ◌+◌, ◌≤◌, ◌<◌, ◌≡◌, List, ◌==◌, if◌then◌else◌, ◌&&◌, All, count}
use cyberrt_on_rpi.Scheduler.CRoutine.{CRoutine}
use cyberrt_on_rpi.Scheduler.Context.{max_prio}
use cyberrt_on_rpi.Scheduler.Classic.{SchedulerClassic}
use cyberrt_on_rpi.Scheduler.Classic.Scheduled.Lookup.{entries, pointers, HasId}

-- Every id is registered once, with a routine that has it and a priority of a queue. The queue of a group
-- and a priority has the registered routines of that group and priority, each once, and no others.
pub record IsScheduled (s : SchedulerClassic) : Type 0 where
  pub ids : All (HasId s.routines) s.id_cr
  pub unique : (id : ℕ) → entries id s.id_cr ≤ 1
  pub queues :
      (group prio a : ℕ)
      → count a (s.cr_group group prio) ≡ (
          if (s.routines a).group_name == group && (s.routines a).priority == prio
          then pointers a s.id_cr
          else 0)
