-- ===== src/Scheduler/Steps.antt =====
-- src/core/scheduler.c and src/daemon/daemon.c: how the daemon's loop and the worker threads
-- interleave. The loop calls `scheduler_tick` and serves clients on one thread, so a tick and a call
-- are steps; each worker settles its download and ends in two more steps, in any order with these.
use Prim.Native.Nat.{max}
use cdm.Prelude.{ℕ, Bool, ◌≡◌, true, false, ℤ, get_or}
use cdm.Queue.Calls.{Call, apply}
use cdm.Queue.Identity.{Admissible}
use cdm.Queue.Idle.{RestoresIdle}
use cdm.Queue.Ownership.{IsRequest}
use cdm.Scheduler.{Policy}
use cdm.Scheduler.Workers.{
  Scheduler, Worker, free_worker, working, finishing, tick, worker_settles, worker_exits,
}

abbrev pub slot : Scheduler → ℕ → Worker
slot s k = get_or s.workers k free_worker

-- The slot's thread runs the engine.
abbrev pub IsWorking : Worker → Type 0
IsWorking w = (w.in_use ≡ true) × (w.thread ≡ working) × (w.done ≡ false)

pub data Step (p : Policy) : Scheduler → Scheduler → Type 0 where
  ticks : (now : ℕ) (created : Bool) (s : Scheduler) → Step p s (tick p now created s)
  calls :
      (c : Call) (s : Scheduler)
      → IsRequest c
      → Admissible c s.queue
      → RestoresIdle c
      → Step p s (record s { queue = apply c s.queue })
  settles :
      (now : ℕ) (rc : ℤ) (k : ℕ) (s : Scheduler)
      → IsWorking (slot s k)
      → Step p s (worker_settles p now rc k s).0
  exits : (k : ℕ) (s : Scheduler) → (slot s k).thread ≡ finishing → Step p s (worker_exits k s)

-- `Reach s p t`: from `s` the daemon has come to `t`, and its configuration is `p`. A request to reload
-- the configuration changes it between any two steps.
pub data Reach (s : Scheduler) : Policy → Scheduler → Type 0 where
  here : (p : Policy) → Reach s p s
  next : {p : Policy} {t u : Scheduler} → Reach s p t → Step p t u → Reach s p u
  reloads : {p : Policy} {t : Scheduler} (p' : Policy) → Reach s p t → Reach s p' t

-- The greatest limit that was in force on the way.
abbrev pub highest_limit : {s : Scheduler} {p : Policy} {t : Scheduler} → Reach s p t → ℕ
highest_limit (here p) = p.max_concurrent
highest_limit (next r st) = highest_limit r
highest_limit (reloads p' r) = max (highest_limit r) p'.max_concurrent
