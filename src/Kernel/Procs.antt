-- ===== src/Kernel/Procs.antt =====
-- Processes and signals: `setrun` and `wakeup` of src/sys/slp.c, `issig` of src/sys/sig.c, and the
-- system calls of src/sys/sys4.c on the clock, the process and its signals.
pub mod Signals
use bkunix.Prelude.{
  ℕ, zero, suc, ◌+◌, Bool, true, false, Option, none, some, List, [], ◌∷◌, bit_and, not, ◌||◌,
  arith,
}
use bkunix.Prelude.Tests.{◌==◌, if◌then◌else◌}
use bkunix.Prelude.Lists.{get_or, set}
use bkunix.Prelude.Run.{Cmd, pure, ◌>>=◌, ◌>>◌, get, modify}
use bkunix.Kernel.State.{Proc, Kernel, nsig, einval}
use bkunix.Kernel.Alloc.{s_lt}
use bkunix.Kernel.Iget.Update.{update}

-- the state of a process in cleared memory, with which an index out of the table would be read
abbrev no_proc : Proc
no_proc = record { stat = 0; sig = 0; wchan = 0; clktim = 0 }

abbrev pub proc_at : Kernel → ℕ → Proc
proc_at k p = get_or k.proc p no_proc

-- an assignment to fields of an entry of the table of processes
abbrev pub on_proc : ℕ → (Proc → Proc) → Cmd Kernel (Unit {0})
on_proc p f = modify (λ k. record k { proc = set k.proc p (f (proc_at k p)) })

-- `setrun`; 3 is `SRUN`
unfoldable pub setrun : ℕ → Cmd Kernel (Unit {0})
setrun p = on_proc p (λ x. record x { wchan = 0; stat = 3 })

-- `wakeup`
unfoldable pub wakeup : ℕ → Cmd Kernel (Unit {0})
wakeup chan k = (if (proc_at k k.cpid).wchan == chan then setrun k.cpid else pure tt) k

-- `issig`
unfoldable pub issig : Cmd Kernel ℕ
issig k =
    let n = (proc_at k k.u_procp).sig in
    (if n == 0 then pure 0 else if bit_and (get_or k.u_signal n 0) 1 == 0 then pure n else pure 0) k

-- `ssig` behind its test of the number
unfoldable pub set_signal : ℕ → Cmd Kernel (Unit {0})
set_signal a = do
  modify (λ k. record k { u_r0 = get_or k.u_signal a 0 })
  modify (λ k. record k { u_signal = set (set k.u_signal a (get_or k.u_arg 1 0)) 9 0 })
  k ← get
  if (proc_at k k.u_procp).sig == a then on_proc k.u_procp (λ x. record x { sig = 0 }) else pure tt

-- `ssig`
unfoldable pub ssig : Cmd Kernel (Unit {0})
ssig k =
    let a = get_or k.u_arg 0 0 in
    (if not (s_lt 0 a) || not (s_lt a nsig)
        then modify (λ k. record k { u_error = einval })
        else set_signal a)
      k

-- `alarm`
unfoldable pub alarm : Cmd Kernel (Unit {0})
alarm = do
  k ← get
  on_proc k.u_procp (λ x. record x { clktim = k.u_r0 })
  modify (λ k'. record k' { u_r0 = (proc_at k k.u_procp).clktim })

-- `gtime`
unfoldable pub gtime : Cmd Kernel (Unit {0})
gtime = modify (λ k. record k { u_r0 = k.time0; u_r1 = k.time1 })

-- `stime`. `tout` is the address on which nothing but `stime` and the clock waken a process.
unfoldable pub stime : ℕ → Cmd Kernel (Unit {0})
stime tout = do modify (λ k. record k { time0 = k.u_r0; time1 = k.u_r1 }); wakeup tout

-- `getuid`
unfoldable pub getuid : Cmd Kernel (Unit {0})
getuid = modify (λ k. record k { u_r0 = 0 })

-- `getpid`
unfoldable pub getpid : Cmd Kernel (Unit {0})
getpid = modify (λ k. record k { u_r0 = k.cpid })

-- `sync`
unfoldable pub sync : Cmd Kernel (Unit {0})
sync = update
