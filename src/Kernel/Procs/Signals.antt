-- ===== src/Kernel/Procs/Signals.antt =====
-- What the system calls on signals keep, and what they undo.
use bkunix.Prelude.{◌≡◌, ◌≢◌, refl, sym, ◌∙◌, inl, inr, not, ◌||◌, arith}
use bkunix.Prelude.Tests.{◌==◌, Bool-cases}
use bkunix.Prelude.Lists.{length, get_or, set, length-set, get_or-set_self}
use bkunix.Prelude.Run.{ok}
use bkunix.Kernel.State.{Kernel, einval}
use bkunix.Kernel.Alloc.{s_lt}
use bkunix.Kernel.Procs.{proc_at, issig, set_signal, ssig}

-- The table of signals is whole, and the kill signal, 9, is neither caught nor ignored.
pub record KillsStand (k : Kernel) : Type 0 where
  pub table : length k.u_signal ≡ 20
  pub kill : get_or k.u_signal 9 0 ≡ 0

-- what `ssig` does, and where it leaves the processes alone
ssig_lem :
    (k : Kernel)
    → KillsStand k
    → (k' : Kernel) × (ssig k ≡ ok tt k')
      × KillsStand k'
      × (k'.u_procp ≡ k.u_procp)
      × ((proc_at k k.u_procp).sig ≢ get_or k.u_arg 0 0 → k'.proc ≡ k.proc)
unfolding ssig set_signal
ssig_lem k s =
    let a = get_or k.u_arg 0 0 in
    let signals = set (set k.u_signal a (get_or k.u_arg 1 0)) 9 0 in
    let whole : length signals ≡ 20 =
      length-set (set k.u_signal a (get_or k.u_arg 1 0)) 9 0
      ∙ length-set k.u_signal a (get_or k.u_arg 1 0)
      ∙ s.table in
    let stands : get_or signals 9 0 ≡ 0 =
      get_or-set_self (set k.u_signal a (get_or k.u_arg 1 0)) 9 0 0
        (omega (arith, length-set k.u_signal a (get_or k.u_arg 1 0), s.table)) in
    let k1 = record k { u_r0 = get_or k.u_signal a 0; u_signal = signals } in
    elim (Bool-cases (not (s_lt 0 a) || not (s_lt a 20))) [
      | inl e ↦ (
        record k { u_error = einval },
        simp e refl,
        record { table = s.table; kill = s.kill },
        refl,
        λ ne. refl,
      )
      | inr e ↦ elim (Bool-cases ((proc_at k k.u_procp).sig == a)) [
        | inl t ↦ (
          record k1 { proc = set k.proc k.u_procp (record (proc_at k k.u_procp) { sig = 0 }) },
          simp (e, t) refl,
          record { table = whole; kill = stands },
          refl,
          λ ne. absurd (ground (arith, t)),
        )
        | inr f ↦ (k1, simp (e, f) refl, record { table = whole; kill = stands }, refl, λ ne. refl)
      ]
    ]

-- Where the table of signals is whole and the kill signal is neither caught nor ignored, `ssig` ends
-- whatever its arguments are, and this holds again.
pub ssig-KillsStand :
    (k : Kernel) → KillsStand k → (k' : Kernel) × (ssig k ≡ ok tt k') × KillsStand k'
ssig-KillsStand k s = let (k', call, s', same, procs) = ssig_lem k s in (k', call, s')

-- Where the kill signal is neither caught nor ignored and is pending, `issig` returns it, also behind
-- a call of `ssig` for another signal, which ends.
pub issig-ssig :
    (k : Kernel)
    → KillsStand k
    → (proc_at k k.u_procp).sig ≡ 9
    → get_or k.u_arg 0 0 ≢ 9
    → (issig k ≡ ok 9 k) × ((k' : Kernel) × (ssig k ≡ ok tt k') × (issig k' ≡ ok 9 k'))
unfolding issig
issig-ssig k s pending ne =
    let (k', call, s', same, procs) = ssig_lem k s in
    let kept = procs (λ t. ne (sym t ∙ pending)) in
    (rw (pending, s.kill) refl, (k', call, rw (same, kept, pending, s'.kill) refl))
