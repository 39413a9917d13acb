-- ===== src/Modules/Sized/Listing.antt =====
-- The list of all processes, and their shares.
use zsr.Prelude.{
  ℕ, inl, inr, Option, none, some, List, [], ◌∷◌, length, ◌==◌, All, Bool-cases, map, arith,
}
use zsr.Log.{LogCall}
use zsr.Double.{Double}
use zsr.Cpu.{CpuStat, zero_cpu_stat, read_cpu_stat}
use zsr.Proc.{
  Proc, ProcCpuStat, sample, differences, fill, set_share, set_shares, finish,
  compute_proc_cpu_stat, set_sys_cpu_time, set_pid_mem_until,
}
use zsr.Proc.Stat.{read_pid_stat}
use zsr.Proc.Status.{read_pid_status, read_pid_exe}
use zsr.Proc.Listing.{
  DirEntry, ProcSystem, and_then, is_process, zero_proc, with_totals, store_single_pid_info,
  cons_proc, list_procs, listing, get_all_proc,
}
use zsr.Modules.Sized.{SizedProc}
use zsr.Modules.Sized.Answers.{OfSome}
use zsr.Modules.Sized.Processes.{
  read_pid_stat-Sized, read_pid_status-Sized, read_pid_exe-Sized, set_sys_cpu_time-Sized,
}

and_then-OfSome :
    {A B : Type 0} (P : A → Type 0) (Q : B → Type 0) (o : Option A) (f : A → Option B)
    → OfSome P o
    → ((a : A) → P a → OfSome Q (f a))
    → OfSome Q (and_then o f)
and_then-OfSome P Q none f h g = tt
and_then-OfSome P Q (some a) f h g = g a h

module _ (D : Double) where
  open D use {F}

  zero_proc-Sized : SizedProc (zero_proc D)
  zero_proc-Sized = ground arith

  set_pid_mem_until-Sized :
      (totalram : Option ℕ) (p : Proc F) → SizedProc p → SizedProc (set_pid_mem_until D totalram p)
  unfolding set_pid_mem_until
  set_pid_mem_until-Sized none p h = h
  set_pid_mem_until-Sized (some totalram) p h = ground arith

  store_single_pid_info-Sized :
      (sys : ProcSystem) (e : DirEntry) (p : Proc F)
      → SizedProc p
      → OfSome SizedProc (store_single_pid_info D sys e p).0
  unfolding store_single_pid_info
  store_single_pid_info-Sized sys e p h =
      let cpu : CpuStat = (read_cpu_stat sys.cpu zero_cpu_stat).0 in
      and_then-OfSome SizedProc SizedProc (read_pid_stat e.name e.stat p).0 _
        (read_pid_stat-Sized e.name e.stat p h)
        λ p1 h1.
          and_then-OfSome SizedProc SizedProc (read_pid_exe e.exe p1) _
            (read_pid_exe-Sized e.exe p1 h1)
            λ p2 h2.
              and_then-OfSome SizedProc SizedProc (read_pid_status sys.users e.status p2)
                (with_totals D sys.totalram cpu) (read_pid_status-Sized sys.users e.status p2 h2)
                λ p3 h3.
                  set_pid_mem_until-Sized sys.totalram (set_sys_cpu_time cpu p3)
                    (set_sys_cpu_time-Sized cpu p3 h3)

  cons_proc-Sized :
      (p : Option (Proc F) × List LogCall) (ps : Option (List (Proc F)) × List LogCall)
      → OfSome SizedProc p.0
      → OfSome (All SizedProc) ps.0
      → OfSome (All SizedProc) (cons_proc D p ps).0
  cons_proc-Sized (none, logs) (ps, more) h hs = tt
  cons_proc-Sized (some p, logs) (none, more) h hs = tt
  cons_proc-Sized (some p, logs) (some ps, more) h hs = (h, hs)

  list_procs-Sized :
      (sys : ProcSystem) (es : List DirEntry) → OfSome (All SizedProc) (list_procs D sys es).0
  unfolding list_procs
  list_procs-Sized sys [] = tt
  list_procs-Sized sys (e ∷ es) = elim (Bool-cases (is_process e)) [
    | inl process ↦ rw process (
        cons_proc-Sized (store_single_pid_info D sys e (zero_proc D)) (list_procs D sys es)
          (store_single_pid_info-Sized sys e (zero_proc D) zero_proc-Sized)
          (list_procs-Sized sys es))
    | inr different ↦ rw different (list_procs-Sized sys es)
  ]

  listing-Sized :
      (sys : ProcSystem) (o : Option (List DirEntry)) → OfSome (All SizedProc) (listing D sys o).0
  listing-Sized sys none = tt
  listing-Sized sys (some es) = list_procs-Sized sys es

  pub get_all_proc-Sized : (sys : ProcSystem) → OfSome (All SizedProc) (get_all_proc D sys).0
  unfolding get_all_proc
  get_all_proc-Sized sys = listing-Sized sys sys.entries

  set_share-Sized :
      (d : ProcCpuStat) (ps : List (Proc F)) → All SizedProc ps → All SizedProc (set_share D d ps)
  unfolding set_share
  set_share-Sized d [] h = tt
  set_share-Sized d (p ∷ ps) (h, hs) = elim (Bool-cases (p.pid == d.pid)) [
    | inl same ↦ rw same (ground arith, hs)
    | inr different ↦ rw different (h, set_share-Sized d ps hs)
  ]

  set_shares-Sized :
      (ds : List ProcCpuStat) (ps : List (Proc F))
      → All SizedProc ps
      → All SizedProc (set_shares D ds ps)
  unfolding set_shares
  set_shares-Sized [] ps h = h
  set_shares-Sized (d ∷ ds) ps h = set_shares-Sized ds (set_share D d ps) (set_share-Sized d ps h)

  finish-Sized :
      (ps : List (Proc F)) (o : Option (List ProcCpuStat))
      → All SizedProc ps
      → OfSome (All SizedProc) (finish D ps o)
  finish-Sized ps none h = tt
  finish-Sized ps (some cs) h = set_shares-Sized (fill (length ps) cs) ps h

  pub compute_proc_cpu_stat-Sized :
      (cur prev : List (Proc F))
      → All SizedProc cur
      → OfSome (All SizedProc) (compute_proc_cpu_stat D cur prev)
  unfolding compute_proc_cpu_stat
  compute_proc_cpu_stat-Sized cur prev h =
      finish-Sized cur (differences 0 (map sample cur) (map sample prev)) h
