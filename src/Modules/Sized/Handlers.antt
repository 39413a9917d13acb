-- ===== src/Modules/Sized/Handlers.antt =====
-- Every handler keeps the records within their types.
use zsr.Prelude.{
  ℕ, ◌<◌, sym, Option, List, [], ◌∷◌, ◌++◌, length, Bytes, get_last?, All, All-append, arith,
}
use mathlib.Core.Path.{subst}
use zsr.Log.{LogCall}
use zsr.Double.{Double}
use zsr.Network.{IfAddr}
use zsr.Network.Gateway.{get_gateway}
use zsr.Host.{Utmp}
use zsr.Fs.{Mount}
use zsr.Uptime.{Uptime, read_uptime_stat}
use zsr.Meminfo.{MemStat, read_mem_stat, SwapStat, read_swap_stat}
use zsr.Cpu.{Cpu, CpuStat, zero_cpu_stat, read_cpu_stat}
use zsr.Modules.Single.{
  read_last, or_cleared, collect_uptime, collect_mem, collect_swap, collect_gateway, zero_uptime,
  zero_mem, zero_swap,
}
use zsr.Modules.Snapshot.{emptied}
use zsr.Modules.History.{zero_cpu, collect_cpu}
use zsr.Modules.History.Growth.{compute-stat}
use zsr.Modules.Handlers.{Records, SystemView}
use zsr.Modules.Sized.{
  IsU64, IsField, SizedUptime, SizedMem, SizedSwap, SizedLink, SizedInterface, SizedUser,
  SizedCpuStat, SizedFs, SizedProc, SizedIo,
}
use zsr.Modules.Sized.Readers.{
  read_uptime_stat-Sized, read_mem_stat-Sized, read_swap_stat-Sized, read_cpu_stat-Sized,
}
use zsr.Modules.Sized.Answers.{OfSome, SizedStats, get_gateway-IsField}
use zsr.Modules.Sized.Mounts.{SizedStatfs}
use zsr.Modules.Sized.Samples.{zero_cpu_stat-Sized}

pub record SizedRecords {F : Type 0} (r : Records F) : Type 0 where
  pub cpu : All (λ (c : Cpu F). SizedCpuStat c.stat) r.cpu
  pub dns : All (IsField 64) r.dns
  pub fs : All SizedFs r.fs
  pub gateway : All (IsField 64) r.gateway
  pub io : All (All SizedIo) r.io
  pub ip : All SizedInterface r.ip
  pub mem : All SizedMem r.mem
  pub network : All SizedLink r.network
  pub proc : All (All SizedProc) r.proc
  pub swap : All SizedSwap r.swap
  pub time : All IsU64 r.time
  pub uptime : All SizedUptime r.uptime
  pub who : All SizedUser r.who

-- The C library's answers are values of their types, the names of interfaces are shorter than IFNAMSIZ, and the
-- text of an address fits INET6_ADDRSTRLEN; the files of /proc may hold anything.
pub record SizedView (s : SystemView) : Type 0 where
  pub servers : OfSome (All (OfSome (λ (text : Bytes). length text < 46))) s.servers
  pub names : OfSome (All (λ (i : IfAddr). length i.name < 16)) s.addrs
  pub addrs : OfSome (All (λ (i : IfAddr). OfSome SizedStats i.link)) s.addrs
  pub mounts : OfSome (All (λ (m : Mount). OfSome SizedStatfs m.statfs)) s.mounts
  pub utmp : All (λ (u : Utmp). IsU64 u.ut_time) s.utmp
  pub now : IsU64 s.now

pub read_last-All :
    {A : Type 0} (P : A → Type 0) (read : A → A × List LogCall) (xs : List A)
    → ((x : A) → P x → P (read x).0)
    → All P xs
    → All P (read_last read xs).0
unfolding read_last
read_last-All P read [] g h = tt
read_last-All P read (x ∷ []) g (h, hs) = (g x h, tt)
read_last-All P read (x ∷ y ∷ xs) g (h, hs) = (h, read_last-All P read (y ∷ xs) g hs)

pub or_cleared-All :
    {A : Type 0} (P : A → Type 0) (zero : A) (xs : List A)
    → P zero
    → All P xs
    → All P (or_cleared zero xs)
unfolding or_cleared
or_cleared-All P zero [] z h = (z, tt)
or_cleared-All P zero (x ∷ xs) z h = h

pub emptied-All :
    {A : Type 0} (P : A → Type 0) (xs ys : List A) → All P ys → All P (emptied xs ++ ys)
unfolding emptied
emptied-All P [] ys h = h
emptied-All P (x ∷ xs) ys h = h

pub collect_uptime-Sized :
    (text : Option Bytes) (xs : List Uptime)
    → All SizedUptime xs
    → All SizedUptime (collect_uptime text xs).0
unfolding collect_uptime
collect_uptime-Sized text xs h =
    read_last-All SizedUptime (read_uptime_stat text) (or_cleared zero_uptime xs)
      (read_uptime_stat-Sized text) (or_cleared-All SizedUptime zero_uptime xs (ground arith) h)

pub collect_mem-Sized :
    (text : Option Bytes) (xs : List MemStat)
    → All SizedMem xs
    → All SizedMem (collect_mem text xs).0
unfolding collect_mem
collect_mem-Sized text xs h =
    read_last-All SizedMem (read_mem_stat text) (or_cleared zero_mem xs) (read_mem_stat-Sized text)
      (or_cleared-All SizedMem zero_mem xs (ground arith) h)

pub collect_swap-Sized :
    (text : Option Bytes) (xs : List SwapStat)
    → All SizedSwap xs
    → All SizedSwap (collect_swap text xs).0
unfolding collect_swap
collect_swap-Sized text xs h =
    read_last-All SizedSwap (read_swap_stat text) (or_cleared zero_swap xs)
      (read_swap_stat-Sized text) (or_cleared-All SizedSwap zero_swap xs (ground arith) h)

pub collect_gateway-IsField :
    (inet_ntop : ℕ → Option Bytes) (text : Option Bytes) (xs : List Bytes)
    → All (IsField 64) xs
    → All (IsField 64) (collect_gateway inet_ntop text xs).0
unfolding collect_gateway
collect_gateway-IsField inet_ntop text xs h =
    read_last-All (IsField 64) (get_gateway inet_ntop text) (or_cleared [] xs)
      (get_gateway-IsField inet_ntop text) (or_cleared-All (IsField 64) [] xs (omega arith) h)

module _ (D : Double) where
  open D use {F}

  pub collect_cpu-Sized :
      (text : Option Bytes) (xs : List (Cpu F))
      → All (λ (c : Cpu F). SizedCpuStat c.stat) xs
      → All (λ (c : Cpu F). SizedCpuStat c.stat) (collect_cpu D text xs).0
  unfolding collect_cpu
  collect_cpu-Sized text xs h =
      let stat : CpuStat = (read_cpu_stat text zero_cpu_stat).0 in
      let entry : Cpu F = zero_cpu D stat in
      All-append (λ (c : Cpu F). SizedCpuStat c.stat) xs _ h
        (
          subst (λ s. SizedCpuStat s) (sym (compute-stat D entry (get_last? xs)))
              (read_cpu_stat-Sized text zero_cpu_stat zero_cpu_stat-Sized),
          tt,
        )
