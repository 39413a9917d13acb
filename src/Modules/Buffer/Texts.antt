-- ===== src/Modules/Buffer/Texts.antt =====
-- The handlers whose lines have no doubles leave a text in their buffer that fits, with its NUL.
use zsr.Prelude.{ℕ, List, Bytes, get_last?, All, arith}
use zsr.Uptime.{Uptime}
use zsr.Meminfo.{MemStat, SwapStat}
use zsr.Host.{LoginUser}
use zsr.Network.{RtnlLink}
use zsr.Network.Ip.{Interface}
use zsr.Libc.Print.{print_lu}
use zsr.Libc.Print.Length.{print_lu-length}
use zsr.Tool.Actions.{new_text}
use zsr.Modules.Print.{
  record_line, comma_list, uptime_values, mem_values, swap_values, uptime_to_str, mem_to_str,
  swap_to_str,
}
use zsr.Modules.Lines.{
  ip_line, who_line, network_line, dns_to_str, ip_to_str, gateway_to_str, who_to_str,
  network_to_str, time_to_str,
}
use zsr.Modules.Buffer.Lengths.{
  text_line-length, numbers_line-length, ip_line-length, who_line-length, network_line-length,
}
use zsr.Modules.Buffer.Counts.{AtMost}
use zsr.Modules.Sized.{
  IsU64, IsField, SizedUptime, SizedMem, SizedSwap, SizedLink, SizedInterface, SizedUser,
}
use zsr.Modules.Buffer.Fitting.{InBuffer, get_last?-OfSome, of_last-InBuffer, of_all-InBuffer}

pub dns-InBuffer :
    (xs : List Bytes) (old : Bytes)
    → All (IsField 64) xs
    → AtMost 14979 xs
    → InBuffer old
    → InBuffer (new_text (dns_to_str xs) old)
unfolding dns_to_str
dns-InBuffer xs old h few g =
    of_all-InBuffer (IsField 64) (record_line "dns") 70 14979 xs old
      (λ s k. omega (arith, text_line-length "dns" s)) h few (omega arith) g

pub ip-InBuffer :
    (xs : List Interface) (old : Bytes)
    → All SizedInterface xs
    → AtMost 5190 xs
    → InBuffer old
    → InBuffer (new_text (ip_to_str xs) old)
unfolding ip_to_str
ip-InBuffer xs old h few g =
    of_all-InBuffer SizedInterface ip_line 202 5190 xs old ip_line-length h few (omega arith) g

pub who-InBuffer :
    (xs : List LoginUser) (old : Bytes)
    → All SizedUser xs
    → AtMost 1142 xs
    → InBuffer old
    → InBuffer (new_text (who_to_str xs) old)
unfolding who_to_str
who-InBuffer xs old h few g =
    of_all-InBuffer SizedUser who_line 918 1142 xs old who_line-length h few (omega arith) g

pub network-InBuffer :
    (xs : List RtnlLink) (old : Bytes)
    → All SizedLink xs
    → AtMost 5190 xs
    → InBuffer old
    → InBuffer (new_text (network_to_str xs) old)
unfolding network_to_str
network-InBuffer xs old h few g =
    of_all-InBuffer SizedLink network_line 159 5190 xs old network_line-length h few (omega arith) g

pub gateway-InBuffer :
    (xs : List Bytes) (old : Bytes)
    → All (IsField 64) xs
    → InBuffer old
    → InBuffer (new_text (gateway_to_str xs) old)
unfolding gateway_to_str
gateway-InBuffer xs old h g =
    of_last-InBuffer (IsField 64) (record_line "gateway") (get_last? xs) old
      (λ s k. omega (arith, text_line-length "gateway" s)) (get_last?-OfSome (IsField 64) xs h) g

pub time-InBuffer :
    (xs : List ℕ) (old : Bytes)
    → All IsU64 xs
    → InBuffer old
    → InBuffer (new_text (time_to_str xs) old)
unfolding time_to_str
time-InBuffer xs old h g =
    of_last-InBuffer IsU64 (λ t. record_line "time" (print_lu t)) (get_last? xs) old
      (λ t k. omega (arith, text_line-length "time" (print_lu t), print_lu-length t k))
      (get_last?-OfSome IsU64 xs h) g

pub uptime-InBuffer :
    (xs : List Uptime) (old : Bytes)
    → All SizedUptime xs
    → InBuffer old
    → InBuffer (new_text (uptime_to_str xs) old)
unfolding uptime_to_str
uptime-InBuffer xs old h g =
    of_last-InBuffer SizedUptime (λ up. record_line "uptime" (comma_list (uptime_values up)))
      (get_last? xs) old
      (λ up k. omega (
        arith,
        numbers_line-length "uptime" (uptime_values up)
            (k.total_sec, (k.year, (k.month, (k.day, (k.hour, (k.minute, tt)))))),
      ))
      (get_last?-OfSome SizedUptime xs h) g

pub mem-InBuffer :
    (xs : List MemStat) (old : Bytes)
    → All SizedMem xs
    → InBuffer old
    → InBuffer (new_text (mem_to_str xs) old)
unfolding mem_to_str
mem-InBuffer xs old h g =
    of_last-InBuffer SizedMem (λ m. record_line "mem" (comma_list (mem_values m))) (get_last? xs)
      old
      (λ m k. omega (
        arith,
        numbers_line-length "mem" (mem_values m) (k.total_kb, (k.used_kb, (k.free_kb, tt))),
      ))
      (get_last?-OfSome SizedMem xs h) g

pub swap-InBuffer :
    (xs : List SwapStat) (old : Bytes)
    → All SizedSwap xs
    → InBuffer old
    → InBuffer (new_text (swap_to_str xs) old)
unfolding swap_to_str
swap-InBuffer xs old h g =
    of_last-InBuffer SizedSwap (λ m. record_line "swap" (comma_list (swap_values m))) (get_last? xs)
      old
      (λ m k. omega (
        arith,
        numbers_line-length "swap" (swap_values m) (k.total_kb, (k.used_kb, (k.free_kb, tt))),
      ))
      (get_last?-OfSome SizedSwap xs h) g
