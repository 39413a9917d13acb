-- ===== src/Tests/Buffers.antt =====
-- The record buffers and the types of the records, in a run of the program.
use zsr.Prelude.{
  ℕ, ◌≡◌, refl, ap, zero, suc, true, none, some, List, [], ◌∷◌, Bytes, codes, length, replicate,
  arith,
}
use zsr.Double.{symbolic}
use zsr.Network.{RtnlLink, packet}
use zsr.Host.{user_process}
use zsr.Modules.Print.{record_line}
use zsr.Modules.Lines.{each}
use zsr.Modules.Handlers.{SystemView}
use zsr.Modules.Buffer.{fill_proc, sprintf_loop, snprintf_loop}
use zsr.Modules.Buffer.Loops.{within, loops-within}
use zsr.Modules.Buffer.Fills.{fill_proc-none}
use zsr.Proc.Listing.{zero_proc}
use zsr.Tests.Program.{view}

-- A mount, a user and an interface, and one entry of /proc.
abbrev busy : ℕ → SystemView
busy i = record (view 1416549600) {
  proc = record {
    cpu = none;
    entries =
        some
          (record { name = codes "7"; is_dir = true; stat = none; status = none; exe = none } ∷ []);
    users = record { getpwuid = λ uid. none; getgrgid = λ gid. none };
    totalram = none;
  };
  addrs = some (
      record {
        name = codes "eth0";
        family = some packet;
        host = none;
        mask = none;
        link = some (record {
          tx_packets = 2;
          rx_packets = 3;
          tx_bytes = 120;
          rx_bytes = 18446744073709551615;
        });
      }
      ∷ []);
  mounts = some (
      record {
        mnt_fsname = codes "/dev/sda1";
        mnt_dir = codes "/";
        mnt_type = codes "ext4";
        statfs = some (record {
          f_bsize = 4096;
          f_blocks = 100;
          f_bfree = 40;
          f_bavail = 30;
          f_files = 50;
          f_ffree = 20;
        });
      }
      ∷ []);
  utmp =
      record {
        ut_type = user_process;
        ut_user = codes "root";
        ut_line = codes "tty1";
        ut_host = codes "";
        ut_time = 1416549600;
      }
      ∷ [];
}

-- Two links.
abbrev two_links : List RtnlLink
two_links =
    record { dev = codes "lo"; tx_packet = 1; rx_packet = 1; tx_byte = 60; rx_byte = 60 }
    ∷ record { dev = codes "eth0"; tx_packet = 2; rx_packet = 3; tx_byte = 120; rx_byte = 200 }
    ∷ []

-- Two name servers.
abbrev two_servers : List Bytes
two_servers = codes "8.8.8.8" ∷ codes "9.9.9.9" ∷ []

loops-within_example :
    (sprintf_loop (record_line "dns") [] two_servers
      ≡ within (each (record_line "dns") two_servers))
    × (snprintf_loop (record_line "dns") 0 [] two_servers
        ≡ sprintf_loop (record_line "dns") [] two_servers)
loops-within_example = loops-within (record_line "dns") two_servers (omega arith, (omega arith, tt))

length-replicate : {A : Type 0} (n : ℕ) (a : A) → length (replicate n a) ≡ n
length-replicate zero a = refl
length-replicate (suc n) a = ap suc (length-replicate n a)

fill_proc-none_example : fill_proc symbolic (replicate 45591 (zero_proc symbolic)) ≡ none
fill_proc-none_example =
    fill_proc-none symbolic (replicate 45591 (zero_proc symbolic))
      (omega (arith, length-replicate 45591 (zero_proc symbolic)))
