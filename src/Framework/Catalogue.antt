-- ===== src/Framework/Catalogue.antt =====
-- The constants of zsr/module/mod_*.c (`name`, `opt`, `usage`, `info`) and their registration.
use zsr.Prelude.{List, [], ◌∷◌, Bytes, codes, length}
use zsr.Framework.{Handlers, Module, register_mod_fileds}

-- The four constants at the top of a module's file.
pub record Constants : Type 0 where
  pub name : Bytes
  pub opt : Bytes
  pub usage : Bytes
  pub info : List Bytes

abbrev pub cpu_constants : Constants
cpu_constants = record {
  name = codes "cpu";
  opt = codes "--cpu";
  usage = codes "    --cpu        CPU share\n                 (idle, util, wa)\n";
  info = codes "idle" ∷ codes "util" ∷ codes "wa" ∷ [];
}

abbrev pub dns_constants : Constants
dns_constants = record {
  name = codes "dns";
  opt = codes "--dns";
  usage = codes "    --dns        Domain Name System\n                 (dns)\n";
  info = codes "dns" ∷ [];
}

abbrev pub fs_constants : Constants
fs_constants = record {
  name = codes "fs";
  opt = codes "--fs";
  usage =
      codes
        "    --fs         Report file system disk space usage\n                 (mnt_fsname, mnt_dir, mnt_type, total, used, \n                 available, util, inodes, iused, ifree, iutil)\n";
  info =
      codes "mnt_fsname"
      ∷ codes "mnt_dir"
      ∷ codes "mnt_type"
      ∷ codes "total"
      ∷ codes "used"
      ∷ codes "available"
      ∷ codes "util"
      ∷ codes "inodes"
      ∷ codes "iused"
      ∷ codes "ifree"
      ∷ codes "iutil"
      ∷ [];
}

abbrev pub gateway_constants : Constants
gateway_constants = record {
  name = codes "gateway";
  opt = codes "--gateway";
  usage = codes "    --gateway    Gateway\n                 (gateway)\n";
  info = codes "gateway" ∷ [];
}

abbrev pub io_constants : Constants
io_constants = record {
  name = codes "io";
  opt = codes "--io";
  usage =
      codes
        "    --io         Report input/output statistics for devices and partitions\n                 (dev, tps, util, rrqm/s, wrqm/s, r/s, w/s, rMB/s, wMB/s,\n                 avgrq-sz, avgqu-sz, await, r_await, w_await)\n";
  info =
      codes "dev"
      ∷ codes "tps"
      ∷ codes "util"
      ∷ codes "rrqm/s"
      ∷ codes "wrqm/s"
      ∷ codes "r/s"
      ∷ codes "w/s"
      ∷ codes "rMB/s"
      ∷ codes "wMB/s"
      ∷ codes "await"
      ∷ codes "avgqu-sz"
      ∷ codes "avgqu-sz"
      ∷ codes "r_await"
      ∷ codes "w_await"
      ∷ [];
}

abbrev pub ip_constants : Constants
ip_constants = record {
  name = codes "ip";
  opt = codes "--ip";
  usage = codes "    --ip         IP address\n                 (dev, ip, netmask, ip_version)\n";
  info = codes "dev" ∷ codes "ip" ∷ codes "netmask" ∷ codes "ip_version" ∷ [];
}

abbrev pub load_avg_constants : Constants
load_avg_constants = record {
  name = codes "load_avg";
  opt = codes "--load_avg";
  usage =
      codes "    --load_avg   Load average\n                 (one_min, five_min, fifteen_min)\n";
  info = codes "one_min" ∷ codes "five_min" ∷ codes "fifteen_min" ∷ [];
}

abbrev pub mem_constants : Constants
mem_constants = record {
  name = codes "mem";
  opt = codes "--mem";
  usage =
      codes
        "    --mem        Display amount of free and used memory\n                 (total, used, free)\n";
  info = codes "total" ∷ codes "used" ∷ codes "free" ∷ [];
}

abbrev pub network_constants : Constants
network_constants = record {
  name = codes "network";
  opt = codes "--network";
  usage =
      codes
        "    --network    Display bandwidth usage\n                 (dev, tx_packet, rx_packet, tx_byte, rx_byte)\n";
  info =
      codes "dev" ∷ codes "tx_packet" ∷ codes "rx_packet" ∷ codes "tx_byte" ∷ codes "rx_byte" ∷ [];
}

abbrev pub proc_constants : Constants
proc_constants = record {
  name = codes "proc";
  opt = codes "--proc";
  usage =
      codes
        "    --proc       Display processes\n                 (pid, state, ppid, user, virt_mem_kb, res_mem_kb,\n                 mem_util, start_time, cpu_util, cmd, cmd_path)\n";
  info =
      codes "pid"
      ∷ codes "state"
      ∷ codes "ppid"
      ∷ codes "user"
      ∷ codes "virt_mem_kb"
      ∷ codes "res_mem_kb"
      ∷ codes "mem_util"
      ∷ codes "start_time"
      ∷ codes "cpu_util"
      ∷ codes "cmd"
      ∷ codes "cmd_path"
      ∷ [];
}

abbrev pub swap_constants : Constants
swap_constants = record {
  name = codes "swap";
  opt = codes "--swap";
  usage =
      codes
        "    --swap       Display amount of free and used swap\n                 (total, used, free)\n";
  info = codes "total" ∷ codes "used" ∷ codes "free" ∷ [];
}

abbrev pub time_constants : Constants
time_constants = record {
  name = codes "time";
  opt = codes "--time";
  usage =
      codes
        "    --time       System time(seconds since 1970-01-01 00:00:00 UTC)\n                 (time)\n";
  info = codes "time" ∷ [];
}

abbrev pub uptime_constants : Constants
uptime_constants = record {
  name = codes "uptime";
  opt = codes "--uptime";
  usage =
      codes
        "    --uptime     Tell how long the system has been running\n                 (total_sec, year, month, day, hour, minute)\n";
  info =
      codes "total_sec"
      ∷ codes "year"
      ∷ codes "month"
      ∷ codes "day"
      ∷ codes "hour"
      ∷ codes "minute"
      ∷ [];
}

abbrev pub who_constants : Constants
who_constants = record {
  name = codes "who";
  opt = codes "--who";
  usage =
      codes
        "    --who        Show who is logged in\n                 (username, tty, from, login_time)\n";
  info = codes "username" ∷ codes "tty" ∷ codes "from" ∷ codes "login_time" ∷ [];
}

module _ {S R : Type 0} where
  unfoldable pub register : Constants → Handlers S R → List (Module S R) → List (Module S R)
  unfolding register_mod_fileds
  register c handlers = register_mod_fileds c.name c.info c.opt c.usage (length c.info) handlers

  unfoldable pub mod_cpu_register : Handlers S R → List (Module S R) → List (Module S R)
  unfolding register
  mod_cpu_register = register cpu_constants

  unfoldable pub mod_dns_register : Handlers S R → List (Module S R) → List (Module S R)
  unfolding register
  mod_dns_register = register dns_constants

  unfoldable pub mod_fs_register : Handlers S R → List (Module S R) → List (Module S R)
  unfolding register
  mod_fs_register = register fs_constants

  unfoldable pub mod_gateway_register : Handlers S R → List (Module S R) → List (Module S R)
  unfolding register
  mod_gateway_register = register gateway_constants

  unfoldable pub mod_io_register : Handlers S R → List (Module S R) → List (Module S R)
  unfolding register
  mod_io_register = register io_constants

  unfoldable pub mod_ip_register : Handlers S R → List (Module S R) → List (Module S R)
  unfolding register
  mod_ip_register = register ip_constants

  unfoldable pub mod_load_avg_register : Handlers S R → List (Module S R) → List (Module S R)
  unfolding register
  mod_load_avg_register = register load_avg_constants

  unfoldable pub mod_mem_register : Handlers S R → List (Module S R) → List (Module S R)
  unfolding register
  mod_mem_register = register mem_constants

  unfoldable pub mod_network_register : Handlers S R → List (Module S R) → List (Module S R)
  unfolding register
  mod_network_register = register network_constants

  unfoldable pub mod_proc_register : Handlers S R → List (Module S R) → List (Module S R)
  unfolding register
  mod_proc_register = register proc_constants

  unfoldable pub mod_swap_register : Handlers S R → List (Module S R) → List (Module S R)
  unfolding register
  mod_swap_register = register swap_constants

  unfoldable pub mod_time_register : Handlers S R → List (Module S R) → List (Module S R)
  unfolding register
  mod_time_register = register time_constants

  unfoldable pub mod_uptime_register : Handlers S R → List (Module S R) → List (Module S R)
  unfolding register
  mod_uptime_register = register uptime_constants

  unfoldable pub mod_who_register : Handlers S R → List (Module S R) → List (Module S R)
  unfolding register
  mod_who_register = register who_constants
