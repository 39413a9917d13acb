-- ===== src/Lib.antt =====
-- zsr: a command-line tool and library that reports on a Linux system.
--
-- The library (libzsr/*.c) reads the files of /proc and compares samples; a module of the tool
-- (zsr/module/mod_*.c) collects the records of one part of the system and prints them as lines; the
-- framework (zsr/framework.c) keeps the list of modules; the tool (zsr/tool_zsr.c) enables modules by
-- the command line and makes reports in a loop.
--
-- Which file models which part:
--   Prelude, Prelude/*      names of the libraries, tests, lists over the native numbers, uint64_t
--   Libc, Libc/*            what is used of the C library: ctype, fgets, sscanf and printf of %lu, atoi
--   Double                  C's double as a parameter, and round_with_prec of libzsr/common.c
--   Log, Log/*              libzsr/log.c: print_log, open_log_file, get_size_in_byte
--   Common, Common/*        libzsr/common.c: is_digit, is_ipv4_addr, is_ipv6_addr, print_log_l
--   Uptime, Uptime/*        libzsr/uptime.c: set_uptime, read_uptime_stat
--   Cpu, Cpu/*              libzsr/cpu.c: read_cpu_stat, sum_cpu_stat, compute_cpu_stat, get_num_of_cpu
--   Proc, Proc/*            libzsr/proc.c: the readers of /proc/<pid>, get_all_proc, compute_proc_cpu_stat
--   Io, Io/*                libzsr/io.c: read_io_stat and its two clocks, compute_io_stat
--   Meminfo, Meminfo/*      libzsr/mem.c and libzsr/swap.c: read_mem_stat, read_swap_stat
--   Network, Network/*      libzsr/network.c, libzsr/ip.c, libzsr/dns.c, libzsr/gateway.c
--   Fs, Fs/*                libzsr/fs.c: set_fs_stat, read_fs_stat
--   Host                    libzsr/load_avg.c, libzsr/time.c, libzsr/who.c
--   Modules, Modules/*      collect_record and record_to_str of zsr/module/mod_*.c; Modules/Buffer has the
--                           loops that fill the record buffer, and Modules/Sized the ranges of the fields
--   Framework, Framework/*  zsr/framework.c and .h, and the registrations of zsr/module/mod_*.c
--   Tool, Tool/*            zsr/tool_zsr.c: the functions over the modules, the options, main; in
--                           Tool/Program and Tool/Buffers main with the modules of the framework and
--                           their handlers
--   Tests, Tests/*          runs on concrete inputs
--
-- State and operations. A struct is a record with the fields of the source, without its list links; a
-- list of include/zsr/list.h is the sequence of its entries, and a loop over it a recursion. A
-- function that writes through a pointer returns the new value, and a reader of a file also the calls
-- of the log that it makes. A file is its bytes, or `none` when it cannot be opened, and stays the same
-- during one call. A uint64_t is a number below 2 ^ 64 with its wrap-around written out in `add64` and
-- `sub64`. A read out of the bounds of an array is `none`. An `int` of the command line is taken to be
-- in its range. Text holds no NUL byte.
--
-- Bounds and fuel. The loop over `fgets` has the length of the file as fuel, and each round takes a
-- byte; `print_lu n` has n + 1 rounds, and each drops a digit; the loop of reports has a number of
-- rounds, which may run out only where the loop of the source goes on.
--
-- Parameters. The operations of `double` (nothing is assumed of them but, for the record buffers, how
-- long a text "%.2f" prints: 313 bytes is what the largest double takes), the answers of getopt_long,
-- the handlers of the modules in Framework and Tool (Modules/Handlers has those of the source), time
-- stamp, process id and the success of fopen in Log, the answers of getifaddrs, getnameinfo,
-- inet_ntop, inet_pton, the resolver, statfs, getmntent, getutent, readdir, readlink, getpwuid,
-- getgrgid, sysconf and sysinfo, and the conversion %f. A handler that does not return, since it ends the
-- process, faults or writes past an array, leaves the mark `ended` in the records; the loop of `main`
-- reads it behind each collection and stops there, with the mark `ended` of the run.
--
-- Memory. Modules/Memory and, for all modules together, Tool/Release follow the blocks of the record
-- lists and of the list of modules by the number of their malloc, for any number of entries that the
-- library adds, loses or frees itself; the values of the entries are in the other files. The record
-- buffer is the text in
-- it; record_to_str gives the whole text, and Modules/Buffer follows the calls that store it, with
-- `none` for a write past the end of the buffer.
--
-- Text that fills its array has no NUL. The lines of mod_who.c and mod_fs.c read on there, through the
-- next arrays and into the bytes of the number behind them, at most eight; the texts of the other
-- structs are shorter than their arrays (INET6_ADDRSTRLEN, IFNAMSIZ), which SizedView states.
--
-- The reports print a text up to its first NUL, as mod_proc.c writes one for a state 0. A text that
-- does not fit its record buffer is kept whole there; AllReturn of Tool/Main/Rounds leaves out such rounds.
--
-- Not modelled: the memory that an overrun changes; for the numbers of a file system that were not
-- assigned, one value stands for what the memory
-- held; and include/zsr/list.h but for FREE_LIST_HEAD, since it is a header of the Linux kernel.
pub mod Prelude
pub mod Libc
pub mod Log
pub mod Common
pub mod Uptime
pub mod Double
pub mod Cpu
pub mod Proc
pub mod Io
pub mod Meminfo
pub mod Network
pub mod Fs
pub mod Host
pub mod Modules
pub mod Framework
pub mod Tool
pub mod Tests
