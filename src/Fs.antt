-- ===== src/Fs.antt =====
-- libzsr/fs.c: set_fs_stat and read_fs_stat. The answers of statfs and getmntent come from outside; the
-- list links are left out. A node comes from `malloc` and is not cleared: `none` stands for numbers
-- that nothing was assigned to.
pub mod Space
use zsr.Prelude.{
  ℕ, ◌*◌, ◌%◌, Option, none, some, List, [], ◌∷◌, Bytes, codes, u64_mod, sub64, if◌then◌else◌,
}
use zsr.Libc.Text.{starts_with}
use zsr.Log.{LogCall, log_error_of}
use zsr.Double.{Double, round_with_prec}
use zsr.Network.{take}

-- `struct statfs`, as far as it is read.
pub record Statfs : Type 0 where
  pub f_bsize : ℕ
  pub f_blocks : ℕ
  pub f_bfree : ℕ
  pub f_bavail : ℕ
  pub f_files : ℕ
  pub f_ffree : ℕ

-- The numbers of `fs_stat_t`.
pub record FsNumbers (F : Type 0) : Type 0 where
  pub total : ℕ
  pub used : ℕ
  pub available : ℕ
  pub util : F
  pub inodes : ℕ
  pub iused : ℕ
  pub ifree : ℕ
  pub iutil : F

-- `fs_stat_t`.
pub record FsStat (F : Type 0) : Type 0 where
  pub mnt_fsname : Bytes
  pub mnt_dir : Bytes
  pub mnt_type : Bytes
  pub numbers : Option (FsNumbers F)

-- An entry of the mount table, with what `statfs` answers for its directory, none if it fails.
pub record Mount : Type 0 where
  pub mnt_fsname : Bytes
  pub mnt_dir : Bytes
  pub mnt_type : Bytes
  pub statfs : Option Statfs

-- The product of two numbers of 64 bits.
unfoldable pub mul64 : ℕ → ℕ → ℕ
mul64 a b = a * b % u64_mod

module _ (D : Double) where
  open D use {F, of_u64, sub, div}

  unfoldable pub fs_numbers : Statfs → FsNumbers F
  fs_numbers fs =
      let total = mul64 fs.f_blocks fs.f_bsize in
      let available = mul64 fs.f_bavail fs.f_bsize in
      let iused = sub64 fs.f_files fs.f_ffree in
      record {
        total = total;
        used = mul64 (sub64 fs.f_blocks fs.f_bfree) fs.f_bsize;
        available = available;
        util = round_with_prec D (sub (of_u64 1) (div (of_u64 available) (of_u64 total))) 2;
        inodes = fs.f_files;
        iused = iused;
        ifree = fs.f_ffree;
        iutil = round_with_prec D (div (of_u64 iused) (of_u64 fs.f_files)) 2;
      }

  -- The numbers of the node afterwards.
  unfoldable pub set_fs_stat : Option Statfs → Option (FsNumbers F) → Option (FsNumbers F)
  set_fs_stat none numbers = numbers
  set_fs_stat (some fs) numbers = some (fs_numbers fs)

  abbrev fs_node : Mount → FsStat F
  fs_node mn = record {
    mnt_fsname = take 1024 mn.mnt_fsname;
    mnt_dir = take 1024 mn.mnt_dir;
    mnt_type = take 32 mn.mnt_type;
    numbers = set_fs_stat mn.statfs none;
  }

  -- The loop: the file systems whose name begins with '/'.
  unfoldable pub mounts : List Mount → List (FsStat F)
  mounts [] = []
  mounts (mn ∷ mns) =
      let rest = mounts mns in
      if starts_with (codes "/") mn.mnt_fsname then fs_node mn ∷ rest else rest

  -- `none` where /etc/mtab cannot be opened.
  unfoldable pub read_fs_stat : Option (List Mount) → List (FsStat F) × List LogCall
  read_fs_stat none = ([], log_error_of "/etc/mtab" ∷ [])
  read_fs_stat (some mns) = (mounts mns, [])
