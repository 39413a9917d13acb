-- ===== src/Modules/Sized/Mounts.antt =====
-- The fields and the numbers of the mounts that read_fs_stat of libzsr/fs.c lists.
use zsr.Prelude.{inl, inr, Option, none, some, List, [], ◌∷◌, codes, All, Bool-cases, sub64, arith}
use zsr.Libc.Text.{starts_with}
use zsr.Double.{Double}
use zsr.Fs.{Statfs, Mount, mul64, fs_numbers, set_fs_stat, mounts, read_fs_stat}
use zsr.Modules.Sized.{IsU64, SizedNumbers, SizedAssigned, SizedFs}
use zsr.Modules.Sized.Answers.{take-IsField, OfSome}

-- The two numbers of `statfs` that are passed on as they are.
pub record SizedStatfs (fs : Statfs) : Type 0 where
  pub f_files : IsU64 fs.f_files
  pub f_ffree : IsU64 fs.f_ffree

module _ (D : Double) where
  open D use {F}

  fs_numbers-Sized : (fs : Statfs) → SizedStatfs fs → SizedNumbers (fs_numbers D fs)
  unfolding fs_numbers mul64 sub64
  fs_numbers-Sized fs h = record {
    total = omega arith;
    used = omega arith;
    available = omega arith;
    inodes = h.f_files;
    iused = omega arith;
    ifree = h.f_ffree;
  }

  set_fs_stat-Sized :
      (o : Option Statfs) → OfSome SizedStatfs o → SizedAssigned (set_fs_stat D o none)
  unfolding set_fs_stat
  set_fs_stat-Sized none h = tt
  set_fs_stat-Sized (some fs) h = fs_numbers-Sized fs h

  mounts-Sized :
      (mns : List Mount) → All (λ mn. OfSome SizedStatfs mn.statfs) mns → All SizedFs (mounts D mns)
  unfolding mounts
  mounts-Sized [] h = tt
  mounts-Sized (mn ∷ mns) (fit, h) = elim (Bool-cases (starts_with (codes "/") mn.mnt_fsname)) [
    | inl device ↦ rw device (
      record {
        mnt_fsname = take-IsField 1024 mn.mnt_fsname;
        mnt_dir = take-IsField 1024 mn.mnt_dir;
        mnt_type = take-IsField 32 mn.mnt_type;
        numbers = set_fs_stat-Sized mn.statfs fit;
      },
      mounts-Sized mns h,
    )
    | inr other ↦ rw other (mounts-Sized mns h)
  ]

  pub read_fs_stat-Sized :
      (mns : Option (List Mount))
      → OfSome (All (λ mn. OfSome SizedStatfs mn.statfs)) mns
      → All SizedFs (read_fs_stat D mns).0
  unfolding read_fs_stat
  read_fs_stat-Sized none h = tt
  read_fs_stat-Sized (some mns) h = mounts-Sized mns h
