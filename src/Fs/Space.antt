-- ===== src/Fs/Space.antt =====
-- The space and the inodes of a file system add up.
use zsr.Prelude.{
  ℕ, ◌+◌, ◌-◌, ◌*◌, ◌≤◌, ◌<◌, ◌≡◌, refl, ap, ◌∙◌, Option, some, arith, u64_mod, sub64, sub64_exact,
}
use native.Mathlib.Nat.{mul-le-mul_right}
use zsr.Double.{Double}
use zsr.Fs.{Statfs, FsNumbers, mul64, fs_numbers, set_fs_stat}

-- What a file system answers: its free blocks are among its blocks, those for users among the free
-- ones, and its size in bytes fits into 64 bits.
pub record IsSound (fs : Statfs) : Type 0 where
  pub free : fs.f_bfree ≤ fs.f_blocks
  pub avail : fs.f_bavail ≤ fs.f_bfree
  pub blocks : fs.f_blocks < u64_mod
  pub bytes : fs.f_blocks * fs.f_bsize < u64_mod
  pub ifree : fs.f_ffree ≤ fs.f_files
  pub files : fs.f_files < u64_mod

mul64_exact : (a b : ℕ) → a * b < u64_mod → mul64 a b ≡ a * b
unfolding mul64
mul64_exact a b h = omega arith

sub_mul : (a b c : ℕ) → b ≤ a → (a - b) * c + b * c ≡ a * c
sub_mul a b c h = let e : a - b + b ≡ a = omega arith in omega (arith, ap (λ (t : ℕ). t * c) e)

module _ (D : Double) where
  open D use {F}

  -- Where `statfs` succeeds with sound numbers, the total is exact, the used and the free space add up
  -- to it, the used space and that for users stay within it, and the used and the free inodes add up
  -- to all of them. What the node held before does not matter.
  pub set_fs_stat-parts :
      (fs : Statfs) (old : Option (FsNumbers F))
      → IsSound fs
      → (n : FsNumbers F) × (set_fs_stat D (some fs) old ≡ some n)
        × (n.total ≡ fs.f_blocks * fs.f_bsize)
        × (n.used + fs.f_bfree * fs.f_bsize ≡ n.total)
        × (n.used + n.available ≤ n.total)
        × (n.iused + n.ifree ≡ n.inodes)
  unfolding set_fs_stat fs_numbers
  set_fs_stat-parts fs old h = (fs_numbers D fs, refl, total, used_free, within, inodes)
    where
      size : ℕ
      size = fs.f_bsize

      parts : (fs.f_blocks - fs.f_bfree) * size + fs.f_bfree * size ≡ fs.f_blocks * size
      parts = sub_mul fs.f_blocks fs.f_bfree size h.free

      avail : fs.f_bavail * size ≤ fs.f_bfree * size
      avail = mul-le-mul_right size h.avail

      total : mul64 fs.f_blocks size ≡ fs.f_blocks * size
      total = mul64_exact fs.f_blocks size h.bytes

      used : mul64 (sub64 fs.f_blocks fs.f_bfree) size ≡ (fs.f_blocks - fs.f_bfree) * size
      used =
          ap (λ b. mul64 b size) (sub64_exact fs.f_blocks fs.f_bfree h.free h.blocks)
          ∙ mul64_exact (fs.f_blocks - fs.f_bfree) size (omega (arith, parts, h.bytes))

      available : mul64 fs.f_bavail size ≡ fs.f_bavail * size
      available = mul64_exact fs.f_bavail size (omega (arith, parts, avail, h.bytes))

      used_free :
          mul64 (sub64 fs.f_blocks fs.f_bfree) size + fs.f_bfree * size ≡ mul64 fs.f_blocks size
      used_free = omega (arith, used, total, parts)

      within :
          mul64 (sub64 fs.f_blocks fs.f_bfree) size + mul64 fs.f_bavail size
          ≤ mul64 fs.f_blocks size
      within = omega (arith, used, total, parts, available, avail)

      inodes : sub64 fs.f_files fs.f_ffree + fs.f_ffree ≡ fs.f_files
      inodes = omega (arith, sub64_exact fs.f_files fs.f_ffree h.ifree h.files, h.ifree)
