-- ===== src/Proc/Status/Reading.antt =====
-- What `read_pid_status` reads from /proc/<pid>/status.
use zsr.Prelude.{
  ℕ, ◌^◌, ◌≤◌, ◌<◌, ◌≡◌, refl, ap, ◌∙◌, false, true, some, List, [], ◌∷◌, ◌++◌, append_assoc, map,
  Bytes, String, codes, length, ltb, replicate, max_u64, All, arith,
}
use zsr.Libc.Text.{starts_with}
use zsr.Libc.Lines.{newline, join_lines, FitsBuffer, lines-join_lines}
use zsr.Libc.Scan.{scan_lu, scan_lu_or}
use zsr.Libc.Print.{print_lu}
use zsr.Libc.Print.RoundTrip.{scan_lu-tab, scan_lu-print_lu, Stops}
use zsr.Meminfo.Reading.{scan_lu_or-padded}
use zsr.Proc.{Proc}
use zsr.Proc.Status.{Passwd, Users, status_lines, with_user, read_pid_status}

-- `Uid:`, the real user and the other three.
abbrev pub uid_line : ℕ → Bytes → Bytes
uid_line uid more = codes "Uid:" ++ 9 ∷ (print_lu uid ++ more)

-- `<name>`, a tab, the number flushed right and its unit.
abbrev pub size_line : String → ℕ → ℕ → Bytes
size_line name pad n = codes name ++ 9 ∷ (replicate pad 32 ++ (print_lu n ++ codes " kB"))

-- A line that the loop passes over.
pub record IsOther (l : Bytes) : Type 0 where
  pub no_uid : starts_with (codes "Uid:") (l ++ newline ∷ []) ≡ false
  pub no_size : starts_with (codes "VmSize:") (l ++ newline ∷ []) ≡ false
  pub no_rss : starts_with (codes "VmRSS:") (l ++ newline ∷ []) ≡ false

-- The text: three lines that are read, in the order of the kernel, between others.
pub record StatusText : Type 0 where
  pub before : List Bytes
  pub uid : ℕ
  pub uids : Bytes
  pub between : List Bytes
  pub size_pad : ℕ
  pub size_kb : ℕ
  pub between' : List Bytes
  pub rss_pad : ℕ
  pub rss_kb : ℕ
  pub rest : Bytes

abbrev pub status_head : StatusText → List Bytes
status_head t =
    t.before
    ++ (uid_line t.uid t.uids
        ∷ (t.between
            ++ (size_line "VmSize:" t.size_pad t.size_kb
                ∷ (t.between' ++ (size_line "VmRSS:" t.rss_pad t.rss_kb ∷ [])))))

abbrev pub status_text : StatusText → Bytes
status_text t = join_lines (status_head t) ++ t.rest

pub record IsStatus (t : StatusText) : Type 0 where
  pub lines : All (FitsBuffer 128) (status_head t)
  pub before : All IsOther t.before
  pub between : All IsOther t.between
  pub between' : All IsOther t.between'
  pub uid : t.uid < 2 ^ 32
  pub uids : Stops (t.uids ++ newline ∷ [])
  pub size : t.size_kb ≤ max_u64
  pub rss : t.rss_kb ≤ max_u64

-- The user of the process and its group have names that fit their fields.
pub record HasUser (users : Users) (uid : ℕ) (pw : Passwd) (group : Bytes) : Type 0 where
  pub entry : users.getpwuid uid ≡ some pw
  pub user_short : length pw.pw_name < 128
  pub group_entry : users.getgrgid pw.pw_gid ≡ some group
  pub group_short : length group < 128

scan_lu_or-tab : (old : ℕ) (s : Bytes) → scan_lu_or old (9 ∷ s) ≡ scan_lu_or old s
unfolding scan_lu_or
scan_lu_or-tab old s = rw (scan_lu-tab s) refl

-- The size with the newline that `fgets` leaves in the buffer.
scan_lu_or-size :
    (old pad n : ℕ)
    → n ≤ max_u64
    → scan_lu_or old (9 ∷ ((replicate pad 32 ++ (print_lu n ++ codes " kB")) ++ newline ∷ [])) ≡ n
scan_lu_or-size old pad n fits =
    scan_lu_or-tab old _
    ∙ ap (scan_lu_or old) (
        append_assoc (replicate pad 32) (print_lu n ++ codes " kB") (newline ∷ [])
        ∙ ap (λ t. replicate pad 32 ++ t) (append_assoc (print_lu n) (codes " kB") (newline ∷ [])))
    ∙ scan_lu_or-padded old pad n (codes " kB" ++ newline ∷ []) fits refl

scan_lu-uid :
    (n : ℕ) (more : Bytes)
    → n < 2 ^ 32
    → Stops (more ++ newline ∷ [])
    → scan_lu (9 ∷ ((print_lu n ++ more) ++ newline ∷ [])) ≡ some (n, more ++ newline ∷ [])
scan_lu-uid n more fits stops =
    scan_lu-tab _
    ∙ ap scan_lu (append_assoc (print_lu n) more (newline ∷ []))
    ∙ scan_lu-print_lu n (more ++ newline ∷ []) (omega arith) stops

abbrev terminated : List Bytes → List Bytes
terminated ls = map (λ l. l ++ newline ∷ []) ls

module _ {F : Type 0} where
  status_lines-other :
      (ls : List Bytes) (tail : List Bytes) (bufs : List Bytes) (uid : ℕ) (p : Proc F)
      → All IsOther ls
      → status_lines (terminated (ls ++ tail) ++ bufs) uid p
        ≡ status_lines (terminated tail ++ bufs) uid p
  unfolding status_lines
  status_lines-other [] tail bufs uid p h = refl
  status_lines-other (l ∷ ls) tail bufs uid p (o, h) =
      rw (status_lines, o.no_uid, o.no_size, o.no_rss) (status_lines-other ls tail bufs uid p h)

  status_lines-uid :
      (n : ℕ) (more : Bytes) (bufs : List Bytes) (uid : ℕ) (p : Proc F)
      → n < 2 ^ 32
      → Stops (more ++ newline ∷ [])
      → status_lines ((uid_line n more ++ newline ∷ []) ∷ bufs) uid p ≡ status_lines bufs n p
  unfolding status_lines starts_with
  status_lines-uid n more bufs uid p fits stops =
      rw (scan_lu-uid n more fits stops) (ap (λ k. status_lines bufs k p) (omega arith))

  status_lines-size :
      (pad n : ℕ) (bufs : List Bytes) (uid : ℕ) (p : Proc F)
      → n ≤ max_u64
      → status_lines ((size_line "VmSize:" pad n ++ newline ∷ []) ∷ bufs) uid p
        ≡ status_lines bufs uid (record p { virt_mem_kb = n })
  unfolding status_lines starts_with
  status_lines-size pad n bufs uid p fits =
      ap (λ k. status_lines bufs uid (record p { virt_mem_kb = k }))
        (scan_lu_or-size p.virt_mem_kb pad n fits)

  status_lines-rss :
      (pad n : ℕ) (bufs : List Bytes) (uid : ℕ) (p : Proc F)
      → n ≤ max_u64
      → status_lines ((size_line "VmRSS:" pad n ++ newline ∷ []) ∷ bufs) uid p
        ≡ (uid, record p { res_mem_kb = n })
  unfolding status_lines starts_with
  status_lines-rss pad n bufs uid p fits =
      ap (λ k. (uid, record p { res_mem_kb = k })) (scan_lu_or-size p.res_mem_kb pad n fits)

  status_lines-text :
      (t : StatusText) (bufs : List Bytes) (p : Proc F)
      → IsStatus t
      → status_lines (terminated (status_head t) ++ bufs) 0 p
        ≡ (t.uid, record p { virt_mem_kb = t.size_kb; res_mem_kb = t.rss_kb })
  status_lines-text t bufs p h =
      status_lines-other t.before _ bufs 0 p h.before
      ∙ status_lines-uid t.uid t.uids _ 0 p h.uid h.uids
      ∙ status_lines-other t.between _ bufs t.uid p h.between
      ∙ status_lines-size t.size_pad t.size_kb _ t.uid p h.size
      ∙ status_lines-other t.between' _ bufs t.uid _ h.between'
      ∙ status_lines-rss t.rss_pad t.rss_kb _ t.uid _ h.rss

  with_user-HasUser :
      (users : Users) (uid : ℕ) (pw : Passwd) (group : Bytes) (p : Proc F)
      → HasUser users uid pw group
      → with_user users p (users.getpwuid uid)
        ≡ some (record p { user = pw.pw_name; group = group })
  with_user-HasUser users uid pw group p h =
      let short : ltb (length pw.pw_name) 128 ≡ true = ground (arith, h.user_short) in
      let short' : ltb (length group) 128 ≡ true = ground (arith, h.group_short) in
      rw (h.entry, short, h.group_entry, short') refl

  -- The names of the real user and of its group, the virtual and the resident memory.
  pub read_pid_status-text :
      (users : Users) (t : StatusText) (pw : Passwd) (group : Bytes) (p : Proc F)
      → IsStatus t
      → HasUser users t.uid pw group
      → read_pid_status users (some (status_text t)) p
        ≡ some (record p {
          virt_mem_kb = t.size_kb;
          res_mem_kb = t.rss_kb;
          user = pw.pw_name;
          group = group;
        })
  unfolding read_pid_status
  read_pid_status-text users t pw group p h has_user =
      rw (lines-join_lines 126 (status_head t) t.rest h.lines, status_lines-text t _ p h)
        (with_user-HasUser users t.uid pw group
          (record p { virt_mem_kb = t.size_kb; res_mem_kb = t.rss_kb }) has_user)
