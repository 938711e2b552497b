-- ===== src/ControlPlane/Log/Load.antt =====
-- nvfuse_load_container_table() where the newer table stands in log file 0: the number 0 also stands
-- for no file found.
use nvfuse.Prelude.{
  ℕ, suc, ◌+◌, ◌^◌, ◌≤◌, ◌<◌, ◌≡◌, refl, ap, ◌∙◌, false, some, arith, List, if◌then◌else◌,
}
use nvfuse.ControlPlane.Log.Storage.{Storage}
use nvfuse.ControlPlane.Log.Defs.{
  gt_s64, get_generation, Latest, Memory, scan_logs, load_container_table,
}

module _ (st : Storage) where
  open st use {Files, alloc_buffer, open_file, read_file, close_file}

  scan-opened :
      (n k fd : ℕ) (l : Latest) (fs fs1 : Files) (buf : List ℕ)
      → open_file fs k false ≡ (fs1, some fd)
      → read_file fs1 fd 0 ≡ some buf
      → scan_logs st (suc n) k l fs
        ≡ scan_logs st n
            (k + 1)
            (if gt_s64 (get_generation buf) (l.max_generation)
              then record { log_file = k; max_generation = get_generation buf }
              else l)
            (close_file fs1 fd)
  unfolding scan_logs
  scan-opened n k fd l fs fs1 buf o r =
      rw (ap (λ p. p.1) o, scan_logs, ap (λ p. p.0) o, r)
        (ap
          (λ p.
            scan_logs st n (k + 1)
              (if gt_s64 (get_generation buf) (l.max_generation)
                then record { log_file = k; max_generation = get_generation buf }
                else l)
              (close_file (p.0) fd))
          o)

  scan-done : (k : ℕ) (l : Latest) (fs : Files) → scan_logs st 0 k l fs ≡ (fs, some l)
  unfolding scan_logs
  scan-done k l fs = refl

  -- What the scan keeps of the first file, whether its generation is positive or not.
  first_latest : (g : ℕ) → Latest
  first_latest g =
      if gt_s64 g 0
      then record { log_file = 0; max_generation = g }
      else record { log_file = 0; max_generation = 0 }

  keeps_first :
      (g h : ℕ)
      → g < 2 ^ 63
      → h ≤ g
      → (if gt_s64 h ((first_latest g).max_generation)
          then record { log_file = 1; max_generation = h }
          else first_latest g)
        ≡ first_latest g
  unfolding first_latest gt_s64
  keeps_first g h b le = ground arith

  first_log_file : (g : ℕ) → (first_latest g).log_file ≡ 0
  unfolding first_latest
  first_log_file g = ground arith

  load-none :
      (size : ℕ) (m : Memory) (fs fs1 : Files) (b : List ℕ) (l : Latest)
      → alloc_buffer fs ≡ some b
      → scan_logs st (m.cursor.max_log_file) 0 (record { log_file = 0; max_generation = 0 }) fs
        ≡ (fs1, some l)
      → l.log_file ≡ 0
      → load_container_table st size m fs ≡ (m, fs1)
  unfolding load_container_table
  load-none size m fs fs1 b l a s z =
      rw (a, load_container_table, ap (λ p. p.1) s, load_container_table, z, ap (λ p. p.0) s)

  -- With two log files that can be read, if the generation in file 0 is at least the one in file 1,
  -- the load changes neither the table nor its cursor: what was stored last is not read back.
  pub load_container_table-first :
      (size fd0 fd1 : ℕ) (m : Memory) (fs fs0 fs1 : Files) (b buf0 buf1 : List ℕ)
      → m.cursor.max_log_file ≡ 2
      → alloc_buffer fs ≡ some b
      → open_file fs 0 false ≡ (fs0, some fd0)
      → read_file fs0 fd0 0 ≡ some buf0
      → open_file (close_file fs0 fd0) 1 false ≡ (fs1, some fd1)
      → read_file fs1 fd1 0 ≡ some buf1
      → get_generation buf0 < 2 ^ 63
      → get_generation buf1 ≤ get_generation buf0
      → load_container_table st size m fs ≡ (m, close_file fs1 fd1)
  unfolding first_latest
  load_container_table-first size fd0 fd1 m fs fs0 fs1 b buf0 buf1 two a o0 r0 o1 r1 bound le =
      load-none size m fs (close_file fs1 fd1) b (first_latest (get_generation buf0)) a scanned
        (first_log_file (get_generation buf0))
    where
      scanned :
          scan_logs st (m.cursor.max_log_file) 0 (record { log_file = 0; max_generation = 0 }) fs
          ≡ (close_file fs1 fd1, some (first_latest (get_generation buf0)))
      scanned =
          ap (λ n. scan_logs st n 0 (record { log_file = 0; max_generation = 0 }) fs) two
          ∙ scan-opened 1 0 fd0 _ fs fs0 buf0 o0 r0
          ∙ scan-opened 0 1 fd1 _ (close_file fs0 fd0) fs1 buf1 o1 r1
          ∙ scan-done 2 _ (close_file fs1 fd1)
          ∙ ap (λ l. (close_file fs1 fd1, some l))
              (keeps_first (get_generation buf0) (get_generation buf1) bound le)
