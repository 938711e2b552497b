-- ===== src/ControlPlane/Log/Defs.antt =====
-- nvfuse_store_container_table() and nvfuse_load_container_table(), with the memory of the table as
-- bytes.
use nvfuse.Prelude.{
  ℕ, zero, suc, ◌+◌, ◌-◌, ◌/◌, ◌%◌, ◌^◌, Option, none, some, List, [], ◌∷◌, ◌++◌, Bool, true, false,
  ◌&&◌, take, drop, length, replicate, ltb, ◌==◌, if◌then◌else◌,
}
use nvfuse.Prelude.Int.{ℤ, pos, negsuc}
use nvfuse.Bytes.{bytes_of, value_of}
use nvfuse.ControlPlane.State.{Reservation, Cursor, ControlPlane}
use nvfuse.ControlPlane.Log.Storage.{Storage}

-- LOG_CHUNK_SIZE
abbrev pub chunk_size : ℕ
chunk_size = 4096

-- *(s64 *)buf = generation, and the read of it
unfoldable pub put_generation : ℕ → List ℕ → List ℕ
put_generation g buf = bytes_of 8 g ++ drop 8 buf

unfoldable pub get_generation : List ℕ → ℕ
get_generation buf = value_of 8 buf

-- a > b on s64 bit patterns, where b is not negative
unfoldable pub gt_s64 : ℕ → ℕ → Bool
gt_s64 a b = ltb a (2 ^ 63) && ltb b a

-- How often `while (offset < size + chunk_size) { ...; offset += chunk_size; }` goes round.
abbrev pub chunk_rounds : ℕ → ℕ
chunk_rounds size = (size + chunk_size + (chunk_size - 1)) / chunk_size

-- The table in memory: three little-endian words a row, padded with zeros to the table's size.
unfoldable pub rows_image : List Reservation → List ℕ
rows_image [] = []
rows_image (r ∷ t) =
    bytes_of 4 r.owner_core_id ++ (bytes_of 4 r.status ++ (bytes_of 4 r.ref_count ++ rows_image t))

unfoldable pub table_image : ControlPlane → List ℕ
unfolding rows_image
table_image cp =
    let bytes = rows_image cp.reservation_table in
    bytes ++ replicate (cp.reservation_table_size - length bytes) 0

-- A result of the scan for the latest log.
pub record Latest : Type 0 where
  pub log_file : ℕ
  pub max_generation : ℕ

-- The table's memory and its cursor, which a load overwrites.
pub record Memory : Type 0 where
  pub table : List ℕ
  pub cursor : Cursor

-- rte_memcpy(p + at, buf, chunk_size)
unfoldable pub copy_in : List ℕ → ℕ → List ℕ → List ℕ
copy_in table at buf = take at table ++ (take chunk_size buf ++ drop (at + chunk_size) table)

module _ (st : Storage) where
  open st use {Files, alloc_buffer, open_file, write_file, read_file, close_file, check_flush_dirty}

  -- The write loop. The Boolean is false if a write came back short.
  unfoldable pub write_chunks :
      (fd : ℕ) → List ℕ → (rounds offset : ℕ) → List ℕ → Cursor → Files → Cursor × Files × Bool
  unfolding put_generation
  write_chunks fd table zero offset buf c fs = (c, fs, true)
  write_chunks fd table (suc rounds) offset buf c fs =
      let first = offset == 0 in
      let c' : Cursor =
        if first then record c { generation = (c.generation + 1) % 2 ^ 64 } else c in
      let buf' : List ℕ =
        if first
        then put_generation c.generation buf
        else take chunk_size (drop (offset - chunk_size) table) in
      let (fs', done) = write_file fs fd buf' offset in
      let rest = write_chunks fd table rounds (offset + chunk_size) buf' c' fs' in
      if done then rest else (c', fs', false)

  -- The result is what the function returns: -1, or the length of the last write.
  unfoldable pub store_table : List ℕ → ℕ → Cursor → Files → Cursor × Files × ℤ
  unfolding write_chunks
  store_table table size c fs = elim (alloc_buffer fs) [
    | none ↦ (c, fs, negsuc 0)
    | some buf ↦
        let c' : Cursor = record c { cur_log_file = (c.cur_log_file + 1) % c.max_log_file } in
        let (fs1, opened) = open_file fs c.cur_log_file true in
        elim opened [
          | none ↦ (c', fs1, negsuc 0)
          | some fd ↦
              let (c2, fs2, done) = write_chunks fd table (chunk_rounds size) 0 buf c' fs1 in
              if done
              then (c2, close_file (check_flush_dirty fs2) fd, pos chunk_size)
              else (c2, fs2, negsuc 0)
        ]
  ]

  -- nvfuse_store_container_table()
  unfoldable pub store_container_table : ControlPlane → Files → ControlPlane × Files × ℤ
  unfolding store_table
  store_container_table cp fs =
      let (c, fs', ret) =
        store_table (table_image cp) cp.reservation_table_size cp.container_log fs in
      (record cp { container_log = c }, fs', ret)

  -- The scan for the latest log; `none` if a file could be opened and not read.
  unfoldable pub scan_logs : (rounds curr_log : ℕ) → Latest → Files → Files × Option Latest
  unfolding get_generation gt_s64
  scan_logs zero curr_log l fs = (fs, some l)
  scan_logs (suc rounds) curr_log l fs =
      let (fs1, opened) = open_file fs curr_log false in
      elim opened [
        | none ↦ scan_logs rounds (curr_log + 1) l fs1
        | some fd ↦ elim (read_file fs1 fd 0) [
          | none ↦ (fs1, none)
          | some buf ↦
              scan_logs rounds (curr_log + 1)
                (if gt_s64 (get_generation buf) l.max_generation
                  then record { log_file = curr_log; max_generation = get_generation buf }
                  else l)
                (close_file fs1 fd)
        ]
      ]

  -- The read loop. The Boolean is false if a read came back short.
  unfoldable pub read_chunks : (fd : ℕ) → (rounds offset : ℕ) → Memory → Files → Memory × Bool
  unfolding get_generation copy_in
  read_chunks fd zero offset m fs = (m, true)
  read_chunks fd (suc rounds) offset m fs = elim (read_file fs fd offset) [
    | none ↦ (m, false)
    | some buf ↦
        read_chunks fd rounds (offset + chunk_size)
          (if offset == 0
            then record m {
              cursor = record (m.cursor) { generation = (get_generation buf + 1) % 2 ^ 64 };
            }
            else record m { table = copy_in m.table (offset - chunk_size) buf })
          fs
  ]

  -- nvfuse_load_container_table(), which returns 0 on every path
  unfoldable pub load_container_table : ℕ → Memory → Files → Memory × Files
  unfolding scan_logs read_chunks
  load_container_table size m fs = elim (alloc_buffer fs) [
    | none ↦ (m, fs)
    | some _ ↦
        let (fs1, found) =
          scan_logs m.cursor.max_log_file 0 (record { log_file = 0; max_generation = 0 }) fs in
        elim found [
          | none ↦ (m, fs1)
          | some l ↦
              if l.log_file == 0
              then (m, fs1)
              else let (fs2, opened) = open_file fs1 l.log_file false in
                elim opened [
                  | none ↦ (m, fs2)
                  | some fd ↦
                      let (m', done) = read_chunks fd (chunk_rounds size) 0 m fs2 in
                      if done then (m', close_file fs2 fd) else (m', fs2)
                ]
        ]
  ]
