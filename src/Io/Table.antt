-- ===== src/Io/Table.antt =====
-- The table of open files in nvfuse_core.c, and the opening of a file in nvfuse_api.c.
use nvfuse.Prelude.{
  ℕ, zero, suc, ◌+◌, ◌-◌, ◌<◌, ◌≤◌, ◌≡◌, refl, sym, ap, ◌∙◌, ◌⊎◌, inl, inr, Bool, true, false,
  Option, none, some, arith, List, length, get_or, set, replicate, if◌then◌else◌, Bool-cases,
  Option-cases, eq-cases, get_or-set_self, get_or-set_ne, length-set,
}
use nvfuse.Prelude.Int.{ℤ, pos, negsuc}
use nvfuse.Io.Defs.{OpenFile}

-- START_OPEN_FILE and MAX_OPEN_FILE
abbrev pub start_open_file : ℕ
start_open_file = 3

abbrev pub max_open_file : ℕ
max_open_file = 16

abbrev pub closed_file : OpenFile
closed_file = record { ino = 0; size = 0; used = false; rwoffset = 0; flags = 0 }

-- nvfuse_init_file_table(), where its memory can be had
unfoldable pub init_file_table : List OpenFile
init_file_table = replicate max_open_file closed_file

-- The loop of nvfuse_allocate_open_file_table(): `rounds` descriptors from `i` on.
unfoldable pub find_unused : (rounds i : ℕ) → List OpenFile → Option ℕ
find_unused zero i ft = none
find_unused (suc rounds) i ft = elim (get_or ft i closed_file).used [
  | false ↦ some i
  | true ↦ find_unused rounds (suc i) ft
]

-- nvfuse_allocate_open_file_table()
unfoldable pub allocate_open_file_table : List OpenFile → Option ℕ × List OpenFile
unfolding find_unused
allocate_open_file_table ft =
    elim (find_unused (max_open_file - start_open_file) start_open_file ft) [
      | none ↦ (none, ft)
      | some fid ↦ (some fid, set ft fid (record (get_or ft fid closed_file) { used = true }))
    ]

-- nvfuse_close_file_table()
unfoldable pub close_file_table : (fid : ℕ) → List OpenFile → List OpenFile
close_file_table fid ft = set ft fid closed_file

-- The entry of a file that is opened.
abbrev pub opened_entry : (ino i_size : ℕ) (o_append : Bool) → OpenFile → OpenFile
opened_entry ino i_size o_append of = record of {
  used = true;
  ino = ino;
  size = i_size;
  rwoffset = if o_append then i_size else 0;
}

-- What nvfuse_openfile_ino() does with the descriptor that it has got.
unfoldable pub fill_entry :
    (ino i_size : ℕ) (o_append : Bool) → Option ℕ × List OpenFile → ℤ × List OpenFile
fill_entry ino i_size o_append (none, ft) = (negsuc 0, ft)
fill_entry ino i_size o_append (some fid, ft) =
    (pos fid, set ft fid (opened_entry ino i_size o_append (get_or ft fid closed_file)))

-- nvfuse_openfile_ino(), for an inode of this type and size. `o_append` says that `flags` has O_APPEND.
unfoldable pub openfile_ino :
    (ino i_size : ℕ) (is_file o_append : Bool) → List OpenFile → ℤ × List OpenFile
unfolding allocate_open_file_table fill_entry
openfile_ino ino i_size false o_append ft = (negsuc 0, ft)
openfile_ino ino i_size true o_append ft =
    fill_entry ino i_size o_append (allocate_open_file_table ft)

-- A search that fails passed only descriptors in use.
find_unused-none :
    (rounds i : ℕ) (ft : List OpenFile)
    → find_unused rounds i ft ≡ none
    → (j : ℕ) → i ≤ j
    → j < i + rounds
    → (get_or ft j closed_file).used ≡ true
unfolding find_unused
find_unused-none zero i ft e j lo hi = absurd (omega arith)
find_unused-none (suc rounds) i ft e j lo hi = elim (Bool-cases (get_or ft i closed_file).used) [
  | inl u ↦ elim (eq-cases i j) [
    | inl y ↦ ap (λ k. (get_or ft k closed_file).used) (sym (y.1)) ∙ u
    | inr n ↦ find_unused-none rounds (suc i) ft (ground arith) j (omega (arith, n.1)) (omega arith)
  ]
  | inr u ↦ ground arith
]

-- A search that succeeds gives the first descriptor that is not in use.
find_unused-some :
    (rounds i : ℕ) (ft : List OpenFile) (fid : ℕ)
    → find_unused rounds i ft ≡ some fid
    → (i ≤ fid)
      × (fid < i + rounds)
      × ((get_or ft fid closed_file).used ≡ false)
      × ((j : ℕ) → i ≤ j → j < fid → (get_or ft j closed_file).used ≡ true)
unfolding find_unused
find_unused-some zero i ft fid e = cc
find_unused-some (suc rounds) i ft fid e = elim (Bool-cases (get_or ft i closed_file).used) [
  | inl u ↦
      let (lo, hi, free, busy) = find_unused-some rounds (suc i) ft fid (ground arith) in
      (
        omega arith,
        omega arith,
        free,
        λ j lo' hi'. elim (eq-cases i j) [
          | inl y ↦ ap (λ k. (get_or ft k closed_file).used) (sym (y.1)) ∙ u
          | inr n ↦ busy j (omega (arith, n.1)) hi'
        ],
      )
  | inr u ↦
      let e' : i ≡ fid = ground arith in
      (
        omega arith,
        omega arith,
        ap (λ k. (get_or ft k closed_file).used) (sym e') ∙ u,
        λ j lo' hi'. absurd (omega arith),
      )
]

-- A descriptor that is given out: it was not in use, its entry is for the file, and the others are kept.
abbrev pub Opened :
    (ino i_size : ℕ) (o_append : Bool) (ft : List OpenFile) → ℤ × List OpenFile → Type 0
Opened ino i_size o_append ft (ret, ft') =
    (fid : ℕ) × (ret ≡ pos fid)
    × (start_open_file ≤ fid)
    × (fid < max_open_file)
    × ((get_or ft fid closed_file).used ≡ false)
    × (get_or ft' fid closed_file ≡ opened_entry ino i_size o_append (get_or ft fid closed_file))
    × ((j : ℕ) → ¬ (fid ≡ j) → get_or ft' j closed_file ≡ get_or ft j closed_file)
    × (length ft' ≡ length ft)

-- No descriptor is left.
abbrev pub AllUsed : List OpenFile → Type 0
AllUsed ft =
    (j : ℕ) → start_open_file ≤ j → j < max_open_file → (get_or ft j closed_file).used ≡ true

allocate_open_file_table-none :
    (ft : List OpenFile)
    → find_unused (max_open_file - start_open_file) start_open_file ft ≡ none
    → allocate_open_file_table ft ≡ (none, ft)
unfolding allocate_open_file_table
allocate_open_file_table-none ft e = rw (e, allocate_open_file_table) refl

abbrev marked : List OpenFile → ℕ → List OpenFile
marked ft fid = set ft fid (record (get_or ft fid closed_file) { used = true })

allocate_open_file_table-some :
    (ft : List OpenFile) (fid : ℕ)
    → find_unused (max_open_file - start_open_file) start_open_file ft ≡ some fid
    → allocate_open_file_table ft ≡ (some fid, marked ft fid)
unfolding allocate_open_file_table
allocate_open_file_table-some ft fid e = rw (e, allocate_open_file_table) refl

module _ (ino i_size : ℕ) (o_append : Bool) (ft : List OpenFile)
    (size : length ft ≡ max_open_file) where
  abbrev old : ℕ → OpenFile
  old fid = get_or ft fid closed_file

  -- The entry is marked, and then written.
  abbrev entry : ℕ → OpenFile
  entry fid = opened_entry ino i_size o_append (get_or (marked ft fid) fid closed_file)

  entry-eq :
      (fid : ℕ) → fid < max_open_file → entry fid ≡ opened_entry ino i_size o_append (old fid)
  entry-eq fid hi =
      ap (opened_entry ino i_size o_append) (
        get_or-set_self ft fid (record (old fid) { used = true }) closed_file (omega (arith, size)))

  Opened-at :
      (fid : ℕ)
      → find_unused (max_open_file - start_open_file) start_open_file ft ≡ some fid
      → Opened ino i_size o_append ft (fill_entry ino i_size o_append (some fid, marked ft fid))
  unfolding fill_entry
  Opened-at fid e =
      let (lo, hi, free, busy) =
        find_unused-some (max_open_file - start_open_file) start_open_file ft fid e in
      let same_length = length-set ft fid (record (old fid) { used = true }) in
      (
        fid,
        refl,
        lo,
        omega arith,
        free,
        get_or-set_self (marked ft fid) fid (entry fid) closed_file
              (omega (arith, same_length, size))
            ∙ entry-eq fid (omega arith),
        λ j n.
            get_or-set_ne (marked ft fid) fid j (entry fid) closed_file n
            ∙ get_or-set_ne ft fid j (record (old fid) { used = true }) closed_file n,
        length-set (marked ft fid) fid (entry fid) ∙ same_length,
      )

-- nvfuse_openfile_ino() of a file fails, with the table unchanged, where every descriptor is in use. Else
-- it gives out one that was not in use, writes the file's number and size and the offset at the start,
-- or at the end for O_APPEND, to its entry, and leaves the other entries as they are.
pub openfile_ino_lem :
    (ino i_size : ℕ) (o_append : Bool) (ft : List OpenFile)
    → length ft ≡ max_open_file
    → AllUsed ft × (openfile_ino ino i_size true o_append ft ≡ (negsuc 0, ft))
      ⊎ Opened ino i_size o_append ft (openfile_ino ino i_size true o_append ft)
unfolding openfile_ino
openfile_ino_lem ino i_size o_append ft size =
    elim (Option-cases (find_unused (max_open_file - start_open_file) start_open_file ft)) [
      | inl e ↦ inl (
        find_unused-none (max_open_file - start_open_file) start_open_file ft e,
        ap (fill_entry ino i_size o_append) (allocate_open_file_table-none ft e),
      )
      | inr e ↦ inr (
          rw (allocate_open_file_table-some ft (e.0) (e.1))
            (Opened-at ino i_size o_append ft size (e.0) (e.1)))
    ]

-- After nvfuse_close_file_table() of a descriptor a file can be opened.
pub openfile_ino-close_file_table :
    (ino i_size fid : ℕ) (o_append : Bool) (ft : List OpenFile)
    → length ft ≡ max_open_file
    → start_open_file ≤ fid
    → fid < max_open_file
    → Opened ino i_size o_append
        (close_file_table fid ft)
        (openfile_ino ino i_size true o_append (close_file_table fid ft))
unfolding close_file_table
openfile_ino-close_file_table ino i_size fid o_append ft size lo hi =
    elim (openfile_ino_lem ino i_size o_append (set ft fid closed_file)
      (length-set ft fid closed_file ∙ size)) [
        | inr o ↦ o
        | inl e ↦
            cc (e.0 fid lo hi, get_or-set_self ft fid closed_file closed_file (omega (arith, size)))
      ]
