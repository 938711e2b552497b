-- ===== src/Dirs/Tests.antt =====
-- The theorems on directories at concrete inputs, and runs of the operations on a directory of two
-- blocks of two entries, with an index that is a function of the name.
use nvfuse.Dirs.Linear.{lookup_collided}
use nvfuse.Prelude.{
  ℕ, zero, suc, ◌+◌, ◌<◌, ◌≤◌, ◌≡◌, ◌↔◌, ◌⊎◌, refl, sym, ap, true, false, Option, none, some, arith,
  List, [], ◌∷◌, length, if◌then◌else◌,
}
use nvfuse.Prelude.Int.{pos}
use nvfuse.Run.{ok, abort, hang, ◌>>=◌}
use nvfuse.Bytes.{bytes_eq}
use nvfuse.Dirs.Defs.{
  dir_used, dir_deleted, Entry, empty_entry, Dir, dir_is_invalid, advance, entry_at,
  find_empty_dentry,
}
use nvfuse.Dirs.Find.{DirIndexing, lookup}
use nvfuse.Dirs.Change.{Change, createfile, mkdir, link, rmfile, rmdir, rm_direntry}
use nvfuse.Dirs.Compact.{entry, Unique, IsCompact, HasRoom}
use nvfuse.Dirs.Empty.{find_empty_dentry_lem, IsSmall}
use nvfuse.Dirs.Create.{Named, createfile-Named}
use nvfuse.Dirs.Unlink.{Without, rmfile-Without, rmdir-Without}

abbrev Places : Type 0
Places = List ℕ → Option ℕ

abbrev places : DirIndexing Places
places = record {
  get = λ i f. i f;
  set = λ i f k g. if bytes_eq g f then some k else i g;
  del = λ i f g. if bytes_eq g f then none else i g;
}

abbrev named : ℕ → List ℕ → Entry
named ino name = record { d_ino = ino; d_flag = dir_used; d_version = 1; d_filename = name }

abbrev dot : List ℕ
dot = 46 ∷ []

abbrev dot_dot : List ℕ
dot_dot = 46 ∷ 46 ∷ []

abbrev abc : List ℕ
abc = 97 ∷ 98 ∷ 99 ∷ []

abbrev new_name : List ℕ
new_name = 110 ∷ 101 ∷ 119 ∷ 49 ∷ []

abbrev abc_at : Places
abc_at = λ g. if bytes_eq g abc then some 2 else none

abbrev home : Dir Places
home = record {
  i_links_count = 3;
  i_ptr = 2;
  entries = named 2 dot ∷ named 2 dot_dot ∷ named 12 abc ∷ empty_entry ∷ [];
  index = some abc_at;
}

home_used : (k : ℕ) → k < 3 → (entry home k).d_flag ≡ dir_used
home_used zero h = refl
home_used (suc zero) h = refl
home_used (suc (suc zero)) h = refl
home_used (suc (suc (suc k))) h = absurd (omega arith)

home-IsCompact : IsCompact 2 home
home-IsCompact = record {
  blocks = 2;
  whole = refl;
  some_used = omega arith;
  bounded = omega arith;
  used = home_used;
  free = λ k lo hi. let e : 3 ≡ k = omega arith in ap (λ j. dir_is_invalid (entry home j)) (sym e);
}

name_length : (k : ℕ) → k < 3 → length (entry home k).d_filename ≡ suc k
name_length zero h = refl
name_length (suc zero) h = refl
name_length (suc (suc zero)) h = refl
name_length (suc (suc (suc k))) h = absurd (omega arith)

home-Unique : Unique home
home-Unique j k lt lt' e =
    let l : length (entry home j).d_filename ≡ length (entry home k).d_filename = ap length e in
    omega (arith, l, name_length j lt, name_length k lt')

home-IsSmall : IsSmall 2 (omega arith) (omega arith) (λ l. true) home
home-IsSmall = record { counted = omega arith; below_max = omega arith }

find_empty_dentry_lem_example :
    (d' : Dir Places) × (find_empty_dentry 2 (λ l. true) 2 home ≡ ok (some 3, d'))
    × HasRoom 2 home d'
find_empty_dentry_lem_example =
    find_empty_dentry_lem 2 (omega arith) (omega arith) (λ l. true) 2 home (omega arith)
      home-IsCompact home-IsSmall (λ e. refl)

createfile-Named_example :
    (c : Change Places) × (createfile places 2 (λ l. true) 2 new_name (some 13) 1 home ≡ ok c)
    × (c.ret ≡ pos 0)
    × IsCompact 2 c.dir
    × (c.dir.i_ptr ≡ 3)
    × (c.dir.i_links_count ≡ 3 + 1)
    × (c.dir.index ≡ some (places.set abc_at new_name 3))
    × (entry c.dir 3 ≡ named 13 new_name)
    × (Unique home → ((x : ℕ) → ¬ Named home new_name x) → Unique c.dir)
    × ((name : List ℕ) (x : ℕ)
        → Named c.dir name x ↔ Named home name x ⊎ (new_name ≡ name) × (13 ≡ x))
createfile-Named_example =
    createfile-Named places 2 (λ l. true) (omega arith) (omega arith) 2 new_name 13 1 home abc_at
      (omega arith) home-IsCompact home-IsSmall (omega arith) (omega arith) (omega arith) refl
      (λ e. refl)

abc_place : (o : ℕ) → places.get abc_at abc ≡ some o → o ≤ 2
unfolding bytes_eq
abc_place o e = ground arith

rmfile-Without_example :
    (c : Change Places) × (rmfile places 2 (λ l. true) (λ ino. some false) abc home ≡ ok c)
    × (c.ret ≡ pos 0)
    × Without places 2
        (λ l. true)
        (omega arith)
        2
        abc
        home
        abc_at
        home-IsCompact
        (omega arith)
        c.dir
rmfile-Without_example =
    rmfile-Without places 2 (λ l. true) (omega arith) 2 abc home abc_at home-IsCompact (omega arith)
      (omega arith) home-Unique refl refl abc_place (λ ino. some false) refl

rmdir-Without_example :
    (c : Change Places) × (rmdir places 2 (λ l. true) 2 (λ ino. some (true, 2)) abc home ≡ ok c)
    × (c.ret ≡ pos 0)
    × Without places 2
        (λ l. true)
        (omega arith)
        2
        abc
        home
        abc_at
        home-IsCompact
        (omega arith)
        c.dir
rmdir-Without_example =
    rmdir-Without places 2 (λ l. true) (omega arith) 2 abc home abc_at home-IsCompact (omega arith)
      (omega arith) home-Unique refl refl abc_place 2 2 (λ ino. some (true, 2)) refl (omega arith)
      (omega arith)

-- The same directory, with a place of 0 for `abc`
abbrev collided : Dir Places
collided = record home { index = some (λ g. if bytes_eq g abc then some 0 else none) }

collided-IsCompact : IsCompact 2 collided
collided-IsCompact = record {
  blocks = 2;
  whole = refl;
  some_used = omega arith;
  bounded = omega arith;
  used = home-IsCompact.used;
  free = home-IsCompact.free;
}

lookup_collided_example :
    ((entry collided 0).d_filename ≡ abc)
      × ((fuel : ℕ) → lookup places 2 (suc fuel) 64 abc collided ≡ ok (some (entry collided 0)))
    ⊎ ¬ ((entry collided 0).d_filename ≡ abc)
      × ((fuel : ℕ) → lookup places 2 fuel 64 abc collided ≡ hang)
unfolding bytes_eq
lookup_collided_example =
    lookup_collided places 2 64 collided abc (λ g. if bytes_eq g abc then some 0 else none)
      (omega arith) collided-IsCompact refl refl (omega arith) (omega arith)

-- An entry that is there, and that the search does not come to.
lookup_lost : lookup places 2 9 64 abc collided ≡ hang
unfolding bytes_eq lookup entry_at
lookup_lost = refl

-- Where no inode is found, the directory counts an entry that is not in use.
no_inode :
    (createfile places 2 (λ l. true) 2 new_name none 1 home >>= λ c. ok c.dir.i_links_count) ≡ ok 4
unfolding createfile entry_at bytes_eq find_empty_dentry advance
no_inode = refl

-- nvfuse_link() writes over the last entry.
link_overwrites :
    (link places 2 (λ l. true) 64 2 new_name 13 1 home >>= λ c. ok (entry c.dir 2))
    ≡ ok (named 13 new_name)
unfolding link entry_at bytes_eq find_empty_dentry advance
link_overwrites = refl

-- nvfuse_rm_direntry() leaves a gap, and the count of entries as it is.
gap :
    (rm_direntry places 2 (λ l. true) (λ ino. true) abc home >>= λ c. ok (entry c.dir 2).d_flag)
    ≡ ok dir_deleted
unfolding rm_direntry entry_at bytes_eq
gap = refl

-- nvfuse_rmfile() of a name that is not there ends in a failed assertion.
rmfile_missing : rmfile places 2 (λ l. true) (λ ino. some false) new_name home ≡ abort
unfolding rmfile entry_at bytes_eq
rmfile_missing = refl

-- nvfuse_mkdir() of a name that is there returns 0.
mkdir_existing :
    mkdir places 2 (λ l. true) 64 2 abc (some 13) 1 home ≡ ok (record { dir = home; ret = pos 0 })
unfolding mkdir entry_at bytes_eq
mkdir_existing = refl
