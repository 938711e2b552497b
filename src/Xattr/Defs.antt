-- ===== src/Xattr/Defs.antt =====
-- The functions of nvfuse_xattr.c over the bytes `inode->xattr[3972]`. An address is an offset into
-- that array. What path resolution and lookup find is an input; names and values are the bytes of a
-- C string, without its 0.
use mathlib.Core.Bool.{◌||◌}
use nvfuse.Prelude.{
  ℕ, zero, suc, ◌+◌, ◌-◌, ◌%◌, ◌^◌, ◌&&◌, Option, none, some, List, [], ◌++◌, length, take, drop,
  replicate, ltb, ◌==◌, if◌then◌else◌,
}
use nvfuse.Prelude.Int.{ℤ, pos, negsuc}
use nvfuse.Run.{Run, ok, fault, hang, ◌>>=◌}
use nvfuse.Bytes.{bytes_of, value_of, bytes_eq, write_at}

-- NVFUSE_XATTR_NAME_MAX_LEN, NVFUSE_XATTR_VALUE_MAX_LEN, NVFUSE_XATTR_MAX_SIZE
abbrev pub name_max_len : ℕ
name_max_len = 256

abbrev pub value_max_len : ℕ
value_max_len = 512

abbrev pub max_size : ℕ
max_size = 3968

-- u8 xattr[3972] of struct nvfuse_inode
abbrev pub area_size : ℕ
area_size = 3972

-- The fields of the entry at an offset.
unfoldable pub e_name_len : List ℕ → ℕ → ℕ
e_name_len area o = value_of 4 (drop o area)

unfoldable pub e_value_size : List ℕ → ℕ → ℕ
e_value_size area o = value_of 4 (drop (o + 4) area)

unfoldable pub e_name : List ℕ → ℕ → ℕ → List ℕ
e_name area o n = take n (drop (o + 8) area)

-- ENTRY_SIZE, a sum in size_t
unfoldable pub entry_size : List ℕ → ℕ → ℕ
unfolding e_name_len e_value_size
entry_size area o = 4 + 4 + e_name_len area o + 1 + e_value_size area o + 1

-- What a walk along the entries ends with: the entry with the name, or the end mark.
pub data Place : Type 0 where
  found : ℕ → Place
  ended : ℕ → Place

-- list_for_each_xattr with the comparison that `set`, `get` and `remove` make. A mark outside the
-- array is a fault.
unfoldable pub find : List ℕ → List ℕ → (fuel o : ℕ) → Run Place
unfolding e_name_len e_name entry_size
find area name zero o = hang
find area name (suc fuel) o =
    let next = find area name fuel (o + entry_size area o) in
    if ltb area_size (o + 4)
    then fault
    else if e_name_len area o == 0
    then ok (ended o)
    else if (e_name_len area o == length name) && bytes_eq (e_name area o (length name)) name
    then ok (found o)
    else next

-- while (!IS_XATTR_LAST_ENTRY(last)) last = XATTR_NEXT_ENTRY(last);
unfoldable pub find_last : List ℕ → (fuel o : ℕ) → Run ℕ
unfolding e_name_len entry_size
find_last area zero o = hang
find_last area (suc fuel) o =
    let next = find_last area fuel (o + entry_size area o) in
    if ltb area_size (o + 4) then fault else if e_name_len area o == 0 then ok o else next

-- memmove(here, next, last - next), and the bytes behind it cleared
unfoldable pub remove_entry : List ℕ → (here last : ℕ) → List ℕ
unfolding entry_size
remove_entry area here last =
    let size = entry_size area here in
    let next = here + size in
    take here area ++ (take (last - next) (drop next area) ++ (replicate size 0 ++ drop last area))

-- The new entry at `last`, field by field. The bytes behind the name and the value are not written.
unfoldable pub write_entry : List ℕ → ℕ → List ℕ → List ℕ → List ℕ
write_entry area last name value =
    let a1 = write_at area last (bytes_of 4 (length name)) in
    let a2 = write_at a1 (last + 8) name in
    let a3 = write_at a2 (last + 8 + length name + 1) value in
    write_at a3 (last + 4) (bytes_of 4 (length value))

-- `a - b` and `a > b` on u32
abbrev pub sub32 : ℕ → ℕ → ℕ
sub32 a b = (a + 2 ^ 32 - b) % 2 ^ 32

-- The part of nvfuse_set_xattr() behind its checks and the lookup: the return value, and the bytes.
unfoldable pub set_in_area : List ℕ → List ℕ → List ℕ → Run (ℤ × List ℕ)
unfolding find find_last remove_entry write_entry
set_in_area area name value = do
  place ← find area name area_size 0
  elim place [
    | ended last ↦
        if ltb (sub32 max_size last) (4 + 4 + length name + 1 + length value + 1)
        then ok (negsuc 0, area)
        else ok (pos 0, write_entry area last name value)
    | found here ↦ do
      last ← find_last area area_size 0
      if ltb (sub32 max_size last) (sub32 (length value) (e_value_size area here))
          then ok (negsuc 0, area)
          else ok (
            pos 0,
            write_entry (remove_entry area here last) (last - entry_size area here) name value,
          )
  ]

-- name_len and value_len, a u32 each
abbrev pub len_of : List ℕ → ℕ
len_of s = length s % 2 ^ 32

-- nvfuse_set_xattr() of a path that is found, other than the root: the checks of the lengths, and the
-- entry in the inode.
unfoldable pub set_xattr : List ℕ → List ℕ → List ℕ → Run (ℤ × List ℕ)
unfolding set_in_area
set_xattr area name value =
    if ltb name_max_len (len_of name) || ltb (len_of name) 1
    then ok (negsuc 0, area)
    else if ltb value_max_len (len_of value) || ltb (len_of value) 1
    then ok (negsuc 0, area)
    else set_in_area area (take (len_of name) name) (take (len_of value) value)

-- The part of nvfuse_remove_xattr() behind the lookup.
unfoldable pub remove_in_area : List ℕ → List ℕ → Run (ℤ × List ℕ)
unfolding find find_last remove_entry
remove_in_area area name = do
  place ← find area name area_size 0
  elim place [
    | ended _ ↦ ok (negsuc 0, area)
    | found here ↦ do
      last ← find_last area area_size here
      ok (pos 0, if last == here then area else remove_entry area here last)
  ]

-- The part of nvfuse_get_xattr() behind the lookup: the return value (ERANGE is 34) and what the
-- buffer holds, if it is written.
unfoldable pub get_in_area : List ℕ → List ℕ → ℕ → Run (ℤ × Option (List ℕ))
unfolding find entry_size
get_in_area area name buf_size = do
  place ← find area name area_size 0
  elim place [
    | ended _ ↦ ok (negsuc 0, none)
    | found here ↦
        let size = entry_size area here in
        if ltb buf_size size
        then ok (pos 34, none)
        else ok (
          pos 0,
          some (
              take (size - 4 - 4) (drop (here + 8) area)
              ++ replicate (buf_size - (size - 4 - 4)) 0),
        )
  ]

-- The loop of nvfuse_list_xattr(): the return value and the names written, of `rest` bytes left.
unfoldable pub list_from : List ℕ → (fuel o rest : ℕ) → Run (ℤ × List ℕ)
unfolding e_name_len e_name entry_size
list_from area zero o rest = hang
list_from area (suc fuel) o rest =
    let n = e_name_len area o in
    let next = list_from area fuel (o + entry_size area o) (rest - (n + 1) % 2 ^ 32) in
    if ltb area_size (o + 4)
    then fault
    else if n == 0
    then ok (pos 0, [])
    else if ltb rest ((n + 1) % 2 ^ 32)
    then ok (negsuc 0, [])
    else next >>= λ r. ok (r.0, e_name area o ((n + 1) % 2 ^ 32) ++ r.1)

-- The part of nvfuse_list_xattr() behind the lookup: the return value and the buffer.
unfoldable pub list_in_area : List ℕ → ℕ → Run (ℤ × List ℕ)
unfolding list_from
list_in_area area buf_size = list_from area area_size 0 buf_size >>= λ r.
    ok (r.0, r.1 ++ replicate (buf_size - length r.1) 0)
