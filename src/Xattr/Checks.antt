-- ===== src/Xattr/Checks.antt =====
-- nvfuse_set_xattr() with its checks of the lengths of name and value.
use mathlib.Core.Bool.{◌||◌}
use nvfuse.Xattr.Set.{set_attr}
use nvfuse.Prelude.{ℕ, Bool, List, length, ltb, if◌then◌else◌, leb, ◌&&◌}
use nvfuse.Prelude.Int.{ℤ, negsuc}
use nvfuse.Run.{Run, ok}
use nvfuse.Xattr.Defs.{name_max_len, value_max_len}
use nvfuse.Xattr.Format.{Attr}

-- The lengths that the interface takes: 1 to 256 characters of a name, and 1 to 512 of a value.
abbrev pub takes : Attr → Bool
takes e =
    leb 1 (length e.name)
    && leb (length e.name) 256
    && (leb 1 (length e.value) && leb (length e.value) 512)

-- What the interface makes of a list of attributes: other lengths are refused.
abbrev pub put_attr : List Attr → Attr → ℤ × List Attr
put_attr es e = if takes e then set_attr es e else (negsuc 0, es)

-- The checks for lengths `n` and `v`, in front of a call.
abbrev checked : (n v : ℕ) (area : List ℕ) → Run (ℤ × List ℕ) → Run (ℤ × List ℕ)
checked n v area call =
    if ltb name_max_len n || ltb n 1
    then ok (negsuc 0, area)
    else if ltb value_max_len v || ltb v 1
    then ok (negsuc 0, area)
    else call
