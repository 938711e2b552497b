-- ===== src/Xattr/Tests.antt =====
-- The theorems of the extended attributes on an inode with two of them.
use nvfuse.Prelude.{◌≤◌, ◌≡◌, refl, some, arith, List, [], ◌∷◌}
use nvfuse.Prelude.Int.{negsuc}
use nvfuse.Run.{ok}
use nvfuse.Bytes.{bytes_eq}
use nvfuse.Xattr.Defs.{max_size, set_in_area, set_xattr, remove_in_area, get_in_area}
use nvfuse.Xattr.Format.{Attr, total, area_of, IsAttr, AllAttr}
use nvfuse.Xattr.Spec.{lookup_attr}
use nvfuse.Xattr.Set.{in_bytes}
use nvfuse.Xattr.Remove.{drop_attr, remove_in_area_lem}
use nvfuse.Xattr.Read.{read_attr, get_in_area_lem}
use nvfuse.Xattr.Laws.{IsValid, set_in_area-shrink}

-- "ab" ↦ "xyz", "c" ↦ ""
abbrev first : Attr
first = record { name = 97 ∷ 98 ∷ []; value = 120 ∷ 121 ∷ 122 ∷ [] }

abbrev second : Attr
second = record { name = 99 ∷ []; value = [] }

abbrev both : List Attr
both = first ∷ second ∷ []

-- A longer value for the second, and a shorter one for the first.
abbrev longer : Attr
longer = record { name = 99 ∷ []; value = 120 ∷ [] }

abbrev shorter : Attr
shorter = record { name = 97 ∷ 98 ∷ []; value = 120 ∷ [] }

first-IsAttr : IsAttr first
first-IsAttr = record { named = omega arith; name_short = omega arith; value_short = omega arith }

second-IsAttr : IsAttr second
second-IsAttr = record { named = omega arith; name_short = omega arith; value_short = omega arith }

shorter-IsAttr : IsAttr shorter
shorter-IsAttr = record { named = omega arith; name_short = omega arith; value_short = omega arith }

both-AllAttr : AllAttr both
both-AllAttr = (first-IsAttr, (second-IsAttr, tt))

both-fit : total both ≤ max_size
unfolding total
both-fit = omega arith

both-IsValid : IsValid both
both-IsValid = record { attrs = both-AllAttr; fit = both-fit }

first_found : lookup_attr (97 ∷ 98 ∷ []) both ≡ some first
unfolding lookup_attr bytes_eq
first_found = refl

-- An empty value is refused.
set_empty_value : set_xattr (area_of both) (97 ∷ 98 ∷ []) [] ≡ ok (negsuc 0, area_of both)
unfolding set_xattr
set_empty_value = refl

remove_in_area_example :
    remove_in_area (area_of both) (97 ∷ 98 ∷ []) ≡ in_bytes (drop_attr both (97 ∷ 98 ∷ []))
remove_in_area_example = remove_in_area_lem both (97 ∷ 98 ∷ []) both-AllAttr both-fit

get_in_area_example :
    get_in_area (area_of both) (97 ∷ 98 ∷ []) 64 ≡ ok (read_attr both (97 ∷ 98 ∷ []) 64)
get_in_area_example = get_in_area_lem both (97 ∷ 98 ∷ []) 64 both-AllAttr both-fit

set_in_area-shrink_example :
    set_in_area (area_of both) (97 ∷ 98 ∷ []) (120 ∷ []) ≡ ok (negsuc 0, area_of both)
set_in_area-shrink_example =
    set_in_area-shrink both shorter first both-AllAttr shorter-IsAttr both-fit first_found
      (omega arith)
