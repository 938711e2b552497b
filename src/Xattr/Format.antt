-- ===== src/Xattr/Format.antt =====
-- The attributes that an area stands for, and the reading of one entry of it.
use nvfuse.Prelude.{
  ℕ, ◌+◌, ◌-◌, ◌≤◌, ◌≡◌, refl, arith, List, [], ◌∷◌, ◌++◌, length, drop, replicate, length-append,
  length-replicate,
}
use mathlib.Core.List.{append_assoc}
use nvfuse.Bytes.{
  bytes_of, length-bytes_of, value_of-bytes_of, value_of-zeros, drop-append, take-append,
  drop-length,
}
use nvfuse.Xattr.Defs.{
  name_max_len, value_max_len, max_size, area_size, e_name_len, e_value_size, e_name, entry_size,
}

-- A name and its value.
pub record Attr : Type 0 where
  pub name : List ℕ
  pub value : List ℕ

abbrev pub size_of : Attr → ℕ
size_of e = 4 + 4 + length e.name + 1 + length e.value + 1

-- The bytes of an entry.
unfoldable pub encode : Attr → List ℕ
encode e =
    bytes_of 4 (length e.name)
    ++ (bytes_of 4 (length e.value) ++ (e.name ++ (0 ∷ (e.value ++ (0 ∷ [])))))

unfoldable pub encode_all : List Attr → List ℕ
encode_all [] = []
encode_all (e ∷ es) = encode e ++ encode_all es

-- The sum of the entries' sizes.
unfoldable pub total : List Attr → ℕ
total [] = 0
total (e ∷ es) = size_of e + total es

-- The array that holds the entries and is clear behind them.
unfoldable pub area_of : List Attr → List ℕ
area_of es = encode_all es ++ replicate (area_size - total es) 0

-- What an entry can hold: a name within its limits, and a value up to its limit or empty.
pub record IsAttr (e : Attr) : Type 0 where
  pub named : 1 ≤ length e.name
  pub name_short : length e.name ≤ name_max_len
  pub value_short : length e.value ≤ value_max_len

abbrev pub AllAttr : List Attr → Type 0
AllAttr [] = Unit {0}
AllAttr (e ∷ es) = IsAttr e × AllAttr es

pub length-encode : (e : Attr) → length (encode e) ≡ size_of e
unfolding encode
length-encode e = omega (
  arith,
  length-append (bytes_of 4 (length e.name))
      (bytes_of 4 (length e.value) ++ (e.name ++ (0 ∷ (e.value ++ (0 ∷ []))))),
  length-append (bytes_of 4 (length e.value)) (e.name ++ (0 ∷ (e.value ++ (0 ∷ [])))),
  length-append e.name (0 ∷ (e.value ++ (0 ∷ []))),
  length-append e.value (0 ∷ []),
  length-bytes_of 4 (length e.name),
  length-bytes_of 4 (length e.value),
)

pub length-encode_all : (es : List Attr) → length (encode_all es) ≡ total es
unfolding encode_all total
length-encode_all [] = refl
length-encode_all (e ∷ es) =
    omega (arith, length-append (encode e) (encode_all es), length-encode e, length-encode_all es)

pub length-area_of : (es : List Attr) → total es ≤ max_size → length (area_of es) ≡ area_size
unfolding area_of
length-area_of es h = omega (
  arith,
  length-append (encode_all es) (replicate (area_size - total es) 0),
  length-encode_all es,
  length-replicate {A = ℕ} (area_size - total es) 0,
)

-- Reading the entry behind `pre`.
module _ (pre : List ℕ) (e : Attr) (post : List ℕ) (a : IsAttr e) where
  area-here : drop (length pre) (pre ++ (encode e ++ post)) ≡ encode e ++ post
  area-here = drop-length pre (encode e ++ post)

  pub e_name_len-encode : e_name_len (pre ++ (encode e ++ post)) (length pre) ≡ length e.name
  unfolding e_name_len encode
  e_name_len-encode =
      rw (drop-length pre (encode e ++ post), append_assoc)
        (value_of-bytes_of (length e.name) _ (omega (arith, a.name_short)))

  pub e_value_size-encode : e_value_size (pre ++ (encode e ++ post)) (length pre) ≡ length e.value
  unfolding e_value_size encode bytes_of
  e_value_size-encode =
      rw (drop-append pre (encode e ++ post) 4)
        (value_of-bytes_of (length e.value) _ (omega (arith, a.value_short)))

  pub e_name-encode : e_name (pre ++ (encode e ++ post)) (length pre) (length e.name) ≡ e.name
  unfolding e_name encode bytes_of
  e_name-encode = rw (drop-append pre (encode e ++ post) 8, append_assoc) (take-append e.name _)

  pub entry_size-encode : entry_size (pre ++ (encode e ++ post)) (length pre) ≡ size_of e
  unfolding entry_size
  entry_size-encode = omega (arith, e_name_len-encode, e_value_size-encode)

-- The mark behind the last entry.
pub e_name_len-zeros :
    (pre : List ℕ) (k : ℕ) → 4 ≤ k → e_name_len (pre ++ replicate k 0) (length pre) ≡ 0
unfolding e_name_len
e_name_len-zeros pre k h = rw (drop-length pre (replicate k 0)) (value_of-zeros k h)
