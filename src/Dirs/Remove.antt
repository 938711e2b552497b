-- ===== src/Dirs/Remove.antt =====
-- The entries of a directory after nvfuse_rmfile() in nvfuse_api.c: one less, and no gap.
use nvfuse.Prelude.{
  ℕ, ◌-◌, ◌*◌, ◌<◌, ◌≤◌, ◌≡◌, refl, sym, ap, ◌∙◌, ◌⊎◌, ◌↔◌, inl, inr, true, Option, List, length,
  get_or, set, take, arith, eq-cases, length-set, get_or-set_self, get_or-set_ne, length-take,
  get_or-take,
}
use nvfuse.Dirs.Defs.{dir_deleted, Entry, empty_entry, Dir, dir_is_invalid}
use nvfuse.Dirs.Compact.{entry, Unique, IsCompact}
use nvfuse.Dirs.Create.{Named}

abbrev pub get : List Entry → ℕ → Entry
get es j = get_or es j empty_entry

module _ {Index : Type 0} where
  module _ (d : Dir Index) (k : ℕ) where
    abbrev pub last : ℕ
    last = d.i_links_count - 1

    -- The entries without the one at `k`: the last one is in its place.
    pub record IsWithout (es : List Entry) : Type 0 where
      pub size : length es ≡ length d.entries
      pub moved : k < last → get es k ≡ entry d last
      pub kept : (j : ℕ) → j < last → ¬ (k ≡ j) → get es j ≡ entry d j
      pub free : (j : ℕ) → last ≤ j → j < length d.entries → dir_is_invalid (get es j) ≡ true

  module _ (per_block : ℕ) (positive : 1 ≤ per_block) (d : Dir Index) (v : IsCompact per_block d)
      (k : ℕ) (here : k < d.i_links_count) where
    abbrev pub marked : List Entry
    marked = set d.entries k (record (entry d k) { d_flag = dir_deleted })

    pub marked_here : get marked k ≡ record (entry d k) { d_flag = dir_deleted }
    marked_here =
        get_or-set_self d.entries k (record (entry d k) { d_flag = dir_deleted }) empty_entry
          (omega (arith, here, v.bounded))

    pub marked_other : (j : ℕ) → ¬ (k ≡ j) → get marked j ≡ entry d j
    marked_other j n =
        get_or-set_ne d.entries k j (record (entry d k) { d_flag = dir_deleted }) empty_entry n

    pub length-marked : length marked ≡ length d.entries
    length-marked = length-set d.entries k (record (entry d k) { d_flag = dir_deleted })

    -- The entry that is removed is the last one.
    pub marked-IsWithout : k ≡ last d k → IsWithout d k marked
    marked-IsWithout e = record {
      size = length-marked;
      moved = λ lt. absurd (omega (arith, e, lt));
      kept = λ j lt n. marked_other j n;
      free = λ j lo hi. elim (eq-cases k j) [
        | inl y ↦
            ap (λ i. dir_is_invalid (get marked i)) (sym (y.1)) ∙ ap dir_is_invalid marked_here
        | inr n ↦ ap dir_is_invalid (marked_other j (n.1)) ∙ v.free j (omega (arith, e, lo, n.1)) hi
      ];
    }

    abbrev pub tail : Entry
    tail = get marked (last d k)

    abbrev pub shrunk : List Entry
    shrunk = set (set marked k tail) (last d k) (record tail { d_flag = dir_deleted })

    pub shrunk-IsWithout : k < last d k → IsWithout d k shrunk
    shrunk-IsWithout lt =
        let l1 = length-set marked k tail in
        let l2 = length-set (set marked k tail) (last d k) (record tail { d_flag = dir_deleted }) in
        record {
          size = l2 ∙ l1 ∙ length-marked;
          moved = λ _.
              get_or-set_ne (set marked k tail) (last d k) k (record tail { d_flag = dir_deleted })
                empty_entry (λ e. omega (arith, e, lt))
              ∙ get_or-set_self marked k tail empty_entry
                  (omega (arith, here, v.bounded, length-marked))
              ∙ marked_other (last d k) (λ e. omega (arith, e, lt));
          kept = λ j lt' n.
              get_or-set_ne (set marked k tail) (last d k) j (record tail { d_flag = dir_deleted })
                empty_entry (λ e. omega (arith, e, lt'))
              ∙ get_or-set_ne marked k j tail empty_entry n
              ∙ marked_other j n;
          free = λ j lo hi. elim (eq-cases (last d k) j) [
            | inl y ↦
                ap (λ i. dir_is_invalid (get shrunk i)) (sym (y.1))
                ∙ ap dir_is_invalid (
                    get_or-set_self (set marked k tail) (last d k)
                      (record tail { d_flag = dir_deleted }) empty_entry
                      (omega (arith, l1, length-marked, here, v.bounded)))
            | inr n ↦
                ap dir_is_invalid (
                  get_or-set_ne (set marked k tail) (last d k) j
                    (record tail { d_flag = dir_deleted }) empty_entry (n.1)
                  ∙ get_or-set_ne marked k j tail empty_entry (λ e. omega (arith, e, lo, lt))
                  ∙ marked_other j (λ e. omega (arith, e, lo, lt)))
                ∙ v.free j (omega (arith, lo, n.1)) hi
          ];
        }

    -- A directory with these entries, or with those of its blocks that are in use
    module _ (two : 2 ≤ d.i_links_count) (es : List Entry) (w : IsWithout d k es) (i_ptr : ℕ)
        (index : Option Index) where
      abbrev pub without : ℕ → Dir Index
      without n = record {
        i_links_count = last d k;
        i_ptr = i_ptr;
        entries = take n es;
        index = index;
      }

      entry-without : (n j : ℕ) → j < n → entry (without n) j ≡ get es j
      entry-without n j lt = get_or-take n es j empty_entry lt

      pub without-IsCompact :
          (n blocks : ℕ)
          → last d k ≤ n
          → n ≤ length d.entries
          → n ≡ blocks * per_block
          → IsCompact per_block (without n)
      without-IsCompact n blocks lo hi e =
          let size : length (take n es) ≡ n = length-take n es ∙ omega (arith, w.size) in
          record {
            blocks = blocks;
            whole = size ∙ e;
            some_used = omega arith;
            bounded = omega (arith, size);
            used = λ j lt. elim (eq-cases k j) [
              | inl y ↦
                  ap (λ i. (entry (without n) i).d_flag) (sym (y.1))
                  ∙ ap (λ x. x.d_flag)
                      (entry-without n k (omega (arith, y.1, lt))
                        ∙ w.moved (omega (arith, y.1, lt)))
                  ∙ v.used (last d k) (omega arith)
              | inr o ↦
                  ap (λ x. x.d_flag) (entry-without n j (omega arith) ∙ w.kept j lt (o.1))
                  ∙ v.used j (omega arith)
            ];
            free = λ j lo' hi'.
                ap dir_is_invalid (entry-without n j (omega (arith, size)))
                ∙ w.free j lo' (omega (arith, size));
          }

      -- The names are those from before without that of the entry.
      pub without-Named :
          (n : ℕ)
          → last d k ≤ n
          → Unique d
          → (name : List ℕ) (ino : ℕ)
          → Named (without n) name ino ↔ Named d name ino × ¬ ((entry d k).d_filename ≡ name)
      without-Named n lo u name ino = (
        λ (j, lt, m, i). elim (eq-cases k j) [
          | inl y ↦
              let same : entry (without n) j ≡ entry d (last d k) =
                ap (entry (without n)) (sym (y.1))
                ∙ entry-without n k (omega (arith, y.1, lt))
                ∙ w.moved (omega (arith, y.1, lt)) in
              (
                (
                  last d k,
                  omega arith,
                  ap (λ x. x.d_filename) (sym same) ∙ m,
                  ap (λ x. x.d_ino) (sym same) ∙ i,
                ),
                λ e.
                    let z : k ≡ last d k =
                      u k (last d k) here (omega arith) (e ∙ sym m ∙ ap (λ x. x.d_filename) same) in
                    omega (arith, z, y.1, lt),
              )
          | inr o ↦
              let same : entry (without n) j ≡ entry d j =
                entry-without n j (omega arith) ∙ w.kept j lt (o.1) in
              (
                (
                  j,
                  omega arith,
                  ap (λ x. x.d_filename) (sym same) ∙ m,
                  ap (λ x. x.d_ino) (sym same) ∙ i,
                ),
                λ e. o.1 (u k j here (omega arith) (e ∙ sym m ∙ ap (λ x. x.d_filename) same)),
              )
        ],
        λ ((j, lt, m, i), other).
            let o : ¬ (k ≡ j) = λ e. other (ap (λ x. (entry d x).d_filename) e ∙ m) in
            elim (eq-cases (last d k) j) [
              | inl y ↦
                  let same : entry (without n) k ≡ entry d j =
                    entry-without n k (omega (arith, y.1, o, here))
                    ∙ w.moved (omega (arith, y.1, o, here))
                    ∙ ap (entry d) (y.1) in
                  (
                    k,
                    omega (arith, y.1, o, here),
                    ap (λ x. x.d_filename) same ∙ m,
                    ap (λ x. x.d_ino) same ∙ i,
                  )
              | inr z ↦
                  let same : entry (without n) j ≡ entry d j =
                    entry-without n j (omega (arith, z.1)) ∙ w.kept j (omega (arith, z.1)) o in
                  (
                    j,
                    omega (arith, z.1),
                    ap (λ x. x.d_filename) same ∙ m,
                    ap (λ x. x.d_ino) same ∙ i,
                  )
            ],
      )

      -- An entry stood where it stands, or was the last one.
      origin :
          (n j : ℕ)
          → last d k ≤ n
          → j < last d k
          → (o : ℕ) × (o < d.i_links_count)
            × (entry (without n) j ≡ entry d o)
            × ((k ≡ j) × (o ≡ last d k) ⊎ ¬ (k ≡ j) × (o ≡ j))
      origin n j lo lt = elim (eq-cases k j) [
        | inl y ↦ (
          last d k,
          omega arith,
          ap (entry (without n)) (sym (y.1))
              ∙ entry-without n k (omega (arith, y.1, lt))
              ∙ w.moved (omega (arith, y.1, lt)),
          inl (y.1, refl),
        )
        | inr z ↦
            (j, omega arith, entry-without n j (omega arith) ∙ w.kept j lt (z.1), inr (z.1, refl))
      ]

      pub without-Unique : (n : ℕ) → last d k ≤ n → Unique d → Unique (without n)
      without-Unique n lo u i j lti ltj e =
          let (o, lt, same, from) = origin n i lo lti in
          let (o', lt', same', from') = origin n j lo ltj in
          let one : o ≡ o' =
            u o o' lt lt' (ap (λ x. x.d_filename) (sym same) ∙ e ∙ ap (λ x. x.d_filename) same') in
          ground arith
