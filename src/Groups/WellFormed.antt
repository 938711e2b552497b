-- ===== src/Groups/WellFormed.antt =====
-- A well-formed block group: its place, its bitmap and its count.
use nvfuse.Prelude.{
  ℕ, zero, suc, ◌+◌, ◌*◌, ◌%◌, ◌/◌, ◌^◌, ◌<◌, ◌≤◌, ◌≡◌, ap, ◌∙◌, ◌⊎◌, true, false, arith, length,
  ◌==◌,
}
use nvfuse.Groups.Defs.{Group, inc_u32}
use nvfuse.Groups.Accounts.{count_clear}
use native.Mathlib.Nat.{mod-eq_of_lt, mul-add-mod_self_right, div-eq_of_lt, mul-add-div_right}

-- The first data block of a group of `n` blocks, as an offset in it.
abbrev pub data_start : ℕ → Group → ℕ
data_start n g = g.bd.bd_dtable_start % n

-- A well-formed group: it has its number and its place, metadata before its data, a bitmap for all of
-- its blocks, and the count of its free data blocks.
pub record IsGroup (n bg_id : ℕ) (g : Group) : Type 0 where
  pub numbered : g.bd.bd_id ≡ bg_id
  pub starts : g.bd.bd_bg_start ≡ bg_id * n
  pub in_range : bg_id * n + n < 2 ^ 32
  pub int_range : n < 2 ^ 31
  pub some_blocks : 1 ≤ n
  pub metadata : 1 ≤ data_start n g
  pub bits : n ≤ 8 * length g.dbitmap
  pub next_place : (data_start n g ≤ g.bd.bd_next_block % n) ⊎ (g.bd.bd_next_block % n ≡ 0)
  pub counted : g.bd.bd_free_blocks ≡ count_clear (data_start n g) n g.dbitmap

pub same_group : (bg_id n place : ℕ) → place < n → (bg_id * n + place) / n ≡ bg_id
same_group bg_id zero place h = absurd (omega arith)
same_group bg_id (suc k) place h =
    mul-add-div_right {m = suc k} (omega arith) bg_id place
    ∙ ap (λ d. bg_id + d) (div-eq_of_lt h)
    ∙ omega arith

pub not_zero : (n place : ℕ) → place < n → (n == 0) ≡ false
not_zero n place h = ground arith

pub equal_test : (a b : ℕ) → a ≡ b → (a == b) ≡ true
equal_test a b e = ground arith

-- The group with another count.
abbrev pub with_free : ℕ → Group → Group
with_free left g = record g { bd = record g.bd { bd_free_blocks = left } }

pub block_number :
    (start bg_id n place : ℕ)
    → start ≡ bg_id * n
    → bg_id * n + n < 2 ^ 32
    → place < n
    → inc_u32 start place ≡ bg_id * n + place
block_number start bg_id n place e r h = omega arith

pub same_place : (bg_id n place : ℕ) → place < n → (bg_id * n + place) % n ≡ place
same_place bg_id n place h = mul-add-mod_self_right bg_id n place ∙ mod-eq_of_lt h
