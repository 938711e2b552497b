-- ===== src/Run.antt =====
-- What a call of the C code comes to: a result, a failed `assert` (the sources compile without
-- NDEBUG), an access outside an array, or a loop that never ends.
use nvfuse.Prelude.{Bool, true, false, ◌≡◌, refl, if◌then◌else◌}

pub data Run {u} (R : Type u) : Type u where
  abort fault hang : Run R
  ok : R → Run R

abbrev pub ◌>>=◌ {u v} : {R : Type u} {S : Type v} (call : Run R) (then_do : R → Run S) → Run S
abort >>= then_do = abort
fault >>= then_do = fault
hang >>= then_do = hang
ok result >>= then_do = then_do result

-- A call whose result is not used.
abbrev pub ◌>>◌ {u v} : {R : Type u} {S : Type v} (call : Run R) (next : Run S) → Run S
call >> next = call >>= (λ _. next)

infixl 5 ◌>>=◌ ◌>>◌
-- assert(condition)
abbrev pub assert : (condition : Bool) → Run (Unit {0})
assert condition = if condition then ok tt else abort

-- A test whose branches both return.
pub if-ok {u} :
    {R : Type u} (condition : Bool) (x y : R)
    → (if condition then ok x else ok y) ≡ ok (if condition then x else y)
if-ok true x y = refl
if-ok false x y = refl

-- Two continuations that agree.
pub bind_congr {u v} :
    {R : Type u} {S : Type v} (m : Run R) {f g : R → Run S}
    → ((r : R) → f r ≡ g r)
    → (m >>= f) ≡ (m >>= g)
bind_congr abort e = refl
bind_congr fault e = refl
bind_congr hang e = refl
bind_congr (ok r) e = e r

pub >>=_ok {u} : {R : Type u} (m : Run R) → (m >>= ok) ≡ m
>>=_ok abort = refl
>>=_ok fault = refl
>>=_ok hang = refl
>>=_ok (ok r) = refl
