-- ===== src/Avl/Ints.antt =====
-- Numbers as keys, for runs of avl.go and of the modules on it. The comparison counts its calls in the
-- environment.
use gicel.Prelude.{ℕ, ◌+◌, ◌≡◌, arith, compare, Ordering}
use Prim.Native.Nat.Ordering.{lt, eq, gt}
use gicel.Avl.Applier.{Answer, ok, Value, con_val, order_lt, order_eq, order_gt, compare_keys}
use gicel.Avl.Sorted.{LawfulOrder, Decides}

abbrev pub name_of : Ordering → Value
name_of lt = con_val order_lt
name_of eq = con_val order_eq
name_of gt = con_val order_gt

abbrev pub compare_ints : ℕ → ℕ → ℕ → Answer ℕ ⊥ Value
compare_ints a b calls = ok (name_of (compare a b)) (calls + 1)

abbrev pub int_order : LawfulOrder ℕ
int_order = record {
  order = compare;
  order_refl = λ a. ground arith;
  eq_of_order = λ a b h. ground arith;
  lt_of_gt = λ a b h. ground arith;
  gt_of_lt = λ a b h. ground arith;
  lt_trans = λ a b c h k. ground arith;
}

pub int_decides :
    (a b calls : ℕ) → compare_keys compare_ints a b calls ≡ ok (compare a b) (calls + 1)
unfolding compare_keys
int_decides a b calls = ground arith

abbrev pub ints : Decides compare_ints int_order
ints = record { after = λ a b calls. calls + 1; decides = int_decides }
