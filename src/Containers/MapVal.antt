-- ===== src/Containers/MapVal.antt =====
-- The host value `mapVal` of avl.go, and the arguments and charges of the primitives on it. A map keeps
-- the comparison it was made with. What `ChargeAlloc` answers is an argument, since the evaluator
-- charges the same budget; of several charges, an answer for each by its number. A `size` counts nodes
-- in memory, and it and its product with a cost stay in the range of an `int`.
pub mod Laws
use gicel.Prelude.{ℕ, Bool, Option, none, some, if◌then◌else◌}
use gicel.Prelude.Int.{ℤ, pos, ◌+ℤ◌, ◌-ℤ◌}
use gicel.Budget.{LimitError}
use gicel.Avl.Applier.{Answer, ok, err, bad_argument, limited, Value}
use gicel.Avl.Tree.{AvlNode, nil}

pub record MapVal (K V C E : Type 0) : Type 0 where
  pub root : AvlNode K V
  pub cmp : K → K → C → Answer C E Value
  pub size : ℤ

-- An argument that should be a map.
pub data HostArg (K V C E : Type 0) : Type 0 where
  map_arg : MapVal K V C E → HostArg K V C E
  other_arg : HostArg K V C E

-- A value that should be a list: `Nil`, a `Cons` with two arguments, or another value.
pub data ListVal (A : Type 0) : Type 0 where
  nil_val : ListVal A
  cons_val : A → ListVal A → ListVal A
  other_list : ListVal A

-- An element that should be a tuple with `_1` and `_2`.
pub data PairVal (K V : Type 0) : Type 0 where
  pair_val : K → V → PairVal K V
  other_pair : PairVal K V

abbrev pub cost_cons_node : ℤ
cost_cons_node = pos 64

abbrev pub cost_tuple_node : ℤ
cost_tuple_node = pos 80

abbrev pub cost_avl_node : ℤ
cost_avl_node = pos 64

-- The rest of a body after a charge.
abbrev pub when_charged : {C E A : Type 0} → Option LimitError → C → Answer C E A → Answer C E A
when_charged (some e) ce rest = err (limited e) ce
when_charged none ce rest = rest

module _ {K V C E : Type 0} where
  abbrev pub as_map_val : HostArg K V C E → C → Answer C E (MapVal K V C E)
  as_map_val (map_arg m) ce = ok m ce
  as_map_val other_arg ce = err bad_argument ce

  -- The map around a new root, with its size.
  abbrev pub grown : MapVal K V C E → AvlNode K V × Bool → MapVal K V C E
  grown m (root, inserted) = record {
    root = root;
    cmp = m.cmp;
    size = if inserted then m.size +ℤ pos 1 else m.size;
  }

  abbrev pub shrunk : MapVal K V C E → AvlNode K V × Bool → MapVal K V C E
  shrunk m (root, deleted) = record {
    root = root;
    cmp = m.cmp;
    size = if deleted then m.size -ℤ pos 1 else m.size;
  }

  abbrev pub empty_map : (K → K → C → Answer C E Value) → MapVal K V C E
  empty_map cmp = record { root = nil; cmp = cmp; size = pos 0 }
