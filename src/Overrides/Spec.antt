-- ===== src/Overrides/Spec.antt =====
-- The table of overrides as what it promises: for each kind and target, the last operation and value.
use tdns.Base.{
  if◌then◌else◌, nat_eq, Text, text_eq, ◌==◌, ℕ, ◌&&◌, Option, none, some, List, [], ◌∷◌,
}
use tdns.Overrides.Types.{Kind, Op, Row}
use tdns.Overrides.Store.{
  OverrideStore, has_key, upsert_batch, delete_row, delete_by_kind, get_value,
}
use tdns.Overrides.Types.{kind_eq}

abbrev pub Spec : Type 0
Spec = Kind → Text → Option (Op × Text)

pub data StoreOp : Type 0 where
  put_rows : ℕ → List Row → StoreOp
  remove : Kind → Text → StoreOp
  clear_kind : Kind → StoreOp

abbrev pub run_store : StoreOp → OverrideStore → OverrideStore
run_store (put_rows now rows) s = upsert_batch now rows s
run_store (remove kind target) s = delete_row kind target s
run_store (clear_kind kind) s = delete_by_kind kind s

unfoldable pub run_stores : List StoreOp → OverrideStore → OverrideStore
run_stores [] s = s
run_stores (op ∷ ops) s = run_stores ops (run_store op s)

abbrev pub spec_put : Row → Spec → Spec
spec_put row f kind target =
    if has_key kind target row then some (row.op, row.value) else f kind target

abbrev pub spec_puts : List Row → Spec → Spec
spec_puts [] f = f
spec_puts (row ∷ rows) f = spec_puts rows (spec_put row f)

abbrev pub spec_op : StoreOp → Spec → Spec
spec_op (put_rows now rows) f = spec_puts rows f
spec_op (remove j t) f = λ kind target. if kind == j && target == t then none else f kind target
spec_op (clear_kind j) f = λ kind target. if kind == j then none else f kind target

abbrev pub spec_ops : List StoreOp → Spec → Spec
spec_ops [] f = f
spec_ops (op ∷ ops) f = spec_ops ops (spec_op op f)

abbrev pub content : Option Row → Option (Op × Text)
content none = none
content (some row) = some (row.op, row.value)

-- What a store stands for.
abbrev pub meaning : OverrideStore → Spec
meaning s kind target = content (get_value kind target s)
