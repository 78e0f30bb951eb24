-- ===== src/Overrides/Refinement.antt =====
-- The operations on the table do what its specification says.
use tdns.Base.{
  if◌then◌else◌, nat_eq, Text, text_eq, ◌==◌, Bool-cases, any, ℕ, ◌≡◌, refl, ap, ◌∙◌, inl, inr,
  Bool, true, false, ◌&&◌, Option, none, some, List, [], ◌∷◌,
}
use tdns.Overrides.Types.{Kind, Row}
use tdns.Overrides.Store.{
  OverrideStore, has_key, upsert_row, upsert_batch, delete_row, delete_by_kind,
}
use tdns.Overrides.Spec.{
  Spec, StoreOp, put_rows, remove, clear_kind, run_store, run_stores, spec_put, spec_puts, spec_op,
  spec_ops, content, meaning,
}
use tdns.Overrides.Keys.{
  find_key-update_rows_ne, find_key-update_rows_eq, find_key_concat_ne, find_key_concat_eq,
  find_key-keep_key, find_key-keep_kind,
}
use tdns.Overrides.Types.{kind_eq}

meaning-upsert_row :
    (now : ℕ) (row : Row) (s : OverrideStore) (kind : Kind) (target : Text)
    → meaning (upsert_row now row s) kind target ≡ spec_put row (meaning s) kind target
unfolding upsert_row
meaning-upsert_row now row s kind target =
    let new = record row { id = s.next_id; created_at = now; updated_at = now } in
    elim (Bool-cases (any (has_key row.kind row.target) s.rows)) [
      | inl old ↦ elim (Bool-cases (has_key kind target row)) [
        | inl own ↦ rw (old, own) (find_key-update_rows_eq new s.rows kind target own old)
        | inr ne ↦ rw (old, ne) (find_key-update_rows_ne new s.rows kind target ne)
      ]
      | inr first ↦ elim (Bool-cases (has_key kind target row)) [
        | inl own ↦
            rw (first, own) (ap content (find_key_concat_eq new s.rows kind target own first))
        | inr ne ↦ rw (first, ne) (ap content (find_key_concat_ne new s.rows kind target ne))
      ]
    ]

spec_puts-congr :
    (rows : List Row) (f g : Spec)
    → ((k : Kind) (t : Text) → f k t ≡ g k t)
    → (kind : Kind) (target : Text) → spec_puts rows f kind target ≡ spec_puts rows g kind target
spec_puts-congr [] f g h kind target = h kind target
spec_puts-congr (row ∷ rows) f g h kind target =
    spec_puts-congr rows (spec_put row f) (spec_put row g)
      (λ k t. ap (λ x. if has_key k t row then some (row.op, row.value) else x) (h k t)) kind target

spec_ops-congr :
    (ops : List StoreOp) (f g : Spec)
    → ((k : Kind) (t : Text) → f k t ≡ g k t)
    → (kind : Kind) (target : Text) → spec_ops ops f kind target ≡ spec_ops ops g kind target
spec_ops-congr [] f g h kind target = h kind target
spec_ops-congr (put_rows now rows ∷ ops) f g h kind target =
    spec_ops-congr ops (spec_puts rows f) (spec_puts rows g) (spec_puts-congr rows f g h) kind
      target
spec_ops-congr (remove j u ∷ ops) f g h kind target =
    spec_ops-congr ops (spec_op (remove j u) f) (spec_op (remove j u) g)
      (λ k t. ap (λ x. if k == j && t == u then none else x) (h k t)) kind target
spec_ops-congr (clear_kind j ∷ ops) f g h kind target =
    spec_ops-congr ops (spec_op (clear_kind j) f) (spec_op (clear_kind j) g)
      (λ k t. ap (λ x. if k == j then none else x) (h k t)) kind target

meaning-upsert_batch :
    (now : ℕ) (rows : List Row) (s : OverrideStore) (kind : Kind) (target : Text)
    → meaning (upsert_batch now rows s) kind target ≡ spec_puts rows (meaning s) kind target
unfolding upsert_batch
meaning-upsert_batch now [] s kind target = refl
meaning-upsert_batch now (row ∷ rows) s kind target =
    meaning-upsert_batch now rows (upsert_row now row s) kind target
    ∙ spec_puts-congr rows (meaning (upsert_row now row s)) (spec_put row (meaning s))
        (meaning-upsert_row now row s) kind target

content-if :
    (b : Bool) (o : Option Row) → content (if b then none else o) ≡ (if b then none else content o)
content-if true o = refl
content-if false o = refl

meaning-run_store :
    (op : StoreOp) (s : OverrideStore) (kind : Kind) (target : Text)
    → meaning (run_store op s) kind target ≡ spec_op op (meaning s) kind target
unfolding delete_row delete_by_kind
meaning-run_store (put_rows now rows) s kind target = meaning-upsert_batch now rows s kind target
meaning-run_store (remove j t) s kind target =
    ap content (find_key-keep_key j t s.rows kind target) ∙ content-if (kind == j && target == t) _
meaning-run_store (clear_kind j) s kind target =
    ap content (find_key-keep_kind j s.rows kind target) ∙ content-if (kind == j) _

-- The table, through any batches of insertions, deletions of a key and deletions of a kind, is
-- that map from kinds and targets to the last operation and value put there, which `GetValue` reads.
pub meaning-run_stores :
    (ops : List StoreOp) (s : OverrideStore) (kind : Kind) (target : Text)
    → meaning (run_stores ops s) kind target ≡ spec_ops ops (meaning s) kind target
unfolding run_stores
meaning-run_stores [] s kind target = refl
meaning-run_stores (op ∷ ops) s kind target =
    meaning-run_stores ops (run_store op s) kind target
    ∙ spec_ops-congr ops (meaning (run_store op s)) (spec_op op (meaning s))
        (meaning-run_store op s) kind target
