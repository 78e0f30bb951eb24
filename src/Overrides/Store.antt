-- ===== src/Overrides/Store.antt =====
-- internal/overrides/store.go: the table of overrides, in which a kind and a target stand once. A
-- statement that the database cannot carry out is left out.
use tdns.Overrides.Types.{kind_eq}
use tdns.Base.{
  ltb, leb, eqb, if◌then◌else◌, nat_eq, Text, text_eq, ◌==◌, keep, any, ℕ, ◌+◌, Bool, not, ◌&&◌,
  ◌||◌, Option, none, some, List, [], ◌∷◌, ◌++◌,
}
use tdns.Base.Sorting.{sort_by, text_leb}
use tdns.Overrides.Types.{Kind, Row, kind_number}

-- The next number of a row, and the rows in the order in which they were inserted.
pub record OverrideStore : Type 0 where
  pub next_id : ℕ
  pub rows : List Row

abbrev pub has_key : Kind → Text → Row → Bool
has_key kind target row = row.kind == kind && row.target == target

-- `ON CONFLICT(kind, target) DO UPDATE`
unfoldable pub update_rows : Row → List Row → List Row
update_rows new [] = []
update_rows new (row ∷ rows) =
    (if has_key new.kind new.target row
      then record row { op = new.op; value = new.value; updated_at = new.updated_at }
      else row)
    ∷ update_rows new rows

unfoldable pub upsert_row : ℕ → Row → OverrideStore → OverrideStore
upsert_row now row s =
    let new = record row { id = s.next_id; created_at = now; updated_at = now } in
    if any (has_key row.kind row.target) s.rows
    then record s { rows = update_rows new s.rows }
    else record s { next_id = s.next_id + 1; rows = s.rows ++ new ∷ [] }

unfoldable pub upsert_batch : ℕ → List Row → OverrideStore → OverrideStore
upsert_batch now [] s = s
upsert_batch now (row ∷ rows) s = upsert_batch now rows (upsert_row now row s)

unfoldable pub delete_row : Kind → Text → OverrideStore → OverrideStore
delete_row kind target s = record s { rows = keep (λ row. not (has_key kind target row)) s.rows }

unfoldable pub delete_by_kind : Kind → OverrideStore → OverrideStore
delete_by_kind kind s = record s { rows = keep (λ row. not (row.kind == kind)) s.rows }

unfoldable pub find_key : Kind → Text → List Row → Option Row
find_key kind target [] = none
find_key kind target (row ∷ rows) =
    let rest = find_key kind target rows in if has_key kind target row then some row else rest

-- `GetValue`
abbrev pub get_value : Kind → Text → OverrideStore → Option Row
get_value kind target s = find_key kind target s.rows

-- `ORDER BY kind, target, id`
abbrev row_leb : Row → Row → Bool
row_leb a b =
    ltb (kind_number a.kind) (kind_number b.kind)
    || (eqb (kind_number a.kind) (kind_number b.kind)
        && ((text_leb a.target b.target && not (a.target == b.target))
            || (a.target == b.target && leb a.id b.id)))

abbrev list_rows : OverrideStore → List Row
list_rows s = sort_by row_leb s.rows

abbrev list_by_kind : Kind → OverrideStore → List Row
list_by_kind kind s = sort_by row_leb (keep (λ row. row.kind == kind) s.rows)
