-- ===== src/Mcp/Facade/Found.antt =====
-- Which operation a name finds.
use gongcli_mcp.Prelude.{
  String, ◌==◌, ◌≡◌, subst, eq_iff, some, List, [], ◌∷◌, Any, arith, Bool-cases, inl, inr,
}
use gongcli_mcp.Text.{is_nil, trim_space}
use gongcli_mcp.Mcp.Facade.{
  FacadeOperation, facade_operations, find_operation, facade_operation_by_name,
}

-- An operation of the table, with this name.
abbrev pub IsOperation : String → FacadeOperation → Type 0
IsOperation name op = (op.name ≡ trim_space name) × Any (λ o. o ≡ op) facade_operations

some-operation : (a b : FacadeOperation) → some a ≡ some b → a ≡ b
some-operation a b e = ground arith

find_operation-Found :
    (name : String) (ops : List FacadeOperation) (op : FacadeOperation)
    → find_operation name ops ≡ some op
    → (op.name ≡ name) × Any (λ o. o ≡ op) ops
unfolding find_operation
find_operation-Found name [] op e = cc
find_operation-Found name (o ∷ ops) op e = elim (Bool-cases (o.name == name)) [
  | inl same ↦
      let here = some-operation o op (rw (same, find_operation) at e) in
      (subst (λ x. x.name ≡ name) here ((eq_iff o.name name).0 same), inl here)
  | inr other ↦
      let there = find_operation-Found name ops op (rw (other, find_operation) at e) in
      (there.0, inr there.1)
]

pub facade_operation_by_name-IsOperation :
    (name : String) (op : FacadeOperation)
    → facade_operation_by_name name ≡ some op
    → IsOperation name op
unfolding facade_operation_by_name
facade_operation_by_name-IsOperation name op e = elim (Bool-cases (is_nil (trim_space name))) [
  | inl blank ↦ let no = rw (blank, facade_operation_by_name) at e in cc
  | inr full ↦
      find_operation-Found (trim_space name) facade_operations op
        (rw (full, facade_operation_by_name) at e)
]
