-- ===== src/Builders/Transaction.antt =====
-- transaction.go: operations that are collected and committed as one request.
pub mod Results
use curator_go.Base.{
  ℕ, Bool, true, false, Option, none, some, List, [], ◌∷◌, ◌++◌, if◌then◌else◌, Bytes, ℤ,
}
use curator_go.Errors.{Err}
use curator_go.Zk.{
  Slice, any_version, Request, create_request, delete_request, set_data_request,
  check_version_request, MultiResponse, elements,
}
use curator_go.Namespace.{unfix_for_namespace}
use curator_go.Framework.{Framework, Session, Acling, get_acl_list, fixed, retried}

pub data OperationType : Type 0 where
  op_create op_delete op_set_data op_check : OperationType

pub record TransactionResult (T : Type 0) : Type 0 where
  pub operation : OperationType
  pub for_path : Bytes
  pub result_path : Bytes
  pub result_stat : Option T

pub record Transaction (A : Type 0) : Type 0 where
  pub operations : List (Request A)

-- The `switch` of Commit for one response.
unfoldable pub result_of :
    {A T : Type 0} → Bytes → Request A → MultiResponse T → TransactionResult T
result_of namespace (create_request path payload acl flags) r = record {
  operation = op_create;
  for_path = path;
  result_path = unfix_for_namespace namespace r.string;
  result_stat = none;
}
result_of namespace (delete_request path version) r = record {
  operation = op_delete;
  for_path = path;
  result_path = [];
  result_stat = none;
}
result_of namespace (set_data_request path payload version) r = record {
  operation = op_set_data;
  for_path = path;
  result_path = [];
  result_stat = r.stat;
}
result_of namespace (check_version_request path version) r = record {
  operation = op_check;
  for_path = path;
  result_path = [];
  result_stat = none;
}

-- The loop of Commit; `none` is the panic of an index out of range.
unfoldable pub results_of :
    {A T : Type 0}
    → Bytes
    → List (Request A)
    → List (MultiResponse T)
    → Option (List (TransactionResult T))
unfolding result_of
results_of namespace operations [] = some []
results_of namespace [] (r ∷ responses) = none
results_of namespace (o ∷ operations) (r ∷ responses) =
    elim (results_of namespace operations responses) [
      | none ↦ none
      | some results ↦ some (result_of namespace o r ∷ results)
    ]

pub record TransactionCreateBuilder (A : Type 0) : Type 0 where
  pub create_mode : ℕ
  pub compress : Bool
  pub acling : Acling A

pub record TransactionDeleteBuilder : Type 0 where
  pub version : ℤ

pub record TransactionSetDataBuilder : Type 0 where
  pub version : ℤ
  pub compress : Bool

pub record TransactionCheckBuilder : Type 0 where
  pub version : ℤ

-- Appending to the operations.
abbrev pub add : {A : Type 0} → Transaction A → Request A → Transaction A
add t o = record { operations = t.operations ++ o ∷ [] }

module _ {S A T : Type 0} (f : Framework S A T) where
  -- The builders that a transaction starts.
  transaction_create : TransactionCreateBuilder A
  transaction_create = record {
    create_mode = 0;
    compress = false;
    acling = record { acl_list = none; acl_provider = f.acl_provider };
  }

  -- The compressed payload; an error is dropped with the payload.
  packed : Bool → Bytes → Slice ℕ → Slice ℕ
  packed compress path payload = if compress then (f.compress path payload).0 else payload

  pub transaction_create_for_path_with_data :
      ℕ
      → TransactionCreateBuilder A
      → Bytes
      → Slice ℕ
      → Transaction A
      → Session S
      → Option (Transaction A × Session S)
  unfolding packed
  transaction_create_for_path_with_data fuel b path payload t s = elim (fixed f fuel path s) [
    | none ↦ none
    | some (adjusted, s1) ↦ some (
      add t (
          create_request adjusted (packed b.compress path payload) (get_acl_list b.acling path)
            b.create_mode),
      s1,
    )
  ]

  pub transaction_delete_for_path :
      ℕ
      → TransactionDeleteBuilder
      → Bytes
      → Transaction A
      → Session S
      → Option (Transaction A × Session S)
  transaction_delete_for_path fuel b path t s = elim (fixed f fuel path s) [
    | none ↦ none
    | some (adjusted, s1) ↦ some (add t (delete_request adjusted b.version), s1)
  ]

  pub transaction_set_data_for_path_with_data :
      ℕ
      → TransactionSetDataBuilder
      → Bytes
      → Slice ℕ
      → Transaction A
      → Session S
      → Option (Transaction A × Session S)
  unfolding packed
  transaction_set_data_for_path_with_data fuel b path payload t s = elim (fixed f fuel path s) [
    | none ↦ none
    | some (adjusted, s1) ↦
        some (add t (set_data_request adjusted (packed b.compress path payload) b.version), s1)
  ]

  pub transaction_check_for_path :
      ℕ
      → TransactionCheckBuilder
      → Bytes
      → Transaction A
      → Session S
      → Option (Transaction A × Session S)
  transaction_check_for_path fuel b path t s = elim (fixed f fuel path s) [
    | none ↦ none
    | some (adjusted, s1) ↦ some (add t (check_version_request adjusted b.version), s1)
  ]

  -- Commit: the results, `none` for a panic, and the error.
  pub commit :
      ℕ
      → Transaction A
      → Session S
      → Option ((Option (List (TransactionResult T)) × Option Err) × Session S)
  commit fuel t s = elim (retried f fuel none (f.conn.multi t.operations) s) [
    | none ↦ none
    | some ((responses, err), s1) ↦
        some ((results_of f.namespace.namespace t.operations (elements responses), err), s1)
  ]

-- The options of the create builder.
transaction_create_with_mode :
    {A : Type 0} → ℕ → TransactionCreateBuilder A → TransactionCreateBuilder A
transaction_create_with_mode mode b = record b { create_mode = mode }

transaction_create_with_acl :
    {A : Type 0} → Slice A → TransactionCreateBuilder A → TransactionCreateBuilder A
transaction_create_with_acl acls b = record b { acling = record b.acling { acl_list = acls } }

transaction_create_compressed :
    {A : Type 0} → TransactionCreateBuilder A → TransactionCreateBuilder A
transaction_create_compressed b = record b { compress = true }
