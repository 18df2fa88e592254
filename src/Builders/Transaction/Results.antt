-- ===== src/Builders/Transaction/Results.antt =====
-- The results of a transaction (transaction.go).
use curator_go.Base.{◌≡◌, refl, some, List, [], ◌∷◌, arith, length, Bytes}
use curator_go.Zk.{
  Request, create_request, delete_request, set_data_request, check_version_request, MultiResponse,
}
use curator_go.Builders.Transaction.{
  OperationType, op_create, op_delete, op_set_data, op_check, TransactionResult, result_of,
  results_of,
}

abbrev pub request_type : {A : Type 0} → Request A → OperationType
request_type (create_request path payload acl flags) = op_create
request_type (delete_request path version) = op_delete
request_type (set_data_request path payload version) = op_set_data
request_type (check_version_request path version) = op_check

abbrev pub request_path : {A : Type 0} → Request A → Bytes
request_path (create_request path payload acl flags) = path
request_path (delete_request path version) = path
request_path (set_data_request path payload version) = path
request_path (check_version_request path version) = path

-- One result belongs to one operation: the same kind and the same path.
abbrev pub Match : {A T : Type 0} → List (Request A) → List (TransactionResult T) → Type 0
Match [] [] = Unit
Match [] (r ∷ results) = ⊥
Match (o ∷ operations) [] = ⊥
Match (o ∷ operations) (r ∷ results) =
    (r.operation ≡ request_type o) × (r.for_path ≡ request_path o) × Match operations results

result_of-matches :
    {A T : Type 0} (namespace : Bytes) (o : Request A) (r : MultiResponse T)
    → ((result_of namespace o r).operation ≡ request_type o)
      × ((result_of namespace o r).for_path ≡ request_path o)
unfolding result_of
result_of-matches namespace (create_request path payload acl flags) r = (refl, refl)
result_of-matches namespace (delete_request path version) r = (refl, refl)
result_of-matches namespace (set_data_request path payload version) r = (refl, refl)
result_of-matches namespace (check_version_request path version) r = (refl, refl)

-- Where the server answers with one response for each operation, the loop of Commit returns one
-- result for each operation, in the order in which they were added, with the operation's kind and
-- path.
pub results_of-Match :
    {A T : Type 0} (namespace : Bytes) (operations : List (Request A))
    (responses : List (MultiResponse T))
    → length operations ≡ length responses
    → (results : List (TransactionResult T)) × (results_of namespace operations responses
        ≡ some results)
      × Match operations results
unfolding results_of
results_of-Match namespace [] [] e = ([], refl, tt)
results_of-Match namespace [] (r ∷ responses) e = absurd (omega arith)
results_of-Match namespace (o ∷ operations) [] e = absurd (omega arith)
results_of-Match namespace (o ∷ operations) (r ∷ responses) e =
    let (results, found, same) = results_of-Match namespace operations responses (omega arith) in
    let (kind, path) = result_of-matches namespace o r in
    (result_of namespace o r ∷ results, rw (found, results_of), (kind, path, same))
