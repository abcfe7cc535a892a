-- ===== src/Lease/PublicErrors.antt =====
-- The public errors of lease operations: src/automation/lease/error.rs against
-- src/automation/contracts/error_contract.rs.
use aictx.Base.{◌≡◌, true, Option, none, some, Text, ok, arith, if◌then◌else◌}
use aictx.Contracts.ErrorContract.{
  AutomationOperation, AutomationError, is_common, valid_for, requires_lease_id, validate,
}
use aictx.Lease.Error.{LeaseDomainError, automation_code}

automation_code-valid_for :
    (e : LeaseDomainError) (op : AutomationOperation) → valid_for (automation_code e op) op ≡ true
unfolding automation_code valid_for is_common
automation_code-valid_for e op = ground arith

-- The public error of a lease error, which names the lease where the contract requires it.
abbrev pub public_error :
    LeaseDomainError → AutomationOperation → Option Text → Text → AutomationError
public_error e op request lease = record {
  operation = op;
  code = automation_code e op;
  client_request_id = request;
  lease_id = if requires_lease_id (automation_code e op) op then some lease else none;
}

-- Every lease error has a public code that the contract of the operation admits: the error that
-- carries it, with the lease's id where the contract requires one, passes `validate`.
pub public_error-validate :
    (e : LeaseDomainError) (op : AutomationOperation) (request : Option Text) (lease : Text)
    → validate (public_error e op request lease) ≡ ok tt
unfolding validate
public_error-validate e op request lease = let v = automation_code-valid_for e op in ground arith
