-- ===== src/Keyvalue/Reply.antt =====
-- keyvalue/engine/engine.cppm: ExecutionResult and the functions that make one.
use plexdb.Prelude.{List, [], Option}
use plexdb.Prelude.Int.{ℤ, pos}
use plexdb.Core.Text.{Bytes}

pub data ExecutionStatus : Type 0 where
  ok not_found error close : ExecutionStatus

pub data ResultKind : Type 0 where
  none simple_str bulk_str int arr null_arr scan : ResultKind

pub record ExecutionResult : Type 0 where
  pub status : ExecutionStatus
  pub kind : ResultKind
  pub str : Bytes
  pub integer : ℤ
  pub arr : List Bytes
  pub null_arr : List (Option Bytes)
  pub cursor : Bytes
  pub error_message : Bytes

-- A new ExecutionResult, by its members' initialisers.
abbrev pub fresh : ExecutionResult
fresh = record {
  status = ok;
  kind = none;
  str = [];
  integer = pos 0;
  arr = [];
  null_arr = [];
  cursor = [];
  error_message = [];
}

abbrev pub create_not_found : ExecutionResult
create_not_found = record fresh { status = not_found }

abbrev pub create_close : ExecutionResult
create_close = record fresh { status = close }

abbrev pub create_error : Bytes → ExecutionResult
create_error msg = record fresh { status = error; error_message = msg }

abbrev pub create_simple : Bytes → ExecutionResult
create_simple s = record fresh { kind = simple_str; str = s }

abbrev pub create_bulk : Bytes → ExecutionResult
create_bulk s = record fresh { kind = bulk_str; str = s }

abbrev pub create_int : ℤ → ExecutionResult
create_int n = record fresh { kind = int; integer = n }

abbrev pub create_arr : List Bytes → ExecutionResult
create_arr a = record fresh { kind = arr; arr = a }

abbrev pub create_null_arr : List (Option Bytes) → ExecutionResult
create_null_arr a = record fresh { kind = null_arr; null_arr = a }

abbrev pub create_scan : Bytes → List Bytes → ExecutionResult
create_scan cursor keys = record fresh { kind = scan; cursor = cursor; arr = keys }
