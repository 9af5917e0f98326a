-- ===== src/Proto/Frame.antt =====
-- senko-proto/src/frame.rs and the error values of senko-core/src/error.rs that the parser returns.
use senko.Prelude.{ℕ, List, Bool, Option, none, some, ◌==◌}
use senko.Prelude.Int.{ℤ}
use Prim.Native.String.{String}

-- The variants of `SenkoError` that the parser makes.
pub data SenkoError : Type 0 where
  utf8 parse_int parse_float : SenkoError
  protocol : String → SenkoError

pub data AggregateKind : Type 0 where
  array map set push : AggregateKind

pub data AggregateEncoding : Type 0 where
  resp inline : AggregateEncoding

pub record Aggregate : Type 0 where
  pub kind : AggregateKind
  pub len : ℕ
  pub bytes : List ℕ
  pub encoding : AggregateEncoding

abbrev pub is_empty : Aggregate → Bool
is_empty a = a.len == 0

-- `F` stands for `f64`.
pub data Frame (F : Type 0) : Type 0 where
  simple_string : List ℕ → Frame F
  simple_error : List ℕ → Frame F
  integer : ℤ → Frame F
  bulk_string : List ℕ → Frame F
  array_frame : Aggregate → Frame F
  null : Frame F
  boolean : Bool → Frame F
  double : F → Frame F
  big_number : List ℕ → Frame F
  blob_error : List ℕ → Frame F
  verbatim_string : List ℕ → List ℕ → Frame F
  map_frame : Aggregate → Frame F
  set_frame : Aggregate → Frame F
  push_frame : Aggregate → Frame F

unfoldable pub aggregate : {F : Type 0} → Frame F → Option Aggregate
aggregate (array_frame a) = some a
aggregate (map_frame a) = some a
aggregate (set_frame a) = some a
aggregate (push_frame a) = some a
aggregate _ = none
