-- ===== src/Config/Ir.antt =====
-- internal/config/ir.go and strategy.go: the IR of a flag. A pointer to a predicate is a tree whose
-- `nil` is the nil pointer; what no field constrains is kept as the source has it.
use false_flag_demo.Base.{String, Option, List}
use false_flag_demo.Base.Int.{ℤ}
use false_flag_demo.Base.Text.{StringMap}
use false_flag_demo.Values.{RawMessage}
use false_flag_demo.Values.Services.{CelProgram}

-- A Go string type with named constants: any other text is `other`.
pub data ValueType : Type 0 where
  boolean string number object : ValueType
  other : String → ValueType

pub data PredicateKind : Type 0 where
  eq neq in_values gt gte lt lte matches starts_with rollout : PredicateKind
  all any not cel always segment : PredicateKind
  unknown : String → PredicateKind

-- The fields of a `Predicate` but its kind and its children.
pub record Leaf : Type 0 where
  pub attr : String
  pub value : RawMessage
  pub values : List RawMessage
  pub pattern : String
  pub salt : String
  pub percent : ℤ
  pub source : String
  pub segment_key : String

-- `node kind leaf of of_one`.
mutual
  pub data Predicate : Type 0 where
    nil : Predicate
    node : PredicateKind → Leaf → Predicates → Predicate → Predicate

  pub data Predicates : Type 0 where
    end : Predicates
    cons : Predicate → Predicates → Predicates

pub record Rule : Type 0 where
  pub id : String
  pub when : Predicate
  pub value : RawMessage

pub record RulesTree : Type 0 where
  pub value_type : ValueType
  pub default : RawMessage
  pub rules : List Rule

pub data Strategy : Type 0 where
  json cel typescript : Strategy
  other : String → Strategy

-- `ir` is a pointer that may be nil.
pub record Compiled : Type 0 where
  pub strategy : Strategy
  pub ir : Option RulesTree
  pub cel_programs : StringMap CelProgram
