-- ===== src/Derivation/Expressions.antt =====
-- The column expressions of domain/workspace/provenance.py and their validators. A JSON object that a
-- filter compares with is only carried, and is a number.
use ldaca_wordflow_backend.Base.{ℕ, suc, Bool, true, false, ◌&&◌, List, length, leb}
use ldaca_wordflow_backend.Text.{Text}

-- `str | int | float | bool | None`
pub data FilterScalar : Type 0 where
  string : Text → FilterScalar
  integer : (is_negative : Bool) (magnitude : ℕ) → FilterScalar
  float : (is_negative : Bool) (magnitude : ℕ) → FilterScalar
  boolean : Bool → FilterScalar
  null : FilterScalar

pub data FilterValue : Type 0 where
  scalar : FilterScalar → FilterValue
  scalars : List FilterScalar → FilterValue
  mapping : ℕ → FilterValue

pub data BinaryOperator : Type 0 where
  add subtract multiply divide modulo eq ne gt gte lt lte and_also or_else is_in fill_null :
      BinaryOperator

pub data UnaryOperator : Type 0 where
  negation is_null is_not_null absolute lowercase uppercase year month day sum mean minimum maximum
        count n_unique :
      UnaryOperator

pub data StringOperator : Type 0 where
  contains starts_with ends_with : StringOperator

pub data ExpressionType : Type 0 where
  string_type integer_type float_type boolean_type datetime_type date_type : ExpressionType

pub data LiteralValue : Type 0 where
  one : FilterScalar → LiteralValue
  many : List FilterScalar → LiteralValue

-- `ExpressionSpec`, with the operands of a concatenation.
mutual
  pub data Expression : Type 0 where
    column : (name : Text) → Expression
    literal : LiteralValue → Expression
    binary : BinaryOperator → (left right : Expression) → Expression
    unary : UnaryOperator → (operand : Expression) → Expression
    string_test :
        StringOperator → (operand : Expression) (value : Text) (is_literal : Bool) → Expression
    cast : (operand : Expression) (dtype : ExpressionType) (strict : Bool) → Expression
    round : (operand : Expression) (decimals : ℕ) → Expression
    concat_string : (operands : Operands) (separator : Text) → Expression

  pub data Operands : Type 0 where
    none_left : Operands
    operand : Expression → Operands → Operands

-- `min_length` and `max_length`
abbrev pub is_text_between : ℕ → ℕ → Text → Bool
is_text_between low high t = leb low (length t) && leb (length t) high

abbrev pub is_list_literal : Expression → Bool
is_list_literal (literal (many values)) = true
is_list_literal _ = false

-- `validate_membership_values`
abbrev pub has_membership_values : BinaryOperator → Expression → Bool
has_membership_values is_in right = is_list_literal right
has_membership_values _ right = true

abbrev pub count_operands : Operands → ℕ
count_operands none_left = 0
count_operands (operand e es) = suc (count_operands es)

unfoldable mutual
  pub is_valid_expression : Expression → Bool
  is_valid_expression (column name) = is_text_between 1 200 name
  is_valid_expression (literal value) = true
  is_valid_expression (binary op left right) =
      is_valid_expression left && is_valid_expression right && has_membership_values op right
  is_valid_expression (unary op e) = is_valid_expression e
  is_valid_expression (string_test op e value is_literal) = is_valid_expression e
  is_valid_expression (cast e dtype strict) = is_valid_expression e
  is_valid_expression (round e decimals) = is_valid_expression e && leb decimals 15
  is_valid_expression (concat_string operands separator) =
      leb 2 (count_operands operands)
      && leb (count_operands operands) 100
      && are_valid_operands operands
      && leb (length separator) 100

  pub are_valid_operands : Operands → Bool
  are_valid_operands none_left = true
  are_valid_operands (operand e es) = is_valid_expression e && are_valid_operands es
