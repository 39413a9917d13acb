-- ===== src/Double.antt =====
-- What zsr uses of C's `double`, and `round_with_prec` of libzsr/common.c over it. The type and its
-- operations are a parameter: nothing is assumed of them.
use zsr.Prelude.{ℕ, Bool, false, true, Bytes, [], ◌==◌, ltb, if◌then◌else◌}

pub record Double : Type 1 where
  pub F : Type 0
  -- the conversion of a uint64_t
  pub of_u64 : ℕ → F
  pub add : F → F → F
  pub sub : F → F → F
  pub mul : F → F → F
  pub div : F → F → F
  pub neg : F → F
  pub pow : F → F → F
  -- `(int64_t)x`, as a double again
  pub trunc : F → F
  -- `x == 0` and `x > 0`
  pub is_zero : F → Bool
  pub is_positive : F → Bool
  -- `printf("%.2f", x)`
  pub print_2f : F → Bytes

module _ (D : Double) where
  open D use {F, of_u64, add, sub, mul, div, neg, pow, trunc, is_zero, is_positive}

  half : F
  half = div (of_u64 1) (of_u64 2)

  unfoldable pub round_with_prec : F → ℕ → F
  unfolding half
  round_with_prec d precision =
      if is_zero d
      then d
      else (let i = mul d (pow (of_u64 10) (of_u64 precision)) in
          let rounded = trunc (if is_positive d then add i half else sub i half) in
          mul rounded (pow (of_u64 10) (neg (of_u64 precision))))

-- A `double` as the expression that computes it, for a concrete look at what is computed.
pub data Expr : Type 0 where
  lit : ℕ → Expr
  add sub mul div pow : Expr → Expr → Expr
  neg trunc : Expr → Expr

abbrev pub symbolic : Double
symbolic = record {
  F = Expr;
  of_u64 = lit;
  add = Expr.add;
  sub = Expr.sub;
  mul = Expr.mul;
  div = Expr.div;
  neg = Expr.neg;
  pow = Expr.pow;
  trunc = Expr.trunc;
  is_zero = λ x. elim x [ lit n ↦ n == 0 | _ ↦ false ];
  is_positive = λ x. elim x [ lit n ↦ ltb 0 n | _ ↦ true ];
  print_2f = λ x. [];
}
