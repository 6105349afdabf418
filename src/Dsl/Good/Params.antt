-- ===== src/Dsl/Good/Params.antt =====
-- The parameter lists of parser.rs: each run ends, with tokens taken.
use schemaforge.Prelude.{String, List, []}
use schemaforge.Dsl.Token.{SpannedToken, lbracket, rbracket, rparen}
use schemaforge.Dsl.Cursor.Total.{
  Total, Any, Total-then, Total-seq, Total-weak, Total-pure, Total-from_option, Total-branch,
  Total-peek_is, Total-skip, Total-expect_that, Total-next_token, Total-comma_separated,
}
use schemaforge.Dsl.Params.{
  string_item, parse_string_list, named_list, parse_named_string_lists, MixedParams, mixed_param,
  parse_named_mixed_params, value_text, param_value, named_param, parse_named_params,
}

Total-string_item : (items : List String) → Total 1 1 Any (string_item items)
unfolding string_item
Total-string_item items = Total-then (Total-expect_that _ _) λ tok x. Total-pure tt

pub Total-parse_string_list : Total 1 1 Any parse_string_list
unfolding parse_string_list
Total-parse_string_list = Total-then (Total-expect_that _ _) λ tok x.
    Total-seq (Total-peek_is rbracket) λ empty y.
      Total-branch empty (λ e. Total-seq Total-skip λ s z. Total-pure tt)
        (λ e.
          Total-seq (Total-weak (Total-comma_separated (λ s i. Total-string_item s) [] tt))
            λ items i. Total-seq (Total-weak (Total-expect_that _ _)) λ close z. Total-pure tt)

Total-named_list : (lists : List (String × List String)) → Total 1 1 Any (named_list lists)
unfolding named_list
Total-named_list lists = Total-then (Total-expect_that _ _) λ key x.
    Total-seq (Total-weak (Total-expect_that _ _))
      λ tok y. Total-seq (Total-weak Total-parse_string_list) λ values z. Total-pure tt

pub Total-parse_named_string_lists : Total 0 0 Any parse_named_string_lists
unfolding parse_named_string_lists
Total-parse_named_string_lists = Total-seq (Total-peek_is rparen) λ empty x.
    Total-branch empty (λ e. Total-pure tt)
      (λ e. Total-weak (Total-comma_separated (λ s i. Total-named_list s) [] tt))

Total-mixed_param : (params : MixedParams) → Total 1 1 Any (mixed_param params)
unfolding mixed_param
Total-mixed_param params = Total-then (Total-expect_that _ _) λ key x.
    Total-seq (Total-weak (Total-expect_that _ _)) λ tok y.
      Total-seq (Total-peek_is lbracket) λ bracket z.
        Total-branch bracket
          (λ e. Total-seq (Total-weak Total-parse_string_list) λ values i. Total-pure tt)
          (λ e. Total-seq (Total-weak (Total-expect_that _ _)) λ value i. Total-pure tt)

pub Total-parse_named_mixed_params : Total 0 0 Any parse_named_mixed_params
unfolding parse_named_mixed_params
Total-parse_named_mixed_params = Total-seq (Total-peek_is rparen) λ empty x.
    Total-branch empty (λ e. Total-pure tt)
      (λ e. Total-weak (
        Total-comma_separated (λ s i. Total-mixed_param s) (record { lists = []; scalars = [] })
          tt))

Total-param_value : (tok : SpannedToken) → Total 0 0 Any (param_value tok)
unfolding param_value
Total-param_value tok = Total-from_option _ (value_text tok.token tok.text) λ s e. tt

Total-named_param : (params : List (String × String)) → Total 1 1 Any (named_param params)
unfolding named_param
Total-named_param params = Total-then (Total-expect_that _ _) λ key x.
    Total-seq (Total-weak (Total-expect_that _ _)) λ tok y.
      Total-seq (Total-weak (Total-next_token _))
        λ value z. Total-seq (Total-param_value value) λ s i. Total-pure tt

pub Total-parse_named_params : Total 0 0 Any parse_named_params
unfolding parse_named_params
Total-parse_named_params = Total-seq (Total-peek_is rparen) λ empty x.
    Total-branch empty (λ e. Total-pure tt)
      (λ e. Total-weak (Total-comma_separated (λ s i. Total-named_param s) [] tt))
