-- ===== src/Category/Samples.antt =====
-- Descriptions, and what the matcher and the rules say of them.
use bfx_reports_framework.Base.{ℕ, ◌≡◌, ◌≢◌, refl, none, some, List}
use bfx_reports_framework.Category.Patterns.{codes, to_lower_case}
use bfx_reports_framework.Category.Schema.{schema}
use bfx_reports_framework.Category.FirstMatch.{
  Outcome, get_category-Outcome, get_category-ne-loyalty_fee,
}
use bfx_reports_framework.Category.{get_category_from_description}

exchange : get_category_from_description (codes "Exchange 1.5 BTC for USD @ 7000") ≡ some 5
unfolding get_category_from_description
exchange = refl

position_liquidated :
    get_category_from_description (codes "Position #138 liquidate @ 2.5 on wallet margin") ≡ some 22
unfolding get_category_from_description
position_liquidated = refl

settlement :
    get_category_from_description (codes "Position PL @ .25 settlement (trade) on wallet margin")
    ≡ some 22
unfolding get_category_from_description
settlement = refl

unknown : get_category_from_description (codes "Something else") ≡ none
unfolding get_category_from_description
unknown = refl

loyalty_fee : get_category_from_description (codes "ETHFX loyalty fee on wallet margin") ≡ none
unfolding get_category_from_description
loyalty_fee = refl

abbrev swap_text : List ℕ
swap_text = codes "Position #12 swap"

get_category-Outcome_example :
    Outcome schema (to_lower_case swap_text) (get_category_from_description swap_text)
get_category-Outcome_example = get_category-Outcome swap_text

get_category-ne-loyalty_fee_example : get_category_from_description swap_text ≢ some 243
get_category-ne-loyalty_fee_example = get_category-ne-loyalty_fee swap_text
