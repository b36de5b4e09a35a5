-- ===== src/Category/Schema.antt =====
-- The rules of get-category-from-description.js, in the order of the source.
use bfx_reports_framework.Base.{ℕ, String, Bool, ◌||◌, List, [], ◌∷◌, ◌++◌, ◌==◌}
use bfx_reports_framework.Category.Patterns.{
  Piece, many, maybe, literal, codes, is_digit, is_space, starts_with, includes, test,
}

pub record Rule : Type 0 where
  pub tester : List ℕ → Bool
  pub category : ℕ

abbrev pub rule : (List ℕ → Bool) → ℕ → Rule
rule tester category = record { tester = tester; category = category }

-- /position #[0-9]* WORDS/
unfoldable pub position_pattern : String → List Piece
unfolding is_digit
position_pattern words = literal (codes "position #") ++ many is_digit ∷ literal (codes words)

-- /position pl @\s?[0-9]*\.?[0-9]* settlement \(trade\) on wallet margin/
unfoldable pub settlement_pattern : List Piece
unfolding is_digit is_space
settlement_pattern =
    literal (codes "position pl @")
    ++ (maybe is_space
        ∷ many is_digit
        ∷ maybe (λ c. c == b'.')
        ∷ many is_digit
        ∷ literal (codes " settlement (trade) on wallet margin"))

unfoldable pub schema : List Rule
unfolding starts_with includes test position_pattern settlement_pattern
schema =
    rule (λ d. starts_with d (codes "exchange")) 5
    ∷ rule
        (λ d.
          starts_with d (codes "position modified")
          || starts_with d (codes "position closed")
          || test d (position_pattern " close")
          || test d (position_pattern " liquidate")
          || test d settlement_pattern)
        22
    ∷ rule (λ d. starts_with d (codes "position claim") || test d (position_pattern " claim")) 23
    ∷ rule (λ d. test d (position_pattern " transfer")) 25
    ∷ rule (λ d. test d (position_pattern " swap")) 26
    ∷ rule
        (λ d.
          starts_with d (codes "position funding cost")
          || starts_with d (codes "interest charge")
          || test d (position_pattern " funding cost"))
        27
    ∷ rule
        (λ d.
          starts_with d (codes "margin funding payment")
          || starts_with d (codes "swap payment")
          || starts_with d (codes "interest payment"))
        28
    ∷ rule (λ d. starts_with d (codes "funding event")) 29
    ∷ rule (λ d. includes d (codes "settlement")) 31
    ∷ rule (λ d. starts_with d (codes "transfer")) 51
    ∷ rule (λ d. starts_with d (codes "deposit (") || starts_with d (codes "deposit on wallet")) 101
    ∷ rule (λ d. includes d (codes " withdrawal #")) 104
    ∷ rule (λ d. starts_with d (codes "canceled withdrawal")) 105
    ∷ rule (λ d. starts_with d (codes "trading fee")) 201
    ∷ rule (λ d. includes d (codes "trading rebate")) 202
    ∷ rule (λ d. starts_with d (codes "hidden order fee")) 204
    ∷ rule (λ d. starts_with d (codes "otc trade fee")) 207
    ∷ rule (λ d. starts_with d (codes "swap fee")) 222
    ∷ rule (λ d. starts_with d (codes "claiming fee")) 224
    ∷ rule (λ d. includes d (codes "margin funding charge")) 226
    ∷ rule (λ d. includes d (codes "margin funding fee")) 228
    ∷ rule (λ d. starts_with d (codes "earned fee") || starts_with d (codes "affiliate rebate")) 241
    ∷ rule (λ d. starts_with d (codes "ETHFX loyalty fee")) 243
    ∷ rule (λ d. includes d (codes "deposit fee")) 251
    ∷ rule (λ d. includes d (codes "withdrawal fee")) 254
    ∷ rule (λ d. includes d (codes "withdrawal express fee")) 255
    ∷ rule (λ d. starts_with d (codes "miner fee")) 258
    ∷ rule (λ d. starts_with d (codes "staking reward")) 262
    ∷ rule (λ d. starts_with d (codes "adjustment")) 401
    ∷ rule (λ d. starts_with d (codes "expense")) 501
    ∷ rule
        (λ d.
          starts_with d (codes "currency conversion") || starts_with d (codes "computation fee"))
        905
    ∷ rule (λ d. starts_with d (codes "monthly profit payment")) 907
    ∷ rule (λ d. starts_with d (codes "losses")) 911
    ∷ []
