-- ===== src/Tests/Dice.antt =====
-- A notation with blanks, and a roll that always shows the lowest side.
use wenyouzhan.Common.{Text, ℕ, ◌≤◌, ◌<◌, ◌≡◌, refl, List, [], ◌∷◌, arith}
use wenyouzhan.Common.Int.{negsuc}
use wenyouzhan.Exception.{ok}
use wenyouzhan.Dice.{
  ParsedDiceNotation, DiceNodeIntent, GeneratedDiceNodeRoll, parse, skip, read_digits, number,
  quantity_part, after_d, last_number, modifier_part, digits_on, digits, modifier_text,
  notation_text, checked, parse_rest, magnitude, roll_nodes,
}
use wenyouzhan.Dice.RoundTrip.{parse_canonical}
use wenyouzhan.Dice.Rolls.{AllRolled, roll_nodes-AllRolled}

code : Unit {0}
unfolding parse skip read_digits number quantity_part after_d last_number modifier_part digits_on
    digits modifier_text notation_text checked parse_rest
code = tt

-- " 2D6 - 12"
abbrev written : Text
written = 32 ∷ 50 ∷ 68 ∷ 54 ∷ 32 ∷ 45 ∷ 32 ∷ 49 ∷ 50 ∷ []

-- "2d6-12"
abbrev canonical : Text
canonical = 50 ∷ 100 ∷ 54 ∷ 45 ∷ 49 ∷ 50 ∷ []

abbrev two_dice : ParsedDiceNotation
two_dice = record { notation = canonical; quantity = 2; sides = 6; modifier = negsuc 11 }

written_parsed : parse written ≡ ok two_dice
unfolding code
written_parsed = refl

parse_canonical_example :
    (1 ≤ 2)
    × (2 ≤ 100)
    × (2 ≤ 6)
    × (6 ≤ 1_000)
    × (magnitude (negsuc 11) ≤ 10_000)
    × (parse canonical ≡ ok two_dice)
parse_canonical_example = parse_canonical written two_dice written_parsed

abbrev lowest : ℕ → ℕ → ℕ → ℕ
lowest k low high = low

lowest_fits : (k low high : ℕ) → low < high → (low ≤ lowest k low high) × (lowest k low high < high)
lowest_fits k low high h = (omega arith, omega (arith, h))

abbrev nodes : List DiceNodeIntent
nodes = record { node_id = 1; intent = two_dice } ∷ record { node_id = 2; intent = two_dice } ∷ []

roll_nodes-AllRolled_example :
    (rolls : List GeneratedDiceNodeRoll) × (roll_nodes lowest 0 nodes ≡ ok rolls)
    × AllRolled nodes rolls
roll_nodes-AllRolled_example =
    roll_nodes-AllRolled lowest lowest_fits 0 nodes (omega arith, (omega arith, tt))
