-- ===== src/Dice.antt =====
-- Dice notation and rolls (src/dice/dice.service.ts). A text is the list of its code points.
pub mod Digits
pub mod RoundTrip
pub mod Rolls
use wenyouzhan.Common.{
  Text, ℕ, zero, suc, ◌+◌, ◌-◌, ◌*◌, ◌/◌, ◌%◌, Bool, true, false, not, ◌&&◌, ◌||◌, Option, none,
  some, List, [], ◌∷◌, ◌++◌, ◌==◌, ltb, leb, if◌then◌else◌, sum_of, length,
}
use wenyouzhan.Common.Int.{ℤ, pos, negsuc, pos_part, neg_part, sub_ℕ, neg}
use wenyouzhan.ErrorCode.{invalid_dice_notation, internal_error}
use wenyouzhan.Exception.{Result, ok, err, BusinessException, business, bad_request_error}

-- `\d`
abbrev pub is_digit : ℕ → Bool
is_digit c = leb 48 c && leb c 57

-- `\s`
abbrev pub is_space : ℕ → Bool
is_space c =
    leb 9 c && leb c 13
    || (c == 32
        || (c == 160
            || (c == 5760
                || (leb 8192 c && leb c 8202
                    || (c == 8232
                        || (c == 8233
                            || (c == 8239 || (c == 8287 || (c == 12288 || c == 65279)))))))))

-- `\s*`
unfoldable pub skip : Text → Text
skip [] = []
skip (c ∷ s) = let rest = skip s in if is_space c then rest else c ∷ s

-- The digits that come next, behind the number `n`, and what follows them.
unfoldable pub read_digits : Text → ℕ → ℕ × Text
read_digits [] n = (n, [])
read_digits (c ∷ s) n =
    let rest = read_digits s (n * 10 + (c - 48)) in if is_digit c then rest else (n, c ∷ s)

-- `(\d+)`
unfoldable pub number : Text → Option (ℕ × Text)
unfolding read_digits
number [] = none
number (c ∷ s) = if is_digit c then some (read_digits (c ∷ s) 0) else none

-- `(?:(\d+)\s*)?`, with the default of `match[1] ?? 1`
unfoldable pub quantity_part : Text → ℕ × Text
unfolding number skip
quantity_part s = elim (number s) [ none ↦ (1, s) | some (n, rest) ↦ (n, skip rest) ]

-- `[dD]`
unfoldable pub after_d : Text → Option Text
after_d [] = none
after_d (c ∷ s) = if c == 100 || c == 68 then some s else none

-- `\s*(\d+)` and then `\s*$`
unfoldable pub last_number : Text → Option ℕ
unfolding number skip
last_number s = elim (number (skip s)) [
  | none ↦ none
  | some (n, rest) ↦ elim (skip rest) [ [] ↦ some n | _ ∷ _ ↦ none ]
]

-- `(?:\s*([+-])\s*(\d+))?\s*$` and the sign that `parse` gives the number; the -0 of a text such as
-- `d6-0` is 0 here.
unfoldable pub modifier_part : Text → Option ℤ
unfolding last_number
modifier_part [] = some (pos 0)
modifier_part (c ∷ s) =
    if c == 43
    then elim (last_number s) [ none ↦ none | some n ↦ some (pos n) ]
    else if c == 45
    then elim (last_number s) [ none ↦ none | some n ↦ some (neg (pos n)) ]
    else none

-- Digits of a number below 10 to the fuel.
unfoldable pub digits_on : ℕ → ℕ → Text
digits_on zero n = []
digits_on (suc fuel) n =
    let rest = digits_on fuel (n / 10) in
    if ltb n 10 then (48 + n) ∷ [] else rest ++ (48 + n % 10) ∷ []

-- What a template writes for a number.
unfoldable pub digits : ℕ → Text
unfolding digits_on
digits n = digits_on 20 n

-- `modifierText`
unfoldable pub modifier_text : ℤ → Text
unfolding digits
modifier_text (pos zero) = []
modifier_text (pos (suc n)) = 43 ∷ digits (suc n)
modifier_text (negsuc n) = 45 ∷ digits (suc n)

unfoldable pub notation_text : ℕ → ℕ → ℤ → Text
notation_text quantity sides modifier =
    digits quantity ++ 100 ∷ (digits sides ++ modifier_text modifier)

-- `ParsedDiceNotation`
pub record ParsedDiceNotation : Type 0 where
  pub notation : Text
  pub quantity : ℕ
  pub sides : ℕ
  pub modifier : ℤ

abbrev pub invalid_notation : BusinessException
invalid_notation = bad_request_error invalid_dice_notation

-- `Math.abs(modifier)`
abbrev pub magnitude : ℤ → ℕ
magnitude m = pos_part m + neg_part m

abbrev pub out_of_bounds : ℕ → ℕ → ℤ → Bool
out_of_bounds quantity sides modifier =
    ltb quantity 1
    || (ltb 100 quantity || (ltb sides 2 || (ltb 1_000 sides || ltb 10_000 (magnitude modifier))))

-- The tests and the result of `parse`. A number that `Number.isSafeInteger` would refuse is beyond
-- these bounds as well.
unfoldable pub checked : ℕ → ℕ → ℤ → Result ParsedDiceNotation
checked quantity sides modifier =
    if out_of_bounds quantity sides modifier
    then err invalid_notation
    else ok (record {
      notation = notation_text quantity sides modifier;
      quantity = quantity;
      sides = sides;
      modifier = modifier;
    })

-- What follows the quantity.
unfoldable pub parse_rest : ℕ → Text → Result ParsedDiceNotation
parse_rest quantity s = elim (after_d s) [
  | none ↦ err invalid_notation
  | some t ↦ elim (number (skip t)) [
    | none ↦ err invalid_notation
    | some (sides, u) ↦ elim (modifier_part (skip u)) [
      | none ↦ err invalid_notation
      | some modifier ↦ checked quantity sides modifier
    ]
  ]
]

-- `parse`. The groups of the pattern take what they can: what they could give back, a digit or a
-- space, fits nothing that follows them.
unfoldable pub parse : Text → Result ParsedDiceNotation
parse s = let first = quantity_part (skip s) in parse_rest first.0 first.1

abbrev pub protocol_version : ℕ
protocol_version = 1

-- `GeneratedDiceRoll`
pub record GeneratedDiceRoll : Type 0 where
  pub parsed : ParsedDiceNotation
  pub version : ℕ
  pub results : List ℕ
  pub total : ℤ

-- `DiceNodeIntent`, and its roll.
pub record DiceNodeIntent : Type 0 where
  pub node_id : ℕ
  pub intent : ParsedDiceNotation

pub record GeneratedDiceNodeRoll : Type 0 where
  pub node_id : ℕ
  pub generated : GeneratedDiceRoll

-- `results.every(...)`
unfoldable pub all_fit : ℕ → List ℕ → Bool
all_fit sides [] = true
all_fit sides (x ∷ xs) = leb 1 x && (leb x sides && all_fit sides xs)

-- `random k` is what the `k`th call of `randomInt` gives.
module _ (random : ℕ → ℕ → ℕ → ℕ) where
  -- `Array.from({ length }, () => randomInt(1, sides + 1))`
  unfoldable pub draws : ℕ → ℕ → ℕ → List ℕ
  draws k zero sides = []
  draws k (suc n) sides = random k 1 (sides + 1) ∷ draws (k + 1) n sides

  -- `generateDiceRoll`; none where it throws.
  unfoldable pub generate_dice_roll : ℕ → ParsedDiceNotation → Option GeneratedDiceRoll
  unfolding draws all_fit
  generate_dice_roll k p =
      let results = draws k p.quantity p.sides in
      if not (length results == p.quantity) || not (all_fit p.sides results)
      then none
      else some (record {
        parsed = p;
        version = protocol_version;
        results = results;
        total = sub_ℕ (sum_of (λ x. x) results + pos_part p.modifier) (neg_part p.modifier);
      })

  -- `roll`
  unfoldable pub roll : ℕ → ParsedDiceNotation → Result GeneratedDiceRoll
  roll k p = elim (generate_dice_roll k p) [
    | none ↦ err (business internal_error 500)
    | some r ↦ ok r
  ]

  -- `rollNodes`
  unfoldable pub roll_nodes : ℕ → List DiceNodeIntent → Result (List GeneratedDiceNodeRoll)
  roll_nodes k [] = ok []
  roll_nodes k (node ∷ nodes) = elim (roll k node.intent) [
    | err e ↦ err e
    | ok r ↦ elim (roll_nodes (k + node.intent.quantity) nodes) [
      | err e ↦ err e
      | ok rs ↦ ok (record { node_id = node.node_id; generated = r } ∷ rs)
    ]
  ]
