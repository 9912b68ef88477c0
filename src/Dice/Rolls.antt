-- ===== src/Dice/Rolls.antt =====
-- What a roll gives.
use wenyouzhan.Common.{
  ℕ, zero, suc, ◌+◌, ◌*◌, ◌≤◌, ◌<◌, ◌≡◌, refl, true, false, not, ◌||◌, List, [], ◌∷◌, ◌==◌, arith,
  tables, length, sum_of, All,
}
use wenyouzhan.Common.Int.{pos_part, neg_part, sub_ℕ}
use wenyouzhan.Exception.{ok}
use wenyouzhan.Dice.{
  ParsedDiceNotation, GeneratedDiceRoll, DiceNodeIntent, GeneratedDiceNodeRoll, protocol_version,
  draws, all_fit, generate_dice_roll, roll, roll_nodes,
}

-- A roll of the dice that are asked for: that many results, each on a side, and their sum with
-- the modifier.
abbrev pub Rolled : ParsedDiceNotation → GeneratedDiceRoll → Type 0
Rolled p r =
    (r.parsed ≡ p)
    × (length r.results ≡ p.quantity)
    × All (λ x. (1 ≤ x) × (x ≤ p.sides)) r.results
    × (pos_part r.total + neg_part p.modifier
        ≡ sum_of (λ x. x) r.results + pos_part p.modifier + neg_part r.total)
    × (p.quantity ≤ sum_of (λ x. x) r.results)
    × (sum_of (λ x. x) r.results ≤ p.quantity * p.sides)

abbrev pub AllRolled : List DiceNodeIntent → List GeneratedDiceNodeRoll → Type 0
AllRolled [] [] = Unit
AllRolled [] (_ ∷ _) = ⊥
AllRolled (_ ∷ _) [] = ⊥
AllRolled (node ∷ nodes) (r ∷ rs) =
    ((r.node_id ≡ node.node_id) × Rolled node.intent r.generated) × AllRolled nodes rs

module _ (random : ℕ → ℕ → ℕ → ℕ)
    (uniform : (k low high : ℕ)
      → low < high
      → (low ≤ random k low high) × (random k low high < high)) where
  length-draws : (k n sides : ℕ) → length (draws random k n sides) ≡ n
  unfolding draws
  length-draws k zero sides = refl
  length-draws k (suc n) sides = omega (arith, length-draws (k + 1) n sides)

  draws_fit :
      (k n sides : ℕ)
      → 1 ≤ sides
      → (all_fit sides (draws random k n sides) ≡ true)
        × All (λ x. (1 ≤ x) × (x ≤ sides)) (draws random k n sides)
  unfolding draws all_fit
  draws_fit k zero sides h = (refl, tt)
  draws_fit k (suc n) sides h =
      let (low, high) = uniform k 1 (sides + 1) (omega arith) in
      let (fit, all) = draws_fit (k + 1) n sides h in
      (ground (arith, low, high, fit), ((low, omega (arith, high)), all))

  sum_of-draws :
      (k n sides : ℕ)
      → 1 ≤ sides
      → (n ≤ sum_of (λ x. x) (draws random k n sides))
        × (sum_of (λ x. x) (draws random k n sides) ≤ n * sides)
  unfolding draws tables
  sum_of-draws k zero sides h = (omega arith, omega arith)
  sum_of-draws k (suc n) sides h =
      let (low, high) = uniform k 1 (sides + 1) (omega arith) in
      let (least, most) = sum_of-draws (k + 1) n sides h in
      (omega (arith, low, least), omega (arith, high, most))

  roll-Rolled :
      (k : ℕ) (p : ParsedDiceNotation)
      → 1 ≤ p.sides
      → (r : GeneratedDiceRoll) × (roll random k p ≡ ok r) × Rolled p r
  unfolding roll generate_dice_roll
  roll-Rolled k p h =
      let results = draws random k p.quantity p.sides in
      let (fit, all) = draws_fit k p.quantity p.sides h in
      let (least, most) = sum_of-draws k p.quantity p.sides h in
      let tested : (not (length results == p.quantity) || not (all_fit p.sides results)) ≡ false =
        ground (arith, fit, length-draws k p.quantity p.sides) in
      (
        record {
          parsed = p;
          version = protocol_version;
          results = results;
          total = sub_ℕ (sum_of (λ x. x) results + pos_part p.modifier) (neg_part p.modifier);
        },
        rw (roll, generate_dice_roll, tested) refl,
        (refl, length-draws k p.quantity p.sides, all, ground arith, least, most),
      )

  -- Where `randomInt` keeps to its bounds, each dice node of a post gets one roll, in order: as many
  -- results as its quantity, each from 1 to its sides, with a sum from the quantity to the quantity
  -- times the sides, and the total is that sum with the modifier.
  pub roll_nodes-AllRolled :
      (k : ℕ) (nodes : List DiceNodeIntent)
      → All (λ node. 1 ≤ node.intent.sides) nodes
      → (rolls : List GeneratedDiceNodeRoll) × (roll_nodes random k nodes ≡ ok rolls)
        × AllRolled nodes rolls
  unfolding roll_nodes
  roll_nodes-AllRolled k [] h = ([], refl, tt)
  roll_nodes-AllRolled k (node ∷ nodes) h =
      let (r, e, sound) = roll-Rolled k node.intent h.0 in
      let (rs, es, sounds) = roll_nodes-AllRolled (k + node.intent.quantity) nodes h.1 in
      (
        record { node_id = node.node_id; generated = r } ∷ rs,
        rw (roll_nodes, e, es) refl,
        ((refl, sound), sounds),
      )
