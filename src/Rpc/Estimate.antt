-- ===== src/Rpc/Estimate.antt =====
-- `estimateMessageSize` of `multiplex-port.ts`: what a message costs a window when the codec cannot say.
use webrun_wire.Common.{ℕ, zero, suc, ◌+◌, ◌-◌, ◌≤◌, max, List, length, arith}
use webrun_wire.Common.{◌≡◌, refl, ap, Bool, true, false, if◌then◌else◌, leb}

-- A structured value: a string of so many UTF-16 units, bytes (an `ArrayBuffer` or a view), an array, an
-- object with its keys, and everything else (numbers, booleans, `null`, `undefined`, functions).
mutual
  pub data Value : Type 0 where
    string bytes : List ℕ → Value
    array : Values → Value
    object : Fields → Value
    atom : ℕ → Value

  pub data Values : Type 0 where
    no_values : Values
    one_more : Value → Values → Values

  pub data Fields : Type 0 where
    no_fields : Fields
    field : List ℕ → Value → Fields → Fields

-- `walk`: the budget left, and the size. The budget is tested before it is taken off, and a value past the
-- fourth level costs 8 whatever it holds.
unfoldable mutual
  pub walk : Value → (depth budget : ℕ) → ℕ × ℕ
  walk v depth zero = (0, 0)
  walk (string s) depth (suc budget) = (budget, length s)
  walk (bytes b) depth (suc budget) = (budget, length b)
  walk (atom n) depth (suc budget) = (budget, 8)
  walk (array vs) depth (suc budget) =
      let inside = walk_values vs depth budget in
      if leb 4 depth then (budget, 8) else (inside.0, 16 + inside.1)
  walk (object fs) depth (suc budget) =
      let inside = walk_fields fs depth budget in
      if leb 4 depth then (budget, 8) else (inside.0, 16 + inside.1)

  pub walk_values : Values → (depth budget : ℕ) → ℕ × ℕ
  walk_values no_values depth budget = (budget, 0)
  walk_values (one_more v vs) depth budget =
      let first = walk v (suc depth) budget in
      let rest = walk_values vs depth first.0 in (rest.0, first.1 + rest.1)

  pub walk_fields : Fields → (depth budget : ℕ) → ℕ × ℕ
  walk_fields no_fields depth budget = (budget, 0)
  walk_fields (field k v fs) depth budget =
      let first = walk v (suc depth) budget in
      let rest = walk_fields fs depth first.0 in (rest.0, length k + first.1 + rest.1)

unfoldable pub estimate_message_size : Value → ℕ
estimate_message_size payload = max 64 (walk payload 0 256).1

-- The number of the values that count, and what each costs, with no budget.
unfoldable mutual
  pub nodes : Value → (depth : ℕ) → ℕ
  nodes (string s) depth = 1
  nodes (bytes b) depth = 1
  nodes (atom n) depth = 1
  nodes (array vs) depth = if leb 4 depth then 1 else suc (nodes_values vs depth)
  nodes (object fs) depth = if leb 4 depth then 1 else suc (nodes_fields fs depth)

  pub nodes_values : Values → (depth : ℕ) → ℕ
  nodes_values no_values depth = 0
  nodes_values (one_more v vs) depth = nodes v (suc depth) + nodes_values vs depth

  pub nodes_fields : Fields → (depth : ℕ) → ℕ
  nodes_fields no_fields depth = 0
  nodes_fields (field k v fs) depth = nodes v (suc depth) + nodes_fields fs depth

unfoldable mutual
  pub cost : Value → (depth : ℕ) → ℕ
  cost (string s) depth = length s
  cost (bytes b) depth = length b
  cost (atom n) depth = 8
  cost (array vs) depth = if leb 4 depth then 8 else 16 + cost_values vs depth
  cost (object fs) depth = if leb 4 depth then 8 else 16 + cost_fields fs depth

  pub cost_values : Values → (depth : ℕ) → ℕ
  cost_values no_values depth = 0
  cost_values (one_more v vs) depth = cost v (suc depth) + cost_values vs depth

  pub cost_fields : Fields → (depth : ℕ) → ℕ
  cost_fields no_fields depth = 0
  cost_fields (field k v fs) depth = length k + cost v (suc depth) + cost_fields fs depth

-- An array or an object: `deep` past the fourth level.
holding_lem :
    (deep : Bool) (inside budget rest : ℕ) (w : ℕ × ℕ) (x : ℕ)
    → suc budget ≡ (if deep then 1 else suc inside) + rest
    → (budget ≡ inside + rest → w ≡ (rest, x))
    → ◌≡◌ {A = ℕ × ℕ}
        (if deep then (budget, 8) else (w.0, 16 + w.1))
        (rest, if deep then 8 else 16 + x)
holding_lem true inside budget rest w x h walked = ap (λ r. (r, 8)) (omega arith)
holding_lem false inside budget rest w x h walked = ap (λ p. (p.0, 16 + p.1)) (walked (omega arith))

mutual
  unfolding walk walk_values walk_fields nodes nodes_values nodes_fields cost cost_values
      cost_fields

  walk_lem :
      (v : Value) (depth budget rest : ℕ)
      → budget ≡ nodes v depth + rest
      → walk v depth budget ≡ (rest, cost v depth)
  walk_lem (string s) depth zero rest h = ground arith
  walk_lem (bytes b) depth zero rest h = ground arith
  walk_lem (atom n) depth zero rest h = ground arith
  walk_lem (array vs) depth zero rest h = ground arith
  walk_lem (object fs) depth zero rest h = ground arith
  walk_lem (string s) depth (suc budget) rest h = ap (λ r. (r, length s)) (omega arith)
  walk_lem (bytes b) depth (suc budget) rest h = ap (λ r. (r, length b)) (omega arith)
  walk_lem (atom n) depth (suc budget) rest h = ap (λ r. (r, 8)) (omega arith)
  walk_lem (array vs) depth (suc budget) rest h =
      holding_lem (leb 4 depth) (nodes_values vs depth) budget rest (walk_values vs depth budget)
        (cost_values vs depth) h (walk_values-nodes vs depth budget rest)
  walk_lem (object fs) depth (suc budget) rest h =
      holding_lem (leb 4 depth) (nodes_fields fs depth) budget rest (walk_fields fs depth budget)
        (cost_fields fs depth) h (walk_fields-nodes fs depth budget rest)

  walk_values-nodes :
      (vs : Values) (depth budget rest : ℕ)
      → budget ≡ nodes_values vs depth + rest
      → walk_values vs depth budget ≡ (rest, cost_values vs depth)
  walk_values-nodes no_values depth budget rest h = ap (λ r. (r, 0)) (omega (arith, h))
  walk_values-nodes (one_more v vs) depth budget rest h =
      rw
        (
          walk_lem v (suc depth) budget (nodes_values vs depth + rest) (omega arith),
          walk_values-nodes vs depth (nodes_values vs depth + rest) rest refl,
        )
        refl

  walk_fields-nodes :
      (fs : Fields) (depth budget rest : ℕ)
      → budget ≡ nodes_fields fs depth + rest
      → walk_fields fs depth budget ≡ (rest, cost_fields fs depth)
  walk_fields-nodes no_fields depth budget rest h = ap (λ r. (r, 0)) (omega (arith, h))
  walk_fields-nodes (field k v fs) depth budget rest h =
      rw
        (
          walk_lem v (suc depth) budget (nodes_fields fs depth + rest) (omega arith),
          walk_fields-nodes fs depth (nodes_fields fs depth + rest) rest refl,
        )
        refl

-- A value with at most 256 values within its first four levels costs what those hold, each counted once,
-- and at least 64.
pub estimate_message_size-cost :
    (v : Value) → nodes v 0 ≤ 256 → estimate_message_size v ≡ max 64 (cost v 0)
unfolding estimate_message_size
estimate_message_size-cost v h = rw (walk_lem v 0 256 (256 - nodes v 0) (omega arith)) refl
