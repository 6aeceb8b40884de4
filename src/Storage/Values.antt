-- ===== src/Storage/Values.antt =====
-- Python's `==` on JSON objects: the same keys with equal values, in any order.
use ops_pilot_ai.Base.{
  ℕ, String, Bool, true, false, ◌&&◌, Option, none, some, List, [], ◌∷◌, nat_eq, string_eq, ◌==◌,
  if◌then◌else◌, length,
}
use ops_pilot_ai.Domain.Security.{ActorId, of_id, of_name}
use ops_pilot_ai.Storage.Rows.{Value, null, flag, number, text, uuid, instant, actor, uuids}

abbrev bit : Bool → ℕ
bit true = 1
bit false = 0

abbrev pub same_actor : ActorId → ActorId → Bool
same_actor (of_id i) (of_id j) = i == j
same_actor (of_name s) (of_name t) = s == t
same_actor _ _ = false

same_ids : List ℕ → List ℕ → Bool
same_ids [] [] = true
same_ids (i ∷ is) (j ∷ js) = i == j && same_ids is js
same_ids _ _ = false

-- `True == 1` and `False == 0`, as in Python.
unfoldable pub same_value : Value → Value → Bool
unfolding same_ids
same_value null null = true
same_value (flag b) (flag d) = bit b == bit d
same_value (flag b) (number n) = bit b == n
same_value (number n) (flag b) = n == bit b
same_value (number n) (number m) = n == m
same_value (text s) (text t) = s == t
same_value (uuid i) (uuid j) = i == j
same_value (instant i) (instant j) = i == j
same_value (actor a) (actor b) = same_actor a b
same_value (uuids is) (uuids js) = same_ids is js
same_value _ _ = false

unfoldable pub get_item : String → List (String × Value) → Option Value
get_item k [] = none
get_item k ((j, v) ∷ p) = if j == k then some v else get_item k p

abbrev holds : Option Value → Value → Bool
holds none v = false
holds (some w) v = same_value w v

covers : List (String × Value) → List (String × Value) → Bool
covers [] q = true
covers ((k, v) ∷ p) q = holds (get_item k q) v && covers p q

-- `p == q`, where no key stands twice in either
unfoldable pub same_mapping : List (String × Value) → List (String × Value) → Bool
unfolding same_value get_item covers
same_mapping p q = length p == length q && covers p q
