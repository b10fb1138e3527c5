-- ===== src/Api/Json.antt =====
-- The nested settings objects of _cluster/settings: Go's map[string]interface{}.
use opensearch_k8s_operator.Prelude.{Option, none, some, String, ◌==◌, if◌then◌else◌}

mutual
  pub data Value : Type 0 where
    null : Value
    text : String → Value
    -- a number, a Boolean or an array, none of which the operator reads
    other : Value
    object : Fields → Value

  pub data Fields : Type 0 where
    end : Fields
    field : String → Value → Fields → Fields

unfoldable pub lookup : String → Fields → Option Value
lookup k end = none
lookup k (field j v fs) = if j == k then some v else lookup k fs
