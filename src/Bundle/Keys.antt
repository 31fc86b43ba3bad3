-- ===== src/Bundle/Keys.antt =====
-- Tasks whose ids have different texts, `String(id)`, as validatePlanIndex and upsertTasks demand.
use masterplan.Common.{unique_by, ◌≡◌, List, In, IsUnique, text_eq_instance}
use masterplan.Bundle.Ids.{key}
use masterplan.Bundle.State.{Task}
use masterplan.Bundle.Plan.{keys}

pub key_inj :
    (ts : List Task) (t u : Task)
    → IsUnique (keys ts)
    → In t ts
    → In u ts
    → key t.id ≡ key u.id
    → t ≡ u
key_inj ts t u h i j e = unique_by (λ (x : Task). key x.id) ts t u h i j e
