-- ===== src/Debezium/Discovery.antt =====
-- `_get_task_ip` of dags/debezium_health_check.py, and the answers of ECS and of Kafka Connect.
use paystream.Base.{ℕ, String, List, [], ◌∷◌, Option, none, some, str_eq, if◌then◌else◌}
use paystream.Base.Task.{Result, ok, raised, key_error}

-- `d["name"]` and `d["value"]` of a detail of an attachment.
pub record Detail : Type 0 where
  pub name : Option String
  pub value : Option String

pub record Status : Type 0 where
  pub connector : Option String
  pub tasks : Option (List (Option String))

pub record Response : Type 0 where
  pub status_code : ℕ
  pub json : Result Status

-- `list_tasks`, `describe_tasks` (tasks of attachments of details) and the GET of a connector's status.
pub record Services : Type 0 where
  pub list_tasks : String → Result (Option (List String))
  pub describe_tasks : String → Result (Option (List (Option (List (Option (List Detail))))))
  pub status : String → String → Result Response

-- `x.get(key, [])`
abbrev pub or_empty : {A : Type 0} → Option (List A) → List A
or_empty none = []
or_empty (some xs) = xs

-- `x[key]`
abbrev pub require : {A : Type 0} → Option A → Result A
require none = raised key_error
require (some a) = ok a

-- `[t["state"] for t in ts]`
abbrev pub require_all : {A : Type 0} → List (Option A) → Result (List A)
require_all [] = ok []
require_all (o ∷ os) =
    let rest = require_all os in
    elim (require o) [
      | raised e ↦ raised e
      | ok a ↦ elim rest [ raised e ↦ raised e | ok rest_as ↦ ok (a ∷ rest_as) ]
    ]

-- The three loops of `_get_task_ip`, the innermost first; `none` where a loop ends without a return.
unfoldable pub detail_ip : List Detail → Result (Option String)
detail_ip [] = ok none
detail_ip (d ∷ ds) =
    let rest = detail_ip ds in
    elim (require (d.name)) [
      | raised e ↦ raised e
      | ok name ↦
          if str_eq name "privateIPv4Address"
          then elim (require (d.value)) [ raised e ↦ raised e | ok ip ↦ ok (some ip) ]
          else rest
    ]

unfoldable pub or_else : Result (Option String) → Result (Option String) → Result (Option String)
or_else (raised e) rest = raised e
or_else (ok none) rest = rest
or_else (ok (some ip)) rest = ok (some ip)

unfoldable pub attachment_ip : List (Option (List Detail)) → Result (Option String)
attachment_ip [] = ok none
attachment_ip (ds ∷ atts) = or_else (detail_ip (or_empty ds)) (attachment_ip atts)

unfoldable pub task_ip : List (Option (List (Option (List Detail)))) → Result (Option String)
task_ip [] = ok none
task_ip (atts ∷ ts) = or_else (attachment_ip (or_empty atts)) (task_ip ts)

unfoldable pub describe : Services → List String → Result (Option String)
describe services [] = ok none
describe services (arn ∷ arns) = elim (services.describe_tasks arn) [
  | raised e ↦ raised e
  | ok tasks ↦ task_ip (or_empty tasks)
]

unfoldable pub get_task_ip : Services → String → Result (Option String)
get_task_ip services service_name = elim (services.list_tasks service_name) [
  | raised e ↦ raised e
  | ok arns ↦ describe services (or_empty arns)
]
