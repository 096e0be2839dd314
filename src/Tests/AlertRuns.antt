-- ===== src/Tests/AlertRuns.antt =====
-- An alert through the two forwarders.
use paystream.Base.{
  ℕ, none, if◌then◌else◌, ◌≡◌, refl, Bool, true, false, List, [], ◌∷◌, ◌++◌, Option, some,
}
use paystream.Base.Int.{ℤ, pos}
use paystream.Base.Task.{Result, ok, raised, value_error}
use paystream.Base.Action.{pure, ◌>>=◌}
use paystream.Base.Numeral.{Text, text_eq, codes, str}
use paystream.Base.Json.{Json, null, text, arr, obj, nil, cons, end, field}
use paystream.Alerts.{
  Message, handler, do_post, forward, forward_post, summarize, all_lines, alert_lines, alert_line,
}
use paystream.Alerts.Replies.{Replied, handler-Replied}
use paystream.Alerts.Server.{Posted, do_post-Posted}

-- What Grafana posts.
abbrev content : Json
content = obj (
    field (codes "title") (text (codes "Late")) (
      field (codes "state") (text (codes "alerting")) (
        field (codes "alerts")
          (arr (
            cons
              (obj (
                field (codes "status") (text (codes "firing")) (
                  field (codes "labels") (obj (field (codes "alertname") (text (codes "age")) end))
                    end)))
              nil))
          end)))

abbrev loads : Text → Option Json
loads t = some content

abbrev repr : Json → Text
repr j = []

abbrev takes : List Message → Message → Bool
takes log m = true

abbrev refuses : List Message → Message → Bool
refuses log m = false

abbrev event : Json
event = obj (field (codes "body") (text (codes "...")) end)

handler_run : handler loads repr takes event [] ≡ (
  ok 200,
  record {
    subject = codes "[PayStream] Late";
    body =
        codes "Alert: Late"
        ++ (10
            ∷ (codes "State: alerting"
                ++ (10
                    ∷ (10
                        ∷ (codes "Rule: age"
                            ++ (10 ∷ (codes "Status: firing" ++ (10 ∷ codes "Severity: ?"))))))));
  }
      ∷ [],
)
unfolding handler forward all_lines alert_lines pure ◌>>=◌
handler_run = refl

refused_run : handler loads repr refuses event [] ≡ (ok 500, [])
unfolding handler forward all_lines alert_lines pure ◌>>=◌
refused_run = refl

-- A title of null cannot be cut.
null_run :
    handler (λ t. some (obj (field (codes "title") null end))) repr takes event [] ≡ (ok 500, [])
unfolding handler forward all_lines alert_lines pure ◌>>=◌
null_run = refl

handler-Replied_example : Replied [] (handler loads repr takes event [])
handler-Replied_example = handler-Replied loads repr takes event []

abbrev int_of : Text → Option ℤ
int_of t = if text_eq t (codes "3") then some (pos 3) else none

abbrev three : List ℕ
three = codes "..."

abbrev posting : (List Message → Message → Bool) → Option Text → Result ℕ × List Message
posting takes content_length =
    do_post loads repr takes (λ t. t) int_of (λ bytes. some bytes) content_length three []

do_post_run :
    posting takes (some (codes "3"))
    ≡ (ok 200, record { subject = codes "PayStream: 1 alert(s)"; body = codes "firing: age" } ∷ [])
unfolding do_post forward_post summarize all_lines alert_line str pure ◌>>=◌
do_post_run = refl

-- SNS refuses the message, and Grafana is told that all is well.
swallowed_run : posting refuses (some (codes "3")) ≡ (ok 200, [])
unfolding do_post forward_post summarize all_lines alert_line str pure ◌>>=◌
swallowed_run = refl

unanswered_run : posting takes (some (codes "x")) ≡ (raised value_error, [])
unfolding do_post pure ◌>>=◌
unanswered_run = refl

do_post-Posted_example :
    Posted loads repr takes
      (λ t. t)
      int_of
      (λ bytes. some bytes)
      (some (codes "3"))
      three
      []
      (do_post loads repr takes (λ t. t) int_of (λ bytes. some bytes) (some (codes "3")) three [])
do_post-Posted_example =
    do_post-Posted loads repr takes (λ t. t) int_of (λ bytes. some bytes) (some (codes "3")) three
      []
