-- ===== src/Alerts.antt =====
-- The forwarders of Grafana's alerts to SNS: the Lambda function
-- terraform/modules/observability/lambda/grafana_to_sns.py and the HTTP server
-- grafana/grafana_sns_bridge.py. A text is the list of its codes. `json.loads`, `int` and `decode`, and
-- `str` of what is no text, are parameters; SNS may refuse a message.
pub mod Replies
pub mod Brief
pub mod Server
use paystream.Base.{
  ℕ, zero, suc, ◌+◌, Bool, true, false, String, List, [], ◌∷◌, ◌++◌, map, Option, none, some,
  length, take, leb, ◌&&◌, ◌-◌, if◌then◌else◌,
}
use paystream.Base.Int.{ℤ, pos, negsuc}
use paystream.Base.Task.{
  Exn, Result, ok, raised, value_error, type_error, key_error, Task, lift, insert, catch,
}
use paystream.Base.Action.{pure, ◌>>=◌, ◌>>◌}
use paystream.Base.Numeral.{Text, codes, str}
use paystream.Base.Json.{
  Json, null, bool, num, text, arr, obj, Items, nil, cons, Fields, end, field, get, slice, is_true,
  elements, size,
}

pub record Message : Type 0 where
  pub subject : Text
  pub body : Text

-- `"\n".join(lines)`
abbrev pub join : List Text → Text
join [] = []
join (line ∷ lines) = join_after line lines
  where
    join_after : Text → List Text → Text
    join_after line [] = line
    join_after line (next ∷ lines) = line ++ (10 ∷ join_after next lines)

abbrev pub or_value_error : Option Json → Result Json
or_value_error none = raised value_error
or_value_error (some j) = ok j

-- `int(self.headers.get("Content-Length", 0))`
abbrev pub length_of : (Text → Option ℤ) → Option Text → Result ℤ
length_of int_of none = ok (pos 0)
length_of int_of (some t) = elim (int_of t) [ none ↦ raised value_error | some n ↦ ok n ]

-- `self.rfile.read(length)`, which reads all of the data for a negative length.
abbrev pub read : ℤ → List ℕ → List ℕ
read (pos n) bytes = take n bytes
read (negsuc n) bytes = bytes

-- `self.rfile.read(length).decode() if length else ""`
abbrev pub decoded : (List ℕ → Option Text) → ℤ → List ℕ → Result Text
decoded decode (pos zero) bytes = ok []
decoded decode (pos (suc n)) bytes = elim (decode (read (pos (suc n)) bytes)) [
  | none ↦ raised value_error
  | some t ↦ ok t
]
decoded decode (negsuc n) bytes = elim (decode (read (negsuc n) bytes)) [
  | none ↦ raised value_error
  | some t ↦ ok t
]

module _ (loads : Text → Option Json) (repr : Json → Text)
    (takes : List Message → Message → Bool) where
  -- A value in an f-string.
  abbrev pub shown : Json → Text
  shown (text t) = t
  shown null = repr null
  shown (bool b) = repr (bool b)
  shown (num n) = repr (num n)
  shown (arr xs) = repr (arr xs)
  shown (obj fs) = repr (obj fs)

  -- `json.loads(value)`
  abbrev pub parsed : Json → Result Json
  parsed (text t) = or_value_error (loads t)
  parsed null = raised type_error
  parsed (bool b) = raised type_error
  parsed (num n) = raised type_error
  parsed (arr xs) = raised type_error
  parsed (obj fs) = raised type_error

  abbrev pub summary_of : Json → List Text
  summary_of summary = if is_true summary then (codes "Summary: " ++ shown summary) ∷ [] else []

  -- The lines of one alert in the Lambda function.
  unfoldable pub alert_lines : Json → Task Message (List Text)
  alert_lines alert = do
    labels ← lift (get (codes "labels") (obj end) alert)
    annotations ← lift (get (codes "annotations") (obj end) alert)
    rule ← lift (get (codes "alertname") (text (codes "?")) labels)
    status ← lift (get (codes "status") (text (codes "?")) alert)
    severity ← lift (get (codes "severity") (text (codes "?")) labels)
    summary ← lift (get (codes "summary") null annotations)
    pure (
        (10 ∷ (codes "Rule: " ++ shown rule))
        ∷ (codes "Status: " ++ shown status)
        ∷ (codes "Severity: " ++ shown severity)
        ∷ summary_of summary)

  -- The line of one alert in the server.
  unfoldable pub alert_line : (Text → Text) → Json → Task Message (List Text)
  alert_line upper alert = do
    status ← lift (get (codes "status") (text (codes "?")) alert)
    loud ← lift (upper_of status)
    labels ← lift (get (codes "labels") (obj end) alert)
    name ← lift (get (codes "alertname") (text (codes "?")) labels)
    pure ((loud ++ (codes ": " ++ shown name)) ∷ [])
    where
      upper_of : Json → Result Text
      upper_of (text t) = ok (upper t)
      upper_of null = raised type_error
      upper_of (bool b) = raised type_error
      upper_of (num n) = raised type_error
      upper_of (arr xs) = raised type_error
      upper_of (obj fs) = raised type_error

  unfoldable pub all_lines :
      (Json → Task Message (List Text)) → List Json → Task Message (List Text)
  all_lines lines_of [] = pure []
  all_lines lines_of (alert ∷ alerts) =
      let later = all_lines lines_of alerts in
      do lines ← lines_of alert; more ← later; pure (lines ++ more)

  -- The `try` of the Lambda function.
  unfoldable pub forward : Json → Task Message (Unit {0})
  unfolding alert_lines all_lines
  forward event = do
    raw ← lift (get (codes "body") (text (codes "{}")) event)
    body ← lift (parsed raw)
    whole ← lift (get (codes "title") (text (codes "Grafana Alert")) body)
    title ← lift (slice 100 whole)
    state ← lift (get (codes "state") (text (codes "unknown")) body)
    listed ← lift (get (codes "alerts") (arr nil) body)
    first ← lift (slice 5 listed)
    lines ← all_lines alert_lines (elements first)
    insert takes (record {
      subject = take 100 (codes "[PayStream] " ++ shown title);
      body =
          take 1000
            (join ((codes "Alert: " ++ shown title) ∷ (codes "State: " ++ shown state) ∷ lines));
    })

  -- `handler`: the status code.
  unfoldable pub handler : Json → Task Message ℕ
  unfolding forward
  handler event = catch (do forward event; pure 200) (λ e. pure 500)

  abbrev pub text_of : Json → Result Text
  text_of (text t) = ok t
  text_of null = raised type_error
  text_of (bool b) = raised type_error
  text_of (num n) = raised type_error
  text_of (arr xs) = raised type_error
  text_of (obj fs) = raised type_error

  abbrev pub read_body : Text → Result Json
  read_body [] = ok (obj end)
  read_body (c ∷ cs) = or_value_error (loads (c ∷ cs))

  module _ (upper : Text → Text) where
    -- The title and the message, where there are alerts.
    unfoldable pub summarize : Json → Task Message Message
    unfolding all_lines alert_line
    summarize alerts = do
      first ← lift (slice 5 alerts)
      lines ← all_lines (alert_line upper) (elements first)
      n ← lift (size alerts)
      pure (record {
        subject = codes "PayStream: " ++ (str n ++ codes " alert(s)");
        body = join lines;
      })

    -- `sns.publish` takes texts only.
    abbrev pub as_message : Json → Json → Task Message Message
    as_message title msg = do
      subject ← lift (text_of title)
      body ← lift (text_of msg)
      pure (record { subject = subject; body = body })

    -- The `try` of the server.
    unfoldable pub forward_post : Text → Task Message (Unit {0})
    unfolding summarize
    forward_post posted = do
      content ← lift (read_body posted)
      whole ← lift (get (codes "title") (text (codes "Grafana Alert")) content)
      title ← lift (slice 100 whole)
      said ← lift (get (codes "message") (text posted) content)
      msg ← lift (slice 2000 said)
      alerts ← lift (get (codes "alerts") (arr nil) content)
      message ← (if is_true alerts then summarize alerts else as_message title msg)
      insert takes message

    module _ (int_of : Text → Option ℤ) (decode : List ℕ → Option Text) where
      -- `do_POST`, of the header and the bytes of a request: the status code, `raised` where it gives
      -- no answer.
      unfoldable pub do_post : Option Text → List ℕ → Task Message ℕ
      unfolding forward_post
      do_post content_length bytes = do
        length ← lift (length_of int_of content_length)
        posted ← lift (decoded decode length bytes)
        catch (do forward_post posted; pure 200) (λ e. pure 200)
