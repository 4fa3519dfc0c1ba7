-- ===== src/Protocol/Envelope.antt =====
-- The envelope of every message (packages/foundation/stockstat_foundation/protocol/envelope.py).
-- JSON, msgpack and base64 are parameters. `none` is bytes that neither reads, or a dictionary with
-- a value that the dataclass's annotations do not allow.
pub mod Sent
use stock_statistic.Common.{ℕ, Bool, true, false, Option, none, some, List, [], ◌∷◌, if◌then◌else◌}
use stock_statistic.Common.Integer.{ℤ, pos}
use stock_statistic.Common.Text.{Text, codes, text_eq}
use stock_statistic.Protocol.Value.{
  Value, null, bool, int, text, list, dict, nil, Fields, empty, field, field_or, as_text,
  as_opt_text, as_nat, as_int, as_bool, of_texts, texts_of,
}
use stock_statistic.Protocol.Task.{of_opt_text}
use stock_statistic.Protocol.Decode.{◌>>=◌, as_texts, as_dict}

abbrev pub Octets : Type 0
Octets = List ℕ

pub record Headers : Type 0 where
  pub content_type : Text
  pub data_codec : Text
  pub strategy_codec : Text
  pub encoding : Text
  pub priority : ℤ
  pub timeout : ℕ
  pub trace_id : Text
  pub data_ref : Text
  pub retry_count : ℕ
  pub protocol_version : Text
  pub accepted_codecs : List Text
  pub accepted_encodings : List Text

abbrev pub default_headers : Headers
default_headers = record {
  content_type = codes "application/json";
  data_codec = codes "arrow";
  strategy_codec = codes "cloudpickle";
  encoding = codes "json";
  priority = pos 0;
  timeout = 3600;
  trace_id = [];
  data_ref = [];
  retry_count = 0;
  protocol_version = codes "1.0";
  accepted_codecs = [];
  accepted_encodings = [];
}

unfoldable pub headers_to_dict : Headers → Fields
unfolding of_texts
headers_to_dict h = field (codes "content_type") (text h.content_type) (
    field (codes "data_codec") (text h.data_codec) (
      field (codes "strategy_codec") (text h.strategy_codec) (
        field (codes "encoding") (text h.encoding) (
          field (codes "priority") (int h.priority) (
            field (codes "timeout") (int (pos h.timeout)) (
              field (codes "trace_id") (text h.trace_id) (
                field (codes "data_ref") (text h.data_ref) (
                  field (codes "retry_count") (int (pos h.retry_count)) (
                    field (codes "protocol_version") (text h.protocol_version) (
                      field (codes "accepted_codecs") (list (of_texts h.accepted_codecs)) (
                        field (codes "accepted_encodings") (list (of_texts h.accepted_encodings))
                          empty)))))))))))

unfoldable pub headers_from_dict : Fields → Option Headers
unfolding field_or texts_of
headers_from_dict d = do
  content_type ← as_text (field_or (codes "content_type") (text (codes "application/json")) d)
  data_codec ← as_text (field_or (codes "data_codec") (text (codes "arrow")) d)
  strategy_codec ← as_text (field_or (codes "strategy_codec") (text (codes "cloudpickle")) d)
  encoding ← as_text (field_or (codes "encoding") (text (codes "json")) d)
  priority ← as_int (field_or (codes "priority") (int (pos 0)) d)
  timeout ← as_nat (field_or (codes "timeout") (int (pos 3600)) d)
  trace_id ← as_text (field_or (codes "trace_id") (text []) d)
  data_ref ← as_text (field_or (codes "data_ref") (text []) d)
  retry_count ← as_nat (field_or (codes "retry_count") (int (pos 0)) d)
  protocol_version ← as_text (field_or (codes "protocol_version") (text (codes "1.0")) d)
  accepted_codecs ← as_texts (field_or (codes "accepted_codecs") (list nil) d)
  accepted_encodings ← as_texts (field_or (codes "accepted_encodings") (list nil) d)
  some (record {
    content_type = content_type;
    data_codec = data_codec;
    strategy_codec = strategy_codec;
    encoding = encoding;
    priority = priority;
    timeout = timeout;
    trace_id = trace_id;
    data_ref = data_ref;
    retry_count = retry_count;
    protocol_version = protocol_version;
    accepted_codecs = accepted_codecs;
    accepted_encodings = accepted_encodings;
  })

-- A payload of bytes is sent as a text.
pub data Payload : Type 0 where
  plain : Value → Payload
  raw : Octets → Payload

pub record Envelope : Type 0 where
  pub protocol : Text
  pub version : Text
  pub type : Text
  pub id : Text
  pub reply_to : Option Text
  pub headers : Headers
  pub payload : Payload

pub record Encodings : Type 0 where
  pub b64encode : Octets → Text
  pub b64decode : Text → Octets
  pub json_dumps : Fields → Octets
  pub json_loads : Octets → Option Fields
  pub msgpack_dumps : Fields → Octets
  pub msgpack_loads : Octets → Option Fields

abbrev payload_fields : Encodings → Payload → Fields
payload_fields w (plain v) = field (codes "payload") v empty
payload_fields w (raw b) =
    field (codes "payload") (text (w.b64encode b)) (field (codes "_payload_b64") (bool true) empty)

-- The dictionary that `encode` serializes.
unfoldable pub wire : Encodings → Envelope → Fields
unfolding headers_to_dict
wire w e = field (codes "protocol") (text e.protocol) (
    field (codes "version") (text e.version) (
      field (codes "type") (text e.type) (
        field (codes "id") (text e.id) (
          field (codes "reply_to") (of_opt_text e.reply_to) (
            field (codes "headers") (dict (headers_to_dict e.headers))
              (payload_fields w e.payload))))))

unfoldable pub encode : Encodings → Envelope → Octets
unfolding wire
encode w e =
    if text_eq e.headers.encoding (codes "msgpack")
    then w.msgpack_dumps (wire w e)
    else w.json_dumps (wire w e)

-- `d.get("id") or str(uuid.uuid4())`; `fresh` is the new identifier.
abbrev id_of : Text → Value → Option Text
id_of fresh null = some fresh
id_of fresh (text []) = some fresh
id_of fresh v = as_text v

-- The payload, decoded where the dictionary is marked and the payload is a text.
abbrev payload_of : Encodings → Bool → Value → Payload
payload_of w true (text t) = raw (w.b64decode t)
payload_of w _ v = plain v

unfoldable pub envelope_from_dict : Encodings → Text → Fields → Option Envelope
unfolding field_or headers_from_dict
envelope_from_dict w fresh d = do
  marked ← as_bool (field_or (codes "_payload_b64") null d)
  protocol ← as_text (field_or (codes "protocol") (text (codes "stockstat-rpc")) d)
  version ← as_text (field_or (codes "version") (text (codes "1.0")) d)
  type ← as_text (field_or (codes "type") (text []) d)
  id ← id_of fresh (field_or (codes "id") null d)
  reply_to ← as_opt_text (field_or (codes "reply_to") null d)
  fields ← as_dict (field_or (codes "headers") (dict empty) d)
  headers ← headers_from_dict fields
  some (record {
    protocol = protocol;
    version = version;
    type = type;
    id = id;
    reply_to = reply_to;
    headers = headers;
    payload = payload_of w marked (field_or (codes "payload") null d);
  })

unfoldable pub decode : Encodings → Text → Octets → Option Envelope
unfolding envelope_from_dict
decode w fresh bytes = elim (w.json_loads bytes) [
  | some d ↦ envelope_from_dict w fresh d
  | none ↦ elim (w.msgpack_loads bytes) [ none ↦ none | some d ↦ envelope_from_dict w fresh d ]
]

-- `fresh` is the identifier of the reply.
unfoldable pub reply : Text → Text → Payload → Text → Envelope → Envelope
reply fresh type payload content_type e = record {
  protocol = codes "stockstat-rpc";
  version = codes "1.0";
  type = type;
  id = fresh;
  reply_to = some e.id;
  headers = record default_headers {
    content_type = content_type;
    trace_id = e.headers.trace_id;
    protocol_version = e.headers.protocol_version;
    encoding = e.headers.encoding;
  };
  payload = payload;
}

abbrev pub is_reply : Envelope → Bool
is_reply e = elim e.reply_to [ none ↦ false | some _ ↦ true ]
