-- ===== src/Protocol/Errors.antt =====
-- The error classes (packages/foundation/stockstat_foundation/errors.py).
use stock_statistic.Common.{
  ◌≡◌, refl, Bool, true, false, Option, none, some, List, [], ◌∷◌, if◌then◌else◌,
}
use stock_statistic.Common.Text.{Text, codes, text_eq}
use stock_statistic.Protocol.Value.{
  Value, null, bool, text, dict, Fields, empty, field, field_or, as_text,
}
use stock_statistic.Protocol.Decode.{◌>>=◌}

pub data ErrorClass : Type 0 where
  app_error task_error task_not_ready task_cancelled task_timeout task_not_found : ErrorClass
  protocol_mismatch transport_error dispatcher_unavailable worker_capability : ErrorClass
  storage_error compute_error config_error : ErrorClass

-- `code` of the class.
abbrev pub class_code : ErrorClass → Text
class_code app_error = codes "INTERNAL_ERROR"
class_code task_error = codes "TASK_FAILED"
class_code task_not_ready = codes "TASK_NOT_READY"
class_code task_cancelled = codes "TASK_CANCELLED"
class_code task_timeout = codes "TASK_TIMEOUT"
class_code task_not_found = codes "TASK_NOT_FOUND"
class_code protocol_mismatch = codes "PROTOCOL_MISMATCH"
class_code transport_error = codes "TRANSPORT_ERROR"
class_code dispatcher_unavailable = codes "DISPATCHER_UNAVAILABLE"
class_code worker_capability = codes "WORKER_CAPABILITY_INSUFFICIENT"
class_code storage_error = codes "STORAGE_ERROR"
class_code compute_error = codes "COMPUTE_FAILED"
class_code config_error = codes "CONFIG_ERROR"

-- `recoverable` of the class.
abbrev pub class_recoverable : ErrorClass → Bool
class_recoverable task_not_ready = true
class_recoverable task_timeout = true
class_recoverable transport_error = true
class_recoverable dispatcher_unavailable = true
class_recoverable worker_capability = true
class_recoverable storage_error = true
class_recoverable _ = false

abbrev pub all_errors : List ErrorClass
all_errors =
    app_error ∷ task_error ∷ task_not_ready ∷ task_cancelled ∷ task_timeout ∷ task_not_found
    ∷ protocol_mismatch ∷ transport_error ∷ dispatcher_unavailable ∷ worker_capability
    ∷ storage_error ∷ compute_error ∷ config_error ∷ []

pub record AppError : Type 0 where
  pub cls : ErrorClass
  pub message : Text
  pub code : Text
  pub context : Fields
  pub recoverable : Bool

abbrev text_or : Text → Text → Text
text_or [] other = other
text_or (c ∷ t) other = c ∷ t

abbrev text_given : Text → Option Text → Text
text_given other none = other
text_given other (some t) = t

abbrev flag_given : Bool → Option Bool → Bool
flag_given other none = other
flag_given other (some b) = b

-- The constructor; an absent context is an empty one.
unfoldable pub make : ErrorClass → Text → Option Text → Fields → Option Bool → AppError
make cls message code context recoverable = record {
  cls = cls;
  message = text_or message (class_code cls);
  code = text_given (class_code cls) code;
  context = context;
  recoverable = flag_given (class_recoverable cls) recoverable;
}

unfoldable pub error_to_dict : AppError → Fields
error_to_dict e = field (codes "code") (text e.code) (
    field (codes "message") (text e.message) (
      field (codes "context") (dict e.context)
        (field (codes "recoverable") (bool e.recoverable) empty)))

-- The first class with the code, or else the class that `from_dict` is called on.
unfoldable pub class_of : Text → ErrorClass → List ErrorClass → ErrorClass
class_of code other [] = other
class_of code other (c ∷ cs) =
    let rest = class_of code other cs in if text_eq (class_code c) code then c else rest

-- `context or {}`
abbrev as_context : Value → Option Fields
as_context null = some empty
as_context (dict d) = some d
as_context _ = none

abbrev as_flag : Value → Option (Option Bool)
as_flag null = some none
as_flag (bool b) = some (some b)
as_flag _ = none

-- `none` is a dictionary with a value that the annotations do not allow.
unfoldable pub error_from_dict : ErrorClass → Fields → Option AppError
unfolding field_or class_of make
error_from_dict cls d = do
  code ← as_text (field_or (codes "code") (text (codes "INTERNAL_ERROR")) d)
  message ← as_text (field_or (codes "message") (text []) d)
  context ← as_context (field_or (codes "context") (dict empty) d)
  recoverable ← as_flag (field_or (codes "recoverable") null d)
  some (make (class_of code cls all_errors) message (some code) context recoverable)

class_of-class_code : (other c : ErrorClass) → class_of (class_code c) other all_errors ≡ c
unfolding class_of text_eq
class_of-class_code other app_error = refl
class_of-class_code other task_error = refl
class_of-class_code other task_not_ready = refl
class_of-class_code other task_cancelled = refl
class_of-class_code other task_timeout = refl
class_of-class_code other task_not_found = refl
class_of-class_code other protocol_mismatch = refl
class_of-class_code other transport_error = refl
class_of-class_code other dispatcher_unavailable = refl
class_of-class_code other worker_capability = refl
class_of-class_code other storage_error = refl
class_of-class_code other compute_error = refl
class_of-class_code other config_error = refl

message_kept :
    (c : ErrorClass) (m : Text)
    → text_or (text_or m (class_code c)) (class_code c) ≡ text_or m (class_code c)
message_kept app_error [] = refl
message_kept task_error [] = refl
message_kept task_not_ready [] = refl
message_kept task_cancelled [] = refl
message_kept task_timeout [] = refl
message_kept task_not_found [] = refl
message_kept protocol_mismatch [] = refl
message_kept transport_error [] = refl
message_kept dispatcher_unavailable [] = refl
message_kept worker_capability [] = refl
message_kept storage_error [] = refl
message_kept compute_error [] = refl
message_kept config_error [] = refl
message_kept c (a ∷ t) = refl

-- An error that is raised with the code of its class, sent as a dictionary and read by any of the
-- classes, is the same error: its class, message, context and flag are kept.
pub error_from_dict-to_dict :
    (reader cls : ErrorClass) (message : Text) (context : Fields) (recoverable : Option Bool)
    → error_from_dict reader (error_to_dict (make cls message none context recoverable))
      ≡ some (make cls message none context recoverable)
unfolding error_from_dict error_to_dict make text_eq
error_from_dict-to_dict reader cls message context recoverable =
    simp (class_of-class_code, message_kept)
