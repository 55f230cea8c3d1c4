-- ===== src/Plugins/Mqtt.antt =====
-- app/plugins/protocols/mqtt_adapter.py: the queue between the subscription and `read_batch`. The
-- connection is left out. JSON values and what Python makes of them are of libraries: `Json` is not looked
-- into but through `Decoding`.
use zhiwei_backend.Prelude.{
  ℕ, Bool, true, false, not, ◌&&◌, ◌||◌, leb, ltb, List, [], ◌∷◌, ◌++◌, length, Option, none, some,
  String, str_eq, Exception, Result, ok, err, then_result, if◌then◌else◌,
}
use zhiwei_backend.Prelude.Rows.{select}

-- What `json.loads` makes of the bytes of a message: an object, another value, a JSONDecodeError, or the
-- UnicodeDecodeError of bytes that are no text.
pub data Loaded (Json : Type 0) : Type 0 where
  object : List (String × Json) → Loaded Json
  other_value json_decode_error unicode_decode_error : Loaded Json

-- `float` and `str` of a value, the value as a text if it is one, and `datetime.fromisoformat`.
pub record Decoding (Json Float : Type 0) : Type 0 where
  pub loads : List ℕ → Loaded Json
  pub float : Json → Result Float
  pub str : Json → String
  pub as_text : Json → Option String
  pub fromisoformat : String → Result ℕ

pub record RawReading (Json Float : Type 0) : Type 0 where
  pub device_code : Json
  pub channel_code : Json
  pub timestamp : ℕ
  pub value : Float
  pub unit : String
  pub quality : String
  pub extra : List (String × Json)

-- `queue_max` is the size of the queue, where 0 is no bound; `listening` says that the subscription goes on.
pub record MqttAdapter (Json : Type 0) : Type 0 where
  pub queue : List (List (String × Json))
  pub queue_max : ℕ
  pub listening : Bool

module _ {Json : Type 0} where
  abbrev pub item : String → List (String × Json) → Option Json
  item key [] = none
  item key ((k, v) ∷ items) = if str_eq k key then some v else item key items

  -- `payload[key]`
  abbrev pub item_or_raise : Option Json → Result Json
  item_or_raise none = err Exception.key_error
  item_or_raise (some v) = ok v

  abbrev pub is_extra : String × Json → Bool
  is_extra (k, v) = not (
      str_eq k "device_code"
      || (str_eq k "channel_code"
          || (str_eq k "value"
              || (str_eq k "unit" || (str_eq k "timestamp" || str_eq k "quality")))))

  unfoldable pub create : ℕ → MqttAdapter Json
  create queue_max = record { queue = []; queue_max = queue_max; listening = true }

  abbrev pub is_full : MqttAdapter Json → Bool
  is_full a = ltb 0 a.queue_max && leb a.queue_max (length a.queue)

  -- a payload that finds the queue full is dropped
  unfoldable pub enqueue : List (String × Json) → MqttAdapter Json → MqttAdapter Json
  enqueue payload a = if is_full a then a else record a { queue = a.queue ++ payload ∷ [] }

  -- The body of the loop over the messages; what it does not catch ends the subscription.
  abbrev pub received : Loaded Json → MqttAdapter Json → MqttAdapter Json
  received (Loaded.object payload) a = enqueue payload a
  received Loaded.other_value a = a
  received Loaded.json_decode_error a = a
  received Loaded.unicode_decode_error a = record a { listening = false }

  unfoldable pub disconnect : MqttAdapter Json → MqttAdapter Json
  disconnect a = record a { queue = []; listening = false }

module _ {Json Float : Type 0} (decoding : Decoding Json Float) (now : ℕ) where
  open decoding use {loads, float, str, as_text, fromisoformat}

  abbrev pub receive : List ℕ → MqttAdapter Json → MqttAdapter Json
  receive message a = if a.listening then received (loads message) a else a

  unfoldable pub listen : List (List ℕ) → MqttAdapter Json → MqttAdapter Json
  listen [] a = a
  listen (message ∷ messages) a = listen messages (receive message a)

  abbrev pub time_or_now : Result ℕ → ℕ
  time_or_now (ok time) = time
  time_or_now (err e) = now

  abbrev pub text_time : Option String → ℕ
  text_time none = now
  text_time (some text) = time_or_now (fromisoformat text)

  abbrev pub timestamp_of : Option Json → ℕ
  timestamp_of none = now
  timestamp_of (some v) = text_time (as_text v)

  abbrev pub str_or : Option Json → String → String
  str_or none default = default
  str_or (some v) default = str v

  -- the part under `try`
  abbrev pub required : List (String × Json) → Result (Json × Json × Float)
  required payload = then_result (item_or_raise (item "device_code" payload)) (λ device_code.
      then_result (item_or_raise (item "channel_code" payload)) (λ channel_code.
        then_result (item_or_raise (item "value" payload))
          (λ v. then_result (float v) (λ value. ok (device_code, channel_code, value)))))

  abbrev pub reading_of : List (String × Json) → Json × Json × Float → RawReading Json Float
  reading_of payload (device_code, channel_code, value) = record {
    device_code = device_code;
    channel_code = channel_code;
    timestamp = timestamp_of (item "timestamp" payload);
    value = value;
    unit = str_or (item "unit" payload) "";
    quality = str_or (item "quality" payload) "good";
    extra = select is_extra payload;
  }

  -- `except (KeyError, TypeError, ValueError)`
  abbrev pub caught : Exception → Result (Option (RawReading Json Float))
  caught Exception.key_error = ok none
  caught Exception.type_error = ok none
  caught Exception.value_error = ok none
  caught e = err e

  abbrev pub parsed :
      List (String × Json) → Result (Json × Json × Float) → Result (Option (RawReading Json Float))
  parsed payload (ok fields) = ok (some (reading_of payload fields))
  parsed payload (err e) = caught e

  unfoldable pub parse : List (String × Json) → Result (Option (RawReading Json Float))
  parse payload = parsed payload (required payload)

  abbrev pub appended :
      List (RawReading Json Float) → Option (RawReading Json Float) → List (RawReading Json Float)
  appended readings none = readings
  appended readings (some reading) = readings ++ reading ∷ []

  -- A payload that raises ends the loop; the payloads after it stay in the queue.
  abbrev pub next :
      Result (Option (RawReading Json Float))
      → List (List (String × Json))
      → List (RawReading Json Float)
      → (List (RawReading Json Float)
          → Result (List (RawReading Json Float)) × List (List (String × Json)))
      → Result (List (RawReading Json Float)) × List (List (String × Json))
  next (ok reading) queue readings loop = loop (appended readings reading)
  next (err e) queue readings loop = (err e, queue)

  -- The loop of `read_batch`, with the readings so far: what it returns, and the queue that it leaves.
  abbrev pub drain :
      List (List (String × Json))
      → List (RawReading Json Float)
      → Result (List (RawReading Json Float)) × List (List (String × Json))
  drain [] readings = (ok readings, [])
  drain (payload ∷ queue) readings = next (parse payload) queue readings (λ rs. drain queue rs)

  unfoldable pub read_batch :
      MqttAdapter Json → Result (List (RawReading Json Float)) × MqttAdapter Json
  read_batch a = let out = drain a.queue [] in (out.0, record a { queue = out.1 })
