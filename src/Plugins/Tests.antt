-- ===== src/Plugins/Tests.antt =====
-- Two built-in plugins and what entry points load, and an MQTT queue of two payloads.
use zhiwei_backend.Prelude.{
  ℕ, ◌≡◌, refl, List, [], ◌∷◌, map, none, some, ◌==◌, arith, Exception, ok, err, if◌then◌else◌,
}
use zhiwei_backend.Plugins.Registry.{
  PluginClass, Registry, names, discover, register, get, plugin_api_version,
}
use zhiwei_backend.Plugins.Registry
use zhiwei_backend.Plugins.Catalog.{catalog, answers, unused, answers-catalog}
use zhiwei_backend.Plugins.Mqtt.{
  Loaded, Decoding, RawReading, create, enqueue, listen, parse, read_batch,
}
use zhiwei_backend.Plugins.Backlog.{AllServed, create-AllServed}

abbrev fft : PluginClass ℕ
fft = record { name = "fft"; plugin_api_version = "1"; content = 1 }

abbrev base : PluginClass ℕ
base = record { name = "base"; plugin_api_version = "1"; content = 2 }

abbrev statistics : PluginClass ℕ
statistics = record { name = "statistics"; plugin_api_version = "1"; content = 3 }

abbrev other_fft : PluginClass ℕ
other_fft = record { name = "fft"; plugin_api_version = "1"; content = 4 }

abbrev old_modal : PluginClass ℕ
old_modal = record { name = "modal"; plugin_api_version = "0"; content = 5 }

abbrev builtin : List (PluginClass ℕ)
builtin = statistics ∷ base ∷ fft ∷ []

abbrev entry_points : List (Registry.Loaded ℕ)
entry_points =
    Registry.Loaded.plugin other_fft
    ∷ Registry.Loaded.load_error
    ∷ Registry.Loaded.something_else
    ∷ Registry.Loaded.plugin old_modal
    ∷ []

answers_run :
    answers builtin entry_points ("fft" ∷ "modal" ∷ "base" ∷ []) unused
    ≡ some fft ∷ none ∷ none ∷ []
unfolding answers get discover register
answers_run = refl

names_run : (names builtin entry_points unused).0 ≡ "fft" ∷ "statistics" ∷ []
unfolding names discover register
names_run = refl

answers-catalog_example :
    answers builtin entry_points ("fft" ∷ "modal" ∷ []) unused
    ≡ map (catalog builtin entry_points) ("fft" ∷ "modal" ∷ [])
answers-catalog_example = answers-catalog builtin entry_points ("fft" ∷ "modal" ∷ [])

-- A message is the number of an object with that value; 0 is no object, 1 no JSON and 2 no text.
abbrev loads : List ℕ → Loaded ℕ
loads [] = Loaded.json_decode_error
loads (n ∷ bytes) =
    if n == 0
    then Loaded.other_value
    else if n == 1
    then Loaded.json_decode_error
    else if n == 2
    then Loaded.unicode_decode_error
    else Loaded.object (("device_code", 0) ∷ ("channel_code", 0) ∷ ("value", n) ∷ [])

-- The value 9 is none that `float` takes.
abbrev decoding : Decoding ℕ ℕ
decoding = record {
  loads = loads;
  float = λ v. if v == 9 then err Exception.value_error else ok v;
  str = λ v. "text";
  as_text = λ v. none;
  fromisoformat = λ text. err Exception.value_error;
}

abbrev messages : List (List ℕ)
messages = (1 ∷ []) ∷ (9 ∷ []) ∷ (0 ∷ []) ∷ (5 ∷ []) ∷ (6 ∷ []) ∷ (2 ∷ []) ∷ (7 ∷ []) ∷ []

abbrev reading : ℕ → RawReading ℕ ℕ
reading n = record {
  device_code = 0;
  channel_code = 0;
  timestamp = 50;
  value = n;
  unit = "";
  quality = "good";
  extra = [];
}

read_batch_run :
    (read_batch decoding 50 (listen decoding 50 messages (create 2))).0 ≡ ok (reading 5 ∷ [])
unfolding read_batch listen create enqueue parse
read_batch_run = refl

create-AllServed_example : AllServed decoding 50 (messages ∷ messages ∷ []) (create 2)
create-AllServed_example = create-AllServed decoding 50 2 (messages ∷ messages ∷ []) (omega arith)
