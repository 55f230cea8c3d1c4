-- ===== src/Plugins/Backlog.antt =====
-- What the queue of the MQTT adapter keeps, and what a batch of it is.
use zhiwei_backend.Prelude.{
  ℕ, zero, suc, ◌-◌, ◌≤◌, ◌≡◌, refl, sym, ap, ◌∙◌, Bool, true, false, List, [], ◌∷◌, ◌++◌,
  append-nil, append_assoc, length, take, Option, none, some, String, Bool-cases, inl, inr, arith,
  Result, ok, err, then_result, if◌then◌else◌, length-append,
}
use zhiwei_backend.Prelude.Rows.Laws.{result-cases}
use zhiwei_backend.Prelude.Rows.Pages.{take_nil}
use zhiwei_backend.Plugins.Mqtt.{
  Loaded, Decoding, RawReading, MqttAdapter, create, enqueue, is_full, received, listen, receive,
  parse, appended, drain, read_batch,
}

abbrev pub left_after : {A : Type 0} {P : Type 0} → Result A → P → P → P
left_after (ok _) now later = later
left_after (err _) now later = now

module _ {Json Float : Type 0} (decoding : Decoding Json Float) (now : ℕ) where
  -- The payloads of the messages, up to the first message whose bytes are no text.
  abbrev heard_in : Loaded Json → List (List (String × Json)) → List (List (String × Json))
  heard_in (Loaded.object payload) rest = payload ∷ rest
  heard_in Loaded.other_value rest = rest
  heard_in Loaded.json_decode_error rest = rest
  heard_in Loaded.unicode_decode_error rest = []

  abbrev pub heard : List (List ℕ) → List (List (String × Json))
  heard [] = []
  heard (message ∷ messages) = heard_in (decoding.loads message) (heard messages)

  -- The readings of payloads, in their order, or the first exception that is not caught.
  abbrev pub parse_all : List (List (String × Json)) → Result (List (RawReading Json Float))
  parse_all [] = ok []
  parse_all (payload ∷ payloads) = then_result (parse decoding now payload) (λ reading.
      then_result (parse_all payloads)
        (λ readings. ok (appended decoding now [] reading ++ readings)))

  length-snoc : {A : Type 0} (xs : List A) (x : A) → length (xs ++ x ∷ []) ≡ suc (length xs)
  length-snoc [] x = refl
  length-snoc (y ∷ xs) x = ap suc (length-snoc xs x)

  abbrev adapter : List (List (String × Json)) → ℕ → Bool → MqttAdapter Json
  adapter queue n listening = record { queue = queue; queue_max = n; listening = listening }

  silent :
      (messages : List (List ℕ)) (queue : List (List (String × Json))) (n : ℕ)
      → listen decoding now messages (adapter queue n false) ≡ adapter queue n false
  unfolding listen
  silent [] queue n = refl
  silent (message ∷ messages) queue n = silent messages queue n

  room_filled :
      (n k : ℕ) (x : List (String × Json)) (xs : List (List (String × Json)))
      → suc k ≤ n
      → take (n - k) (x ∷ xs) ≡ x ∷ take (n - suc k) xs
  room_filled n k x xs h =
      let more : n - k ≡ suc (n - suc k) = omega (arith, h) in ap (λ (j : ℕ). take j (x ∷ xs)) more

  none_taken : (m : ℕ) (queue : List (List (String × Json))) → queue ≡ queue ++ take m []
  none_taken m queue =
      sym (ap (λ (xs : List (List (String × Json))). queue ++ xs) (take_nil m) ∙ append-nil queue)

  -- Dropped at a full queue, the payloads that a queue keeps are the first ones.
  received-queue :
      (l : Loaded Json) (messages : List (List ℕ)) (queue : List (List (String × Json))) (n : ℕ)
      → 1 ≤ n
      → length queue ≤ n
      → ((q : List (List (String × Json)))
          → length q ≤ n
          → (listen decoding now messages (adapter q n true)).queue
            ≡ q ++ take (n - length q) (heard messages))
      → (listen decoding now messages (received l (adapter queue n true))).queue
        ≡ queue ++ take (n - length queue) (heard_in l (heard messages))
  unfolding enqueue
  received-queue Loaded.other_value messages queue n pos fits ih = ih queue fits
  received-queue Loaded.json_decode_error messages queue n pos fits ih = ih queue fits
  received-queue Loaded.unicode_decode_error messages queue n pos fits ih =
      rw (silent messages queue n) (none_taken (n - length queue) queue)
  received-queue (Loaded.object payload) messages queue n pos fits ih =
      elim (Bool-cases (is_full (adapter queue n true))) [
        | inl full ↦
            let no_room : n - length queue ≡ 0 = ground arith in
            rw full (
              ih queue fits
              ∙ ap (λ (k : ℕ). queue ++ take k (heard messages)) no_room
              ∙ sym (ap (λ (k : ℕ). queue ++ take k (payload ∷ heard messages)) no_room))
        | inr free ↦
            let size = length-snoc queue payload in
            let more : suc (length queue) ≤ n = ground arith in
            rw free (
              ih (queue ++ payload ∷ []) (omega (arith, size, more))
              ∙ ap (λ (k : ℕ). (queue ++ payload ∷ []) ++ take (n - k) (heard messages)) size
              ∙ append_assoc queue (payload ∷ []) (take (n - suc (length queue)) (heard messages))
              ∙ sym (
                  ap (λ (xs : List (List (String × Json))). queue ++ xs)
                    (room_filled n (length queue) payload (heard messages) more)))
      ]

  listen-queue :
      (messages : List (List ℕ)) (queue : List (List (String × Json))) (n : ℕ)
      → 1 ≤ n
      → length queue ≤ n
      → (listen decoding now messages (adapter queue n true)).queue
        ≡ queue ++ take (n - length queue) (heard messages)
  unfolding listen
  listen-queue [] queue n pos fits = none_taken (n - length queue) queue
  listen-queue (message ∷ messages) queue n pos fits =
      received-queue (decoding.loads message) messages queue n pos fits
        (λ q h. listen-queue messages q n pos h)

  drain-parse_all :
      (queue : List (List (String × Json))) (readings : List (RawReading Json Float))
      → (drain decoding now queue readings).0
        ≡ then_result (parse_all queue) (λ rs. ok (readings ++ rs))
  drain-parse_all [] readings = ap ok (sym (append-nil readings))
  drain-parse_all (payload ∷ queue) readings = elim (result-cases (parse decoding now payload)) [
    | inr (e, f) ↦ rw f refl
    | inl (reading, f) ↦ rw f (
        drain-parse_all queue (appended decoding now readings reading)
        ∙ joined reading (parse_all queue))
  ]
    where
      joined :
          (reading : Option (RawReading Json Float)) (rest : Result (List (RawReading Json Float)))
          → then_result rest (λ rs. ok (appended decoding now readings reading ++ rs))
            ≡ then_result
                (then_result rest (λ rs. ok (appended decoding now [] reading ++ rs)))
                (λ rs. ok (readings ++ rs))
      joined none (ok rs) = refl
      joined none (err e) = refl
      joined (some r) (ok rs) = ap ok (append_assoc readings (r ∷ []) rs)
      joined (some r) (err e) = refl

  length-take_max : {A : Type 0} (n : ℕ) (xs : List A) → length (take n xs) ≤ n
  length-take_max zero xs = omega arith
  length-take_max (suc n) [] = omega arith
  length-take_max (suc n) (x ∷ xs) = omega (arith, length-take_max n xs)

  -- The payloads that a batch leaves: those after the first that raises an exception.
  abbrev pub left_over : List (List (String × Json)) → List (List (String × Json))
  left_over [] = []
  left_over (payload ∷ payloads) =
      left_after (parse decoding now payload) payloads (left_over payloads)

  drain-left_over :
      (queue : List (List (String × Json))) (readings : List (RawReading Json Float))
      → (drain decoding now queue readings).1 ≡ left_over queue
  drain-left_over [] readings = refl
  drain-left_over (payload ∷ queue) readings = elim (result-cases (parse decoding now payload)) [
    | inr (e, f) ↦ rw f refl
    | inl (reading, f) ↦ rw f (drain-left_over queue (appended decoding now readings reading))
  ]

  length-left_over : (queue : List (List (String × Json))) → length (left_over queue) ≤ length queue
  length-left_over [] = omega arith
  length-left_over (payload ∷ queue) = elim (result-cases (parse decoding now payload)) [
    | inr (e, f) ↦ rw f (omega arith)
    | inl (reading, f) ↦ rw f (omega (arith, length-left_over queue))
  ]

  -- What the queue has at the next batch: the old payloads and those that arrive while there is room, if the
  -- subscription goes on.
  abbrev pub filled : List (List ℕ) → MqttAdapter Json → List (List (String × Json))
  filled messages a =
      if a.listening
      then a.queue ++ take (a.queue_max - length a.queue) (heard messages)
      else a.queue

  listen-filled :
      (messages : List (List ℕ)) (a : MqttAdapter Json)
      → 1 ≤ a.queue_max
      → length a.queue ≤ a.queue_max
      → (listen decoding now messages a).queue ≡ filled messages a
  listen-filled messages a pos fits = elim (Bool-cases a.listening) [
    | inl on ↦ rw on (listen-queue messages a.queue a.queue_max pos fits)
    | inr off ↦
        rw off (ap (λ (b : MqttAdapter Json). b.queue) (silent messages a.queue a.queue_max))
  ]

  received-queue_max :
      (l : Loaded Json) (a : MqttAdapter Json) → (received l a).queue_max ≡ a.queue_max
  unfolding enqueue
  received-queue_max Loaded.other_value a = refl
  received-queue_max Loaded.json_decode_error a = refl
  received-queue_max Loaded.unicode_decode_error a = refl
  received-queue_max (Loaded.object payload) a = elim (Bool-cases (is_full a)) [
    | inl full ↦ rw full refl
    | inr free ↦ rw free refl
  ]

  receive-queue_max :
      (message : List ℕ) (a : MqttAdapter Json)
      → (receive decoding now message a).queue_max ≡ a.queue_max
  receive-queue_max message a = go a.listening
    where
      go :
          (on : Bool)
          → (receive decoding now message (record a { listening = on })).queue_max ≡ a.queue_max
      go true = received-queue_max (decoding.loads message) (record a { listening = true })
      go false = refl

  listen-queue_max :
      (messages : List (List ℕ)) (a : MqttAdapter Json)
      → (listen decoding now messages a).queue_max ≡ a.queue_max
  unfolding listen
  listen-queue_max [] a = refl
  listen-queue_max (message ∷ messages) a =
      listen-queue_max messages (receive decoding now message a) ∙ receive-queue_max message a

  -- Rounds of messages, each followed by a batch: the queue at the batch is within its bound and is what
  -- `filled` says, the batch is its readings in order or its first exception, and what is left is `left_over`.
  pub AllServed : List (List (List ℕ)) → MqttAdapter Json → Type 0
  AllServed [] a = Unit
  AllServed (messages ∷ rounds) a =
      let b = listen decoding now messages a in
      (length b.queue ≤ a.queue_max)
      × (b.queue ≡ filled messages a)
      × ((read_batch decoding now b).0 ≡ parse_all b.queue)
      × ((read_batch decoding now b).1.queue ≡ left_over b.queue)
      × AllServed rounds (read_batch decoding now b).1

  length-filled :
      (messages : List (List ℕ)) (a : MqttAdapter Json)
      → length a.queue ≤ a.queue_max
      → length (filled messages a) ≤ a.queue_max
  length-filled messages a fits = elim (Bool-cases a.listening) [
    | inr off ↦ rw off fits
    | inl on ↦ rw on (
        omega (
          arith,
          fits,
          length-append a.queue (take (a.queue_max - length a.queue) (heard messages)),
          length-take_max (a.queue_max - length a.queue) (heard messages),
        ))
  ]

  rounds-AllServed :
      (rounds : List (List (List ℕ))) (a : MqttAdapter Json)
      → 1 ≤ a.queue_max
      → length a.queue ≤ a.queue_max
      → AllServed rounds a
  unfolding AllServed read_batch
  rounds-AllServed [] a pos fits = tt
  rounds-AllServed (messages ∷ rounds) a pos fits =
      let b = listen decoding now messages a in
      let q : b.queue ≡ filled messages a = listen-filled messages a pos fits in
      let size : length b.queue ≤ a.queue_max = rw q (length-filled messages a fits) in
      let m = listen-queue_max messages a in
      let left = drain-left_over b.queue [] in
      (
        size,
        q,
        drain-parse_all b.queue [] ∙ unchanged (parse_all b.queue),
        left,
        rounds-AllServed rounds (read_batch decoding now b).1 (rw m pos)
            (omega (arith, size, m, ap length left, length-left_over b.queue)),
      )
    where
      unchanged : {A : Type 0} (r : Result A) → then_result r (λ x. ok x) ≡ r
      unchanged (ok x) = refl
      unchanged (err e) = refl

  -- For a bound of 1 at least, from the adapter as it is made and for any rounds of messages with a batch
  -- after each: at each batch the queue holds `queue_max` payloads at most, namely those that the batch before
  -- left and then the payloads of the messages since, in order, as far as there is room; none are taken after a
  -- message whose bytes are no text, by then or earlier. The batch is the readings of the queue's payloads, in
  -- order, or the first exception that one of them raises, and then the payloads after that one are left.
  pub create-AllServed :
      (queue_max : ℕ) (rounds : List (List (List ℕ)))
      → 1 ≤ queue_max
      → AllServed rounds (create queue_max)
  unfolding create
  create-AllServed n rounds pos = rounds-AllServed rounds (create n) pos (omega arith)
