-- ===== src/Agent/Serial/Failures.antt =====
-- What a request may raise.
use pytest_hardware_template.Prelude.{
  ℕ, String, Bool, true, false, Option, none, some, List, [], ◌∷◌, ◌≡◌, Result, ok, err, arith,
  if◌then◌else◌, refl, ◌==◌,
}
use pytest_hardware_template.Agent.Protocol.{
  str, Request, Response, Codec, Timeout, Failure, agent_error, serial_error, overflow_error,
  value_error, validate_fields, require_string, require_int, validate_envelope, require_text,
  require_timeout, require_timeout_value, bounded, decode_payload, success, encode_payload,
}
use pytest_hardware_template.Agent.Serial.{
  OpenError, io_error, refused, Port, Connection, SerialAgent, Setting, Action, continue, ◌>>=◌,
  ◌>>◌, lift, pure, check, io, io_value, opening, validate_device, not_already_open,
  require_connection, connect, set_timeout, close, open_device, write, read, reset_input,
  reset_output, dispatch, going_on, translate, handle,
}

module _ (port : Port) where
  -- A `ValueError` is the one with which the port refuses to be opened.
  abbrev pub IsSourced : {A : Type 0} → Result Failure A → Type 0
  IsSourced (ok a) = Unit
  IsSourced (err (agent_error code message)) = Unit
  IsSourced (err (serial_error text)) = Unit
  IsSourced (err overflow_error) = Unit
  IsSourced (err (value_error text)) = port.opened ≡ some (refused text)

  record Sources {A : Type 0} (m : Action A) : Type 0 where
    at : (s : SerialAgent) → IsSourced (m s).1

  lift-Sources : {A : Type 0} (r : Result Failure A) → IsSourced r → Sources (lift r)
  lift-Sources r h = record { at = λ s. h }

  continue-IsSourced :
      {A B : Type 0} (r : Result Failure A) (f : A → Action B) (u : SerialAgent)
      → IsSourced r
      → ((a : A) → Sources (f a))
      → IsSourced (continue r f u).1
  continue-IsSourced (ok a) f u h k = (k a).at u
  continue-IsSourced (err (agent_error code message)) f u h k = tt
  continue-IsSourced (err (serial_error text)) f u h k = tt
  continue-IsSourced (err overflow_error) f u h k = tt
  continue-IsSourced (err (value_error text)) f u h k = h

  bind-Sources :
      {A B : Type 0} (m : Action A) (f : A → Action B)
      → Sources m
      → ((a : A) → Sources (f a))
      → Sources (m >>= f)
  unfolding ◌>>=◌
  bind-Sources m f h k = record { at = λ s. continue-IsSourced (m s).1 f (m s).0 (h.at s) k }

  validate_fields-Sources :
      (sorted : List String → List String) (request : Request) (required : List String)
      → Sources (lift (validate_fields sorted request required))
  unfolding validate_fields
  validate_fields-Sources sorted request required = lift-Sources _ (ground arith)

  require_string-Sources :
      (request : Request) (name : String) → Sources (lift (require_string request name))
  unfolding require_string require_text
  require_string-Sources request name = lift-Sources _ (ground arith)

  require_int-Sources :
      (decimal : ℕ → String) (request : Request) (name : String) (minimum maximum : ℕ)
      → Sources (lift (require_int decimal request name minimum maximum))
  unfolding require_int
  require_int-Sources decimal request name minimum maximum = lift-Sources _ (ground arith)

  validate_device-Sources : (text : String) → Sources (lift (validate_device text))
  unfolding validate_device
  validate_device-Sources text = lift-Sources _ (ground arith)

  require_timeout-Sources :
      (codec : Codec) (request : Request) → Sources (lift (require_timeout codec request))
  unfolding require_timeout require_timeout_value
  require_timeout-Sources codec request = lift-Sources _ (ground arith)

  decode_payload-Sources :
      (codec : Codec) (request : Request) → Sources (lift (decode_payload codec request))
  unfolding decode_payload bounded require_string require_text
  decode_payload-Sources codec request = lift-Sources _ (ground arith)

  io-Sources : (o : Option String) → Sources (io o)
  io-Sources none = record { at = λ s. tt }
  io-Sources (some text) = record { at = λ s. tt }

  io_value-Sources : {A : Type 0} (r : Result String A) → Sources (io_value r)
  io_value-Sources (ok a) = record { at = λ s. tt }
  io_value-Sources (err text) = record { at = λ s. tt }

  check-Sources : (b : Bool) (code message : String) → Sources (check b (agent_error code message))
  check-Sources true code message = record { at = λ s. tt }
  check-Sources false code message = record { at = λ s. tt }

  opening-Sources : (o : Option OpenError) → port.opened ≡ o → Sources (opening o)
  opening-Sources none e = record { at = λ s. tt }
  opening-Sources (some (io_error text)) e = record { at = λ s. tt }
  opening-Sources (some (refused text)) e = record { at = λ s. e }

  not_already_open-Sources : (setting : Setting) → Sources (not_already_open setting port)
  not_already_open-Sources setting = record { at = λ s. ground arith }

  require_connection-Sources : Sources require_connection
  unfolding require_connection
  require_connection-Sources = record { at = λ s. ground arith }

  set_timeout-Sources : (timeout : Timeout) → Sources (set_timeout timeout)
  unfolding set_timeout
  set_timeout-Sources timeout = record { at = λ s. tt }

  opened-Sources : (c : Connection) → Sources (connect c >> pure (success []))
  unfolding connect ◌>>=◌
  opened-Sources c = record { at = λ s. tt }

  timed-Sources :
      (codec : Codec) (timeout : Timeout) (size : ℕ)
      → Sources (
          set_timeout timeout
          >> (io_value (port.data_read size) >>= λ bytes.
              pure (success (("data", str (encode_payload codec bytes)) ∷ []))))
  timed-Sources codec timeout size =
      bind-Sources (set_timeout timeout)
        (λ _. io_value (port.data_read size) >>= λ bytes.
          pure (success (("data", str (encode_payload codec bytes)) ∷ [])))
        (set_timeout-Sources timeout)
        (λ _.
          bind-Sources (io_value (port.data_read size))
            (λ bytes. pure (success (("data", str (encode_payload codec bytes)) ∷ [])))
            (io_value-Sources (port.data_read size)) (λ bytes. record { at = λ s. tt }))

  if-Sources :
      {A : Type 0} (b : Bool) (m n : Action A)
      → Sources m
      → Sources n
      → Sources (if b then m else n)
  if-Sources true m n h k = h
  if-Sources false m n h k = k

  close-Sources : Sources (close port)
  unfolding close
  close-Sources = record { at = λ s. ground arith }

  module _ (setting : Setting) (request : Request) where
    open_device-Sources : Sources (open_device setting port request)
    unfolding open_device
    open_device-Sources = bind-Sources _ _ (validate_fields-Sources _ _ _) (λ _.
        bind-Sources _ _ (not_already_open-Sources setting) (λ _.
          bind-Sources _ _ (require_string-Sources _ _) (λ text.
            bind-Sources _ _ (validate_device-Sources text) (λ device.
              bind-Sources _ _ (require_int-Sources _ _ _ _ _) (λ baudrate.
                bind-Sources _ _ (check-Sources _ _ _) (λ _.
                  bind-Sources _ _ (opening-Sources port.opened refl) (λ _. opened-Sources _)))))))

    write-Sources : Sources (write setting port request)
    unfolding write
    write-Sources = bind-Sources _ _ (validate_fields-Sources _ _ _) (λ _.
        bind-Sources _ _ require_connection-Sources (λ _.
          bind-Sources _ _ (decode_payload-Sources _ _) (λ payload.
            bind-Sources _ _ (io_value-Sources (port.written payload))
              (λ written. record { at = λ s. tt }))))

    read-Sources : Sources (read setting port request)
    unfolding read
    read-Sources = bind-Sources _ _ (validate_fields-Sources _ _ _) (λ _.
        bind-Sources _ _ require_connection-Sources (λ _.
          bind-Sources _ _ (require_int-Sources _ _ _ _ _) (λ size.
            bind-Sources _ _ (require_timeout-Sources _ _) (λ timeout. timed-Sources _ _ _))))

    reset_input-Sources : Sources (reset_input setting port request)
    unfolding reset_input
    reset_input-Sources = bind-Sources _ _ (validate_fields-Sources _ _ _) (λ _.
        bind-Sources _ _ require_connection-Sources
          (λ _. bind-Sources _ _ (io-Sources port.input_reset) (λ _. record { at = λ s. tt })))

    reset_output-Sources : Sources (reset_output setting port request)
    unfolding reset_output
    reset_output-Sources = bind-Sources _ _ (validate_fields-Sources _ _ _) (λ _.
        bind-Sources _ _ require_connection-Sources
          (λ _. bind-Sources _ _ (io-Sources port.output_reset) (λ _. record { at = λ s. tt })))

    going_on-Sources : (m : Action Response) → Sources m → Sources (going_on setting port m)
    going_on-Sources m h = bind-Sources m _ h (λ r. record { at = λ s. tt })

    hello-Sources : Sources {A = Response × Bool} (
        lift (validate_fields setting.sorted request [])
        >> pure (success (("agent_version", str setting.version) ∷ []), false))
    hello-Sources =
        bind-Sources (lift (validate_fields setting.sorted request [])) _
          (validate_fields-Sources _ _ _) (λ _. record { at = λ s. tt })

    closing-Sources : Sources {A = Response × Bool} (
        lift (validate_fields setting.sorted request []) >> (close port >> pure (success [], true)))
    closing-Sources =
        bind-Sources (lift (validate_fields setting.sorted request [])) _
          (validate_fields-Sources _ _ _)
          (λ _. bind-Sources (close port) _ close-Sources (λ _. record { at = λ s. tt }))

    dispatch-Sources : (operation : String) → Sources (dispatch setting port operation request)
    unfolding dispatch
    dispatch-Sources operation = if-Sources (operation == "hello") _ _ hello-Sources (
        if-Sources (operation == "open") _ _ (going_on-Sources _ open_device-Sources) (
          if-Sources (operation == "write") _ _ (going_on-Sources _ write-Sources) (
            if-Sources (operation == "read") _ _ (going_on-Sources _ read-Sources) (
              if-Sources (operation == "reset_input") _ _ (going_on-Sources _ reset_input-Sources) (
                if-Sources (operation == "reset_output") _ _
                  (going_on-Sources _ reset_output-Sources)
                  (if-Sources (operation == "close") _ _ closing-Sources
                    (record { at = λ s. tt })))))))

  -- What leaves the handler: an error of the protocol, the exception for a timeout that is too large
  -- for a float, or the `ValueError` with which the port refuses to be opened.
  abbrev pub IsReported : {A : Type 0} → Result Failure A → Type 0
  IsReported (ok a) = Unit
  IsReported (err (agent_error code message)) = Unit
  IsReported (err (serial_error text)) = ⊥
  IsReported (err overflow_error) = Unit
  IsReported (err (value_error text)) = port.opened ≡ some (refused text)

  envelope-IsReported :
      (is_one : String → Bool) (request : Request) → IsReported (validate_envelope is_one request)
  unfolding validate_envelope require_text
  envelope-IsReported is_one request = ground arith

  module _ (setting : Setting) where
    continue-IsReported :
        (r : Result Failure String) (f : String → Action (Response × Bool)) (s : SerialAgent)
        → IsReported r
        → ((a : String) → IsReported (f a s).1)
        → IsReported (continue r f s).1
    continue-IsReported (ok a) f s h k = k a
    continue-IsReported (err (agent_error code message)) f s h k = tt
    continue-IsReported (err (serial_error text)) f s h k = absurd h
    continue-IsReported (err overflow_error) f s h k = tt
    continue-IsReported (err (value_error text)) f s h k = h

    translate-IsReported :
        {A : Type 0} (r : Result Failure A) → IsSourced r → IsReported (translate setting port r)
    translate-IsReported (ok a) h = tt
    translate-IsReported (err (agent_error code message)) h = tt
    translate-IsReported (err (serial_error text)) h = tt
    translate-IsReported (err overflow_error) h = tt
    translate-IsReported (err (value_error text)) h = h

    -- No request makes a `SerialException` or an `OSError` leave the handler, which returns, or raises
    -- an error of the protocol, or one of two exceptions that it does not catch: the one for a timeout
    -- that is too large for a float, and the `ValueError` with which the serial library refuses to
    -- open the device.
    pub handle-IsReported :
        (request : Request) (s : SerialAgent) → IsReported (handle setting port request s).1
    unfolding handle ◌>>=◌
    handle-IsReported request s =
        continue-IsReported (validate_envelope setting.is_one request) _ s
          (envelope-IsReported setting.is_one request)
          (λ operation.
            translate-IsReported (dispatch setting port operation request s).1
              ((dispatch-Sources setting request operation).at s))
