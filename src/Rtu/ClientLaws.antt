-- ===== src/Rtu/ClientLaws.antt =====
-- Lemmas about `Send` of internal/modbus/rtu_tcp.go on every network.
use srne_inverter_to_mqtt.Base.{
  ℕ, zero, suc, ◌-◌, ◌≤◌, ◌<◌, bit_or, true, ◌≡◌, ◌≢◌, Option-cases, refl, ◌⊎◌, inl, inr, none,
  some, List, [], ◌∷◌, ◌++◌, length, get_or, take, length-append, length-take, arith,
}
use srne_inverter_to_mqtt.Rtu.Frame.{
  rtu_min_frame_size, rtu_max_frame_size, rtu_exception_frame_size,
}
use srne_inverter_to_mqtt.Rtu.Client.{
  FuncCodes, request_count, rtu_response_length, Conn, Network, Handler, read_failed, write_failed,
  deadline_failed, dial_failed, unexpected_function, SendResult, response, failed, fault,
  short_request, is_short, reads_count, connect_locked, close_locked, read_at_least, read_rest,
  receive, transmit, send,
}

-- What was read is the buffer's start, fits the buffer, and is long enough unless the read failed.
read_at_least_lem :
    (size least : ℕ) (got : List ℕ) (pieces : Conn)
    → length got ≤ size
    → least ≤ size
    → let r = read_at_least size least got pieces in
      (length r.bytes ≤ size) × (r.complete ≡ true → least ≤ length r.bytes)
unfolding read_at_least
read_at_least_lem size least got [] h k = ground arith
read_at_least_lem size least got (piece ∷ pieces) h k = ground (
  arith,
  length-append got piece,
  length-append got (take (size - length got) piece),
  length-take (size - length got) piece,
  read_at_least_lem size least (got ++ piece) pieces,
)

-- The computed response length of a request for at most 125 registers or bits is between 4 and 256.
pub rtu_response_length-le :
    (codes : FuncCodes) (request : List ℕ)
    → request_count request ≤ 125
    → (rtu_min_frame_size ≤ rtu_response_length codes request)
      × (rtu_response_length codes request ≤ rtu_max_frame_size)
unfolding rtu_response_length
rtu_response_length-le codes request h = ground arith

get_or_prefix : (xs ys : List ℕ) (i d : ℕ) → i < length xs → get_or (xs ++ ys) i d ≡ get_or xs i d
get_or_prefix [] ys i d h = absurd (omega arith)
get_or_prefix (x ∷ xs) ys zero d h = refl
get_or_prefix (x ∷ xs) ys (suc i) d h = get_or_prefix xs ys i d (omega arith)

-- A response to the function, whole, or an exception response, whole.
abbrev pub IsAnswer : FuncCodes → List ℕ → List ℕ → Type 0
IsAnswer codes request bytes =
    (rtu_min_frame_size ≤ length bytes)
    × (length bytes ≤ rtu_max_frame_size)
    × (((get_or bytes 1 0 ≡ get_or request 1 0)
          × (rtu_response_length codes request ≤ length bytes))
        ⊎ ((get_or bytes 1 0 ≡ bit_or (get_or request 1 0) 0x80)
            × (rtu_exception_frame_size ≤ length bytes)))

-- The request has no function code, or no count although its function has one.
abbrev pub IsShort : FuncCodes → List ℕ → Type 0
IsShort codes request =
    (length request < 2)
    ⊎ ((length request < 6)
        × ((get_or request 1 0 ≡ codes.read_discrete_inputs)
            ⊎ ((get_or request 1 0 ≡ codes.read_coils)
                ⊎ ((get_or request 1 0 ≡ codes.read_input_registers)
                    ⊎ ((get_or request 1 0 ≡ codes.read_holding_registers)
                        ⊎ (get_or request 1 0 ≡ codes.read_write_multiple_registers))))))

is_short-IsShort :
    (codes : FuncCodes) (request : List ℕ) → is_short codes request ≡ true → IsShort codes request
unfolding is_short reads_count
is_short-IsShort codes request h = ground arith

-- What a call leaves behind. Only a failing deadline is an error that keeps the connection.
abbrev pub Outcome : FuncCodes → List ℕ → Handler → SendResult → Type 0
Outcome codes request h (response bytes) = IsAnswer codes request bytes × (h.conn ≢ none)
Outcome codes request h (failed deadline_failed) = h.conn ≢ none
Outcome codes request h (failed dial_failed) = h.conn ≡ none
Outcome codes request h (failed write_failed) = h.conn ≡ none
Outcome codes request h (failed read_failed) = h.conn ≡ none
Outcome codes request h (failed (unexpected_function a f)) =
    (h.conn ≡ none) × (a ≢ f) × (a ≢ bit_or f 0x80)
Outcome codes request h fault = rtu_max_frame_size < rtu_response_length codes request
Outcome codes request h short_request = IsShort codes request

module _ (codes : FuncCodes) (request : List ℕ) where
  -- The part after the first read: enough bytes are there or are fetched, at either length.
  read_rest-Outcome :
      (wanted : ℕ) (got : List ℕ) (pieces : Conn) (h : Handler)
      → rtu_min_frame_size ≤ length got
      → length got ≤ rtu_max_frame_size
      → ((get_or got 1 0 ≡ get_or request 1 0) × (wanted ≡ rtu_response_length codes request))
        ⊎ ((get_or got 1 0 ≡ bit_or (get_or request 1 0) 0x80)
            × (wanted ≡ rtu_exception_frame_size))
      → let r = read_rest wanted got pieces h in Outcome codes request r.0 r.1
  unfolding read_rest close_locked
  read_rest-Outcome wanted got pieces h low high kind = ground (
    arith,
    read_at_least_lem (wanted - length got) (wanted - length got) [] pieces,
    length-append got (read_at_least (wanted - length got) (wanted - length got) [] pieces).bytes,
    get_or_prefix got (read_at_least (wanted - length got) (wanted - length got) [] pieces).bytes 1
        0,
  )

  receive-Outcome :
      (pieces : Conn) (h : Handler)
      → let r = receive codes request pieces h in Outcome codes request r.0 r.1
  unfolding receive close_locked
  receive-Outcome pieces h =
      let head = read_at_least rtu_max_frame_size rtu_min_frame_size [] pieces in
      let h' : Handler = record h { conn = some head.rest } in
      ground (
        arith,
        read_at_least_lem rtu_max_frame_size rtu_min_frame_size [] pieces,
        read_rest-Outcome (rtu_response_length codes request) head.bytes head.rest h',
        read_rest-Outcome rtu_exception_frame_size head.bytes head.rest h',
      )

  transmit-Outcome :
      (net : Network) (pieces : Conn) (h : Handler)
      → h.conn ≢ none
      → let r = transmit codes net request pieces h in Outcome codes request r.0 r.1
  unfolding transmit close_locked
  transmit-Outcome net pieces h open_conn =
      ground (arith, receive-Outcome pieces h, is_short-IsShort codes request)

  -- Every call of Send ends in a whole response or exception response of 4 to 256 bytes with the
  -- connection kept, a failed deadline with the connection kept, any other error with no connection
  -- left, or a panic: of the buffer's bound only if the computed length exceeds 256, and of an
  -- index past the end of the request only if the request has under 2 bytes, or under 6 and a
  -- function whose count is read.
  pub send-Outcome :
      (net : Network) (h : Handler)
      → let r = send codes net request h in Outcome codes request r.0 r.1
  unfolding send connect_locked
  send-Outcome net h = elim (Option-cases h.conn) [
    | inl closed ↦ elim (Option-cases net.dial) [
      | inl refused ↦ ground arith
      | inr (c, dialled) ↦ ground (arith, transmit-Outcome net c (record h { conn = some c }))
    ]
    | inr (pieces, opened) ↦ ground (arith, transmit-Outcome net pieces h)
  ]

-- For a request of at most 125 registers or bits Send never runs past its buffer, whatever the
-- network does.
pub send-ne-fault :
    (codes : FuncCodes) (request : List ℕ) (net : Network) (h : Handler)
    → request_count request ≤ 125
    → (send codes net request h).1 ≢ fault
send-ne-fault codes request net h small panics = absurd (
    omega (
      arith,
      rtu_response_length-le codes request small,
      rw panics at (send-Outcome codes request net h),
    ))
