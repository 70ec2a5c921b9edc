-- ===== src/Rtu/Client.antt =====
-- The connection in internal/modbus/rtu_tcp.go: `Connect`, `Close`, `Send` and `rtuResponseLength`.
-- The network is a parameter: what dialling gives, whether the deadline and the write succeed, and
-- the pieces in which the bytes of a connection arrive.
use srne_inverter_to_mqtt.Base.{
  ℕ, ◌+◌, ◌-◌, ◌*◌, ◌/◌, ◌%◌, bit_or, String, Bool, true, false, not, ◌&&◌, ◌||◌, Option, none,
  some, List, [], ◌∷◌, ◌++◌, length, get_or, take, drop, ◌==◌, ltb, leb, if◌then◌else◌,
}
use srne_inverter_to_mqtt.Rtu.Frame.{
  rtu_min_frame_size, rtu_max_frame_size, rtu_exception_frame_size,
}

-- The function codes of gomodbus that `rtuResponseLength` names.
pub record FuncCodes : Type 0 where
  pub read_discrete_inputs : ℕ
  pub read_coils : ℕ
  pub read_input_registers : ℕ
  pub read_holding_registers : ℕ
  pub read_write_multiple_registers : ℕ
  pub write_single_coil : ℕ
  pub write_multiple_coils : ℕ
  pub write_single_register : ℕ
  pub write_multiple_registers : ℕ
  pub mask_write_register : ℕ

-- `binary.BigEndian.Uint16(request[4:])`, of a request that is not short.
abbrev pub request_count : List ℕ → ℕ
request_count request = get_or request 4 0 * 256 + get_or request 5 0

-- The functions for which `rtuResponseLength` reads the count of the request.
unfoldable pub reads_count : FuncCodes → ℕ → Bool
reads_count codes function =
    (function == codes.read_discrete_inputs)
    || (function == codes.read_coils)
    || (function == codes.read_input_registers)
    || (function == codes.read_holding_registers)
    || (function == codes.read_write_multiple_registers)

-- The requests on which `rtuResponseLength` panics: `request[1]` or the count is past the end.
unfoldable pub is_short : FuncCodes → List ℕ → Bool
is_short codes request =
    ltb (length request) 2 || (reads_count codes (get_or request 1 0) && ltb (length request) 6)

-- Of a request that is not short.
unfoldable pub rtu_response_length : FuncCodes → List ℕ → ℕ
rtu_response_length codes request =
    let function = get_or request 1 0 in
    let count = request_count request in
    if function == codes.read_discrete_inputs || function == codes.read_coils
    then rtu_min_frame_size + (1 + count / 8) + (if count % 8 == 0 then 0 else 1)
    else if function == codes.read_input_registers
        || function == codes.read_holding_registers
        || function == codes.read_write_multiple_registers
    then rtu_min_frame_size + (1 + count * 2)
    else if function == codes.write_single_coil
        || function == codes.write_multiple_coils
        || function == codes.write_single_register
        || function == codes.write_multiple_registers
    then rtu_min_frame_size + 4
    else if function == codes.mask_write_register
    then rtu_min_frame_size + 6
    else rtu_min_frame_size

-- A connection is the pieces that successive calls of `Read` will find; when they are used up, `Read` fails.
abbrev pub Conn : Type 0
Conn = List (List ℕ)

-- What the network does during one call of `Send`.
pub record Network : Type 0 where
  pub dial : Option Conn
  pub deadline_set : Bool
  pub written : Bool

pub record Handler : Type 0 where
  pub address : String
  pub slave_id : ℕ
  pub timeout : ℕ
  pub conn : Option Conn

unfoldable pub new_handler : String → ℕ → ℕ → Handler
new_handler address slave_id timeout = record {
  address = address;
  slave_id = slave_id;
  timeout = timeout;
  conn = none;
}

pub data SendError : Type 0 where
  dial_failed deadline_failed write_failed read_failed : SendError
  unexpected_function : ℕ → ℕ → SendError

-- `fault` is the panic of a slice bound beyond the 256 bytes of the buffer, `short_request` the
-- panic of an index past the end of the request.
pub data SendResult : Type 0 where
  response : List ℕ → SendResult
  failed : SendError → SendResult
  fault short_request : SendResult

-- `connectLocked`: false when dialling failed.
unfoldable pub connect_locked : Network → Handler → Handler × Bool
connect_locked net h = elim h.conn [
  | some c ↦ (h, true)
  | none ↦ elim net.dial [ none ↦ (h, false) | some c ↦ (record h { conn = some c }, true) ]
]

unfoldable pub close_locked : Handler → Handler
close_locked h = record h { conn = none }

pub record Reading : Type 0 where
  pub bytes : List ℕ
  pub rest : Conn
  pub complete : Bool

-- `io.ReadAtLeast` into a buffer of `size` bytes that holds `got` already.
unfoldable pub read_at_least : ℕ → ℕ → List ℕ → Conn → Reading
read_at_least size least got [] = record {
  bytes = got;
  rest = [];
  complete = leb least (length got);
}
read_at_least size least got (piece ∷ pieces) =
    let more = read_at_least size least (got ++ piece) pieces in
    let room = size - length got in
    if leb least (length got)
    then record { bytes = got; rest = piece ∷ pieces; complete = true }
    else if leb (length piece) room
    then more
    else record {
      bytes = got ++ take room piece;
      rest = drop room piece ∷ pieces;
      complete = leb least size;
    }

-- The rest of a response of `wanted` bytes, after the bytes `got`.
unfoldable pub read_rest : ℕ → List ℕ → Conn → Handler → Handler × SendResult
read_rest wanted got pieces h =
    let tail = read_at_least (wanted - length got) (wanted - length got) [] pieces in
    let h' = record h { conn = some tail.rest } in
    if not (ltb (length got) wanted)
    then (record h { conn = some pieces }, response got)
    else if ltb rtu_max_frame_size wanted
    then (h, fault)
    else if tail.complete
    then (h', response (got ++ tail.bytes))
    else (close_locked h', failed read_failed)

-- `Send` after the request was written.
unfoldable pub receive : FuncCodes → List ℕ → Conn → Handler → Handler × SendResult
receive codes request pieces h =
    let head = read_at_least rtu_max_frame_size rtu_min_frame_size [] pieces in
    let function = get_or request 1 0 in
    let answered = get_or head.bytes 1 0 in
    let h' = record h { conn = some head.rest } in
    if not head.complete
    then (close_locked h', failed read_failed)
    else if answered == function
    then read_rest (rtu_response_length codes request) head.bytes head.rest h'
    else if answered == bit_or function 0x80
    then read_rest rtu_exception_frame_size head.bytes head.rest h'
    else (close_locked h', failed (unexpected_function answered function))

-- `Send` with an open connection.
unfoldable pub transmit : FuncCodes → Network → List ℕ → Conn → Handler → Handler × SendResult
transmit codes net request pieces h =
    if ltb 0 h.timeout && not net.deadline_set
    then (h, failed deadline_failed)
    else if not net.written
    then (close_locked h, failed write_failed)
    else if is_short codes request
    then (h, short_request)
    else receive codes request pieces h

unfoldable pub send : FuncCodes → Network → List ℕ → Handler → Handler × SendResult
send codes net request h =
    let (h', connected) = connect_locked net h in
    if not connected then (h', failed dial_failed) else elim h'.conn [
      | none ↦ (h', failed dial_failed)
      | some pieces ↦ transmit codes net request pieces h'
    ]
