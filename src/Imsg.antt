-- ===== src/Imsg.antt =====
-- pkg/imsg/imsg.go: frames of one version byte, a big-endian uint16 type, a big-endian uint32 length
-- and the payload. A reader is the bytes that it will deliver before its end; a writer is the bytes
-- that it holds and the number of bytes that it still takes.
pub mod Decode
pub mod Encode
use agmux.Base.{
  ℕ, zero, suc, ◌+◌, ◌-◌, ◌*◌, ◌/◌, ◌%◌, ◌^◌, ◌≡◌, refl, [], ◌∷◌, ◌++◌, Option, none, some, Bytes,
  codes, ◌==◌, ltb, Bool, true, false, not, if◌then◌else◌, length,
}

abbrev pub version_number : ℕ
version_number = 1

abbrev pub header_size : ℕ
header_size = 7

abbrev pub max_payload_size : ℕ
max_payload_size = 4 * 1024 * 1024

pub record Imsg : Type 0 where
  pub version : ℕ
  pub msg_type : ℕ
  pub payload : Bytes

pub data ReadError : Type 0 where
  short_header short_payload : ReadError
  unsupported_version too_large : ℕ → ReadError

pub data ReadResult : Type 0 where
  ok : Imsg → Bytes → ReadResult
  err : ReadError → ReadResult

-- io.ReadFull: exactly `n` bytes, or an error.
unfoldable pub read_full : ℕ → Bytes → Option (Bytes × Bytes)
read_full zero r = some ([], r)
read_full (suc n) [] = none
read_full (suc n) (c ∷ r) = elim (read_full n r) [
  | none ↦ none
  | some (got, rest) ↦ some (c ∷ got, rest)
]

-- binary.BigEndian.Uint16 and Uint32
unfoldable pub uint16 : ℕ → ℕ → ℕ
uint16 a b = a * 256 + b

unfoldable pub uint32 : ℕ → ℕ → ℕ → ℕ → ℕ
uint32 a b c d = ((a * 256 + b) * 256 + c) * 256 + d

-- binary.BigEndian.PutUint16 and PutUint32
unfoldable pub put_uint16 : ℕ → Bytes
put_uint16 n = (n / 256 % 256) ∷ (n % 256) ∷ []

unfoldable pub put_uint32 : ℕ → Bytes
put_uint32 n = (n / 16777216 % 256) ∷ (n / 65536 % 256) ∷ (n / 256 % 256) ∷ (n % 256) ∷ []

unfoldable pub finish_read : ℕ → ℕ → Option (Bytes × Bytes) → ReadResult
finish_read version msg_type none = err short_payload
finish_read version msg_type (some (payload, rest)) =
    ok (record { version = version; msg_type = msg_type; payload = payload }) rest

-- The checks on the header, in the order of the code.
unfoldable pub read_payload : Bytes → Bytes → ReadResult
read_payload (v ∷ t1 ∷ t2 ∷ l1 ∷ l2 ∷ l3 ∷ l4 ∷ []) r =
    if not (v == version_number)
    then err (unsupported_version v)
    else if ltb max_payload_size (uint32 l1 l2 l3 l4)
    then err (too_large (uint32 l1 l2 l3 l4))
    else finish_read v (uint16 t1 t2) (read_full (uint32 l1 l2 l3 l4) r)
read_payload header r = err short_header

-- ReadMessage
unfoldable pub read_message : Bytes → ReadResult
unfolding read_full read_payload
read_message r = elim (read_full header_size r) [
  | none ↦ err short_header
  | some (header, rest) ↦ read_payload header rest
]

pub record Writer : Type 0 where
  pub out : Bytes
  pub room : ℕ

pub data WriteError : Type 0 where
  payload_too_large : ℕ → WriteError
  header_failed payload_failed : WriteError

-- w.Write: a failed write leaves what fitted.
unfoldable pub write_some : Bytes → ℕ → Bytes
write_some [] n = []
write_some (c ∷ p) zero = []
write_some (c ∷ p) (suc n) = c ∷ write_some p n

unfoldable pub write : Writer → Bytes → Writer × Bool
unfolding write_some
write w p = (
  record { out = w.out ++ write_some p w.room; room = w.room - length p },
  not (ltb w.room (length p)),
)

unfoldable pub header_of : Imsg → Bytes
unfolding put_uint16 put_uint32
header_of m = m.version ∷ (put_uint16 m.msg_type ++ put_uint32 (length m.payload % 2 ^ 32))

-- The second write, which an empty payload skips.
unfoldable pub write_body : Imsg → Writer × Bool → Writer × Option WriteError
write_body m (w, false) = (w, some header_failed)
write_body m (w, true) =
    if ltb 0 (length m.payload)
    then (let (w', done) = write w m.payload in (w', if done then none else some payload_failed))
    else (w, none)

-- WriteMessage
unfoldable pub write_message : Writer → Imsg → Writer × Option WriteError
unfolding write_body header_of
write_message w m =
    if ltb max_payload_size (length m.payload)
    then (w, some (payload_too_large (length m.payload)))
    else write_body m (write w (header_of m))

-- NewImsg
unfoldable pub new_imsg : ℕ → Bytes → Imsg
new_imsg msg_type payload = record {
  version = version_number;
  msg_type = msg_type;
  payload = payload;
}
