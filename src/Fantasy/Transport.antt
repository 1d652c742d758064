-- ===== src/Fantasy/Transport.antt =====
-- What a transport adds to the message format. Each build links one `serialize_contact` and one
-- `deserialize_contact`, from TPE1/src/transport/<name>/<name>_contact_serialization.c.
pub mod Laws
use so_tpe.Prelude.{ℕ, ◌+◌, ◌*◌, Option, none, some, List, ◌>>=◌, length}
use so_tpe.Fantasy.Wire.{
  int_size, Buffer, put_size, put_int, put_string, get_int, get_string, strcpy_into,
}

-- What a contact message uses: members of the union `data`, or the field `pidFrom` beside it.
pub data Contact : Type 0 where
  nothing : Contact
  client_pid : ℕ → Contact
  pid_from : ℕ → Contact
  tempnam : List ℕ → Contact

-- The pair of functions that a build links.
pub record Transport : Type 0 where
  pub serialize_contact : ℕ → Contact → Option Buffer
  pub deserialize_contact : List ℕ → Option Contact

-- Shared memory: a contact message is its tag. The union is not read.
unfoldable pub shmm_serialize_contact : ℕ → Contact → Option Buffer
shmm_serialize_contact type c = do
  let msg_size = int_size
  msg ← put_size msg_size
  put_int type msg

unfoldable pub shmm_deserialize_contact : List ℕ → Option Contact
shmm_deserialize_contact stream = some nothing

abbrev pub shmm : Transport
shmm = record {
  serialize_contact = shmm_serialize_contact;
  deserialize_contact = shmm_deserialize_contact;
}

-- Sockets: the process id of the client. Another member of the union is not defined there.
unfoldable pub socket_serialize_contact : ℕ → Contact → Option Buffer
socket_serialize_contact type (client_pid pid) = do
  let msg_size = 2 * int_size
  msg ← put_size msg_size
  msg ← put_int type msg
  put_int pid msg
socket_serialize_contact type _ = none

unfoldable pub socket_deserialize_contact : List ℕ → Option Contact
socket_deserialize_contact stream = do pid ← get_int stream; some (client_pid pid)

abbrev pub sockets : Transport
sockets = record {
  serialize_contact = socket_serialize_contact;
  deserialize_contact = socket_deserialize_contact;
}

-- Message queues: `pidFrom`. The allocation is `calloc`, and every byte of it is written.
unfoldable pub mq_serialize_contact : ℕ → Contact → Option Buffer
mq_serialize_contact type (pid_from pid) = do
  let msg_size = 2 * int_size
  msg ← put_size msg_size
  msg ← put_int type msg
  put_int pid msg
mq_serialize_contact type _ = none

unfoldable pub mq_deserialize_contact : List ℕ → Option Contact
mq_deserialize_contact stream = do pid ← get_int stream; some (pid_from pid)

abbrev pub queues : Transport
queues = record {
  serialize_contact = mq_serialize_contact;
  deserialize_contact = mq_deserialize_contact;
}

-- Named pipes: the name of the client's pipe.
unfoldable pub fifo_serialize_contact : ℕ → Contact → Option Buffer
fifo_serialize_contact type (tempnam name) = do
  let tempnam_size = length name + 1
  let msg_size = int_size + tempnam_size
  msg ← put_size msg_size
  msg ← put_int type msg
  put_string name msg
fifo_serialize_contact type _ = none

-- The allocation is `strlen`, with no place for the NUL.
unfoldable pub fifo_deserialize_contact : List ℕ → Option Contact
fifo_deserialize_contact stream = do
  source ← get_string stream
  name ← strcpy_into (length source) source
  some (tempnam name)

abbrev pub fifos : Transport
fifos = record {
  serialize_contact = fifo_serialize_contact;
  deserialize_contact = fifo_deserialize_contact;
}
