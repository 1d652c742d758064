-- ===== src/Fantasy/Transport/Laws.antt =====
-- Which contact messages each transport carries.
use so_tpe.Prelude.{ℕ, ◌<◌, ◌≡◌, refl, length-append, none, some, List, [], ◌++◌, arith}
use so_tpe.Fantasy.Transport.{
  Contact, nothing, client_pid, pid_from, Transport, shmm, sockets, queues, mq_serialize_contact,
  mq_deserialize_contact, shmm_serialize_contact, shmm_deserialize_contact,
  socket_serialize_contact, socket_deserialize_contact, fifo_deserialize_contact,
}
use so_tpe.Fantasy.Wire.{
  int_mod, int_bytes, get_int-int_bytes, strcpy_into, put_size, put_int, length-int_bytes,
}
use so_tpe.Fantasy.Wire.Frame.{framed, put_int-Writes, Writes-append, Writes-framed}

-- The transport sends `c` as `data_bytes` behind the tag, and reads it back.
pub record Carries (t : Transport) (c : Contact) : Type 0 where
  pub data_bytes : List ℕ
  pub sent : (type : ℕ) → t.serialize_contact type c ≡ some (framed (int_bytes type ++ data_bytes))
  pub received : (rest : List ℕ) → t.deserialize_contact (data_bytes ++ rest) ≡ some c

pub shmm-Carries : Carries shmm nothing
unfolding shmm_serialize_contact shmm_deserialize_contact put_size put_int int_bytes
shmm-Carries = record { data_bytes = []; sent = λ type. refl; received = λ rest. refl }

pub sockets-Carries : (pid : ℕ) → pid < int_mod → Carries sockets (client_pid pid)
unfolding socket_serialize_contact socket_deserialize_contact
sockets-Carries pid h = record {
  data_bytes = int_bytes pid;
  sent = λ type.
      Writes-framed _
        (omega (
          arith,
          length-append (int_bytes type) (int_bytes pid),
          length-int_bytes type,
          length-int_bytes pid,
        ))
        (omega (
          arith,
          length-append (int_bytes type) (int_bytes pid),
          length-int_bytes type,
          length-int_bytes pid,
        ))
        (Writes-append (put_int-Writes type) (put_int-Writes pid));
  received = λ rest. rw (get_int-int_bytes pid rest h);
}

pub queues-Carries : (pid : ℕ) → pid < int_mod → Carries queues (pid_from pid)
unfolding mq_serialize_contact mq_deserialize_contact
queues-Carries pid h = record {
  data_bytes = int_bytes pid;
  sent = λ type.
      Writes-framed _
        (omega (
          arith,
          length-append (int_bytes type) (int_bytes pid),
          length-int_bytes type,
          length-int_bytes pid,
        ))
        (omega (
          arith,
          length-append (int_bytes type) (int_bytes pid),
          length-int_bytes type,
          length-int_bytes pid,
        ))
        (Writes-append (put_int-Writes type) (put_int-Writes pid));
  received = λ rest. rw (get_int-int_bytes pid rest h);
}

-- The contact messages that a transport sends and reads: none but these. Named pipes read none.
pub data Carried : Transport → Contact → Type 0 where
  over_shmm : Carried shmm nothing
  over_sockets : (pid : ℕ) → pid < int_mod → Carried sockets (client_pid pid)
  over_queues : (pid : ℕ) → pid < int_mod → Carried queues (pid_from pid)

pub carried : {t : Transport} {c : Contact} → Carried t c → Carries t c
carried Carried.over_shmm = shmm-Carries
carried (Carried.over_sockets pid h) = sockets-Carries pid h
carried (Carried.over_queues pid h) = queues-Carries pid h

-- Over named pipes the allocation for a contact message overflows, whatever the stream holds.
pub fifos_overflow : (stream : List ℕ) → fifo_deserialize_contact stream ≡ none
unfolding fifo_deserialize_contact strcpy_into
fifos_overflow stream = ground arith
