-- ===== src/Client.antt =====
-- daemon/client.hpp: when the client object of a connection closes itself. `is_reading` says that
-- the reader has not ended, `n_writes` how many messages were given to the writer and did not
-- complete, `n_closed` how often `close_self` was called.
use partake.Prelude.{ℕ, ◌+◌, ◌-◌, ◌<◌, ◌≡◌, Bool, true, false, ◌==◌, if◌then◌else◌, arith, hit}

pub record Client : Type 0 where
  pub io_refcount : ℕ
  pub is_reading : Bool
  pub n_writes : ℕ
  pub n_closed : ℕ

abbrev pub new_client : Client
new_client = record { io_refcount = 0; is_reading = false; n_writes = 0; n_closed = 0 }

unfoldable increment_io_refcount : Client → Client
increment_io_refcount c = record c { io_refcount = c.io_refcount + 1 }

unfoldable decrement_io_refcount : Client → Client
decrement_io_refcount c =
    let c' = record c { io_refcount = c.io_refcount - 1 } in
    if c'.io_refcount == 0 then record c' { n_closed = c'.n_closed + 1 } else c'

unfoldable pub start : Client → Client
unfolding increment_io_refcount
start c = increment_io_refcount (record c { is_reading = true })

-- `write_resp`: a message is given to the writer.
unfoldable pub write_response : Client → Client
unfolding increment_io_refcount
write_response c = increment_io_refcount (record c { n_writes = c.n_writes + 1 })

-- The completion handler of the writer, and the end handler of the reader.
unfoldable pub on_write_complete : Client → Client
unfolding decrement_io_refcount
on_write_complete c = decrement_io_refcount (record c { n_writes = c.n_writes - 1 })

unfoldable pub on_end_of_read : Client → Client
unfolding decrement_io_refcount
on_end_of_read c = decrement_io_refcount (record c { is_reading = false })

-- What happens to a client. A response may be written as long as an operation is in flight: in the
-- handler of a read, and when a request of another client resumes one of this client's.
pub data Reach : Client → Type 0 where
  started : Reach (start new_client)
  responded : {c : Client} → Reach c → 0 < c.io_refcount → Reach (write_response c)
  completed : {c : Client} → Reach c → 0 < c.n_writes → Reach (on_write_complete c)
  ended : {c : Client} → Reach c → c.is_reading ≡ true → Reach (on_end_of_read c)

-- The count is that of the operations in flight, the reader and each message given to the writer;
-- and the client has closed itself once if there are none, else never.
pub Reach-closed :
    {c : Client}
    → Reach c
    → (c.io_refcount ≡ hit c.is_reading + c.n_writes) × (c.n_closed ≡ hit (c.io_refcount == 0))
unfolding start write_response on_write_complete on_end_of_read increment_io_refcount
    decrement_io_refcount
Reach-closed started = (omega arith, ground arith)
Reach-closed (responded r e) = let (h, k) = Reach-closed r in ground (arith, h, k, e)
Reach-closed (completed r e) = let (h, k) = Reach-closed r in ground (arith, h, k, e)
Reach-closed (ended r e) = let (h, k) = Reach-closed r in ground (arith, h, k, e)
