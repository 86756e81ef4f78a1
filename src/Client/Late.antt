-- ===== src/Client/Late.antt =====
-- A response that arrives after its call has timed out.
use zbc_go.Common.{ℕ, ◌≡◌, refl, ==_iff}
use zbc_go.Sbe.MessageHeader.{MessageHeader}
use zbc_go.Message.{Sbe}
use zbc_go.Client.{Table, nil_channel, put, delete}
use zbc_go.Client.Steps.{Steps}

pub delete-eq : (id : ℕ) (table : Table) → delete id table id ≡ nil_channel
unfolding delete put
delete-eq id table = rw ((==_iff id id).1 refl)
