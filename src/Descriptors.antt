-- ===== src/Descriptors.antt =====
-- The descriptors that a RabinServer and a RabinClient open and close, from the constructor to the
-- destructor (Server/rabinserver.cc, Client/rabinclient.cc). Which numbers the system hands out, and
-- what stands in a field before it is set, are arguments.
pub mod Files
pub mod Lifetimes
use rabin_fingerprinting.Base.{
  ℕ, Bool, true, false, List, [], ◌∷◌, ◌||◌, ◌==◌, if◌then◌else◌, ℤ, pos, negsuc,
}

-- The descriptors that the process has open.
abbrev pub Table : Type 0
Table = List ℕ

unfoldable pub is_open : ℕ → Table → Bool
is_open fd [] = false
is_open fd (x ∷ table) = x == fd || is_open fd table

unfoldable pub without : ℕ → Table → Table
without fd [] = []
without fd (x ∷ table) = let rest : Table = without fd table in if x == fd then rest else x ∷ rest

-- `close`: -1 for a descriptor that is not open.
unfoldable pub close_descriptor : ℕ → Table → ℤ × Table
close_descriptor fd table =
    if is_open fd table then (pos 0, without fd table) else (negsuc 0, table)

-- The fields for descriptors, which both classes have.
pub record Descriptors : Type 0 where
  pub sockfd : ℕ
  pub newsockfd : ℕ

-- Both constructors set `sockfd` to a new socket, and leave `newsockfd` as it is.
unfoldable pub open_socket : ℕ → ℕ → Table → Descriptors × Table
open_socket socket unset table = (record { sockfd = socket; newsockfd = unset }, socket ∷ table)

-- `connect_to_client`, where `accept` returned a descriptor. The one before it is not closed.
unfoldable pub accept_client : ℕ → Descriptors → Table → Descriptors × Table
accept_client accepted r table = (record r { newsockfd = accepted }, accepted ∷ table)

unfoldable pub disconnect_from_client : Descriptors → Table → ℤ × Table
disconnect_from_client r table = close_descriptor r.newsockfd table

unfoldable pub disconnect_from_server : Descriptors → Table → ℤ × Table
disconnect_from_server c table = close_descriptor c.sockfd table

-- Both destructors.
unfoldable pub destroy : Descriptors → Table → Table
destroy r table = (close_descriptor r.sockfd (close_descriptor r.newsockfd table).1).1

-- `connect_to_client`, files, and `disconnect_from_client`, once for every descriptor of the list.
unfoldable pub sessions : List ℕ → Descriptors → Table → Descriptors × Table
sessions [] r table = (r, table)
sessions (fd ∷ fds) r table =
    let a : Descriptors × Table = accept_client fd r table in
    sessions fds a.0 (disconnect_from_client a.0 a.1).1
