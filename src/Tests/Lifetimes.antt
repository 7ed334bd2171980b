-- ===== src/Tests/Lifetimes.antt =====
-- Descriptors at the end of small lives: 0 to 2 are open, and 3 is a file.
use rabin_fingerprinting.Base.{◌≡◌, refl, [], ◌∷◌}
use rabin_fingerprinting.Descriptors.{
  Table, is_open, without, close_descriptor, open_socket, accept_client, disconnect_from_server,
  destroy, sessions,
}
use rabin_fingerprinting.Descriptors.Lifetimes.{server_lifetime, client_lifetime}

abbrev standard : Table
standard = 0 ∷ 1 ∷ 2 ∷ []

server_lifetime_example :
    (destroy
        (sessions (5 ∷ 6 ∷ []) (open_socket 4 0 standard).0 (open_socket 4 0 standard).1).0
        (sessions (5 ∷ 6 ∷ []) (open_socket 4 0 standard).0 (open_socket 4 0 standard).1).1
      ≡ standard)
    × (destroy
          (accept_client 5
            (sessions (6 ∷ []) (open_socket 4 0 standard).0 (open_socket 4 0 standard).1).0
            (sessions (6 ∷ []) (open_socket 4 0 standard).0 (open_socket 4 0 standard).1).1).0
          (accept_client 5
            (sessions (6 ∷ []) (open_socket 4 0 standard).0 (open_socket 4 0 standard).1).0
            (sessions (6 ∷ []) (open_socket 4 0 standard).0 (open_socket 4 0 standard).1).1).1
        ≡ standard)
unfolding is_open
server_lifetime_example = server_lifetime 4 0 5 5 (6 ∷ []) standard refl (refl, (refl, tt)) refl

client_lifetime_example :
    (destroy (open_socket 4 3 (3 ∷ standard)).0 (open_socket 4 3 (3 ∷ standard)).1
      ≡ without 3 (3 ∷ standard))
    × (destroy
          (open_socket 4 3 (3 ∷ standard)).0
          (disconnect_from_server
            (open_socket 4 3 (3 ∷ standard)).0
            (open_socket 4 3 (3 ∷ standard)).1).1
        ≡ without 3 (3 ∷ standard))
unfolding is_open
client_lifetime_example = client_lifetime 4 3 (3 ∷ standard) refl

-- The file is closed with the client.
file_lost : destroy (open_socket 4 3 (3 ∷ standard)).0 (open_socket 4 3 (3 ∷ standard)).1 ≡ standard
unfolding destroy open_socket close_descriptor is_open without
file_lost = refl
