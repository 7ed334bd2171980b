-- ===== src/Descriptors/Lifetimes.antt =====
-- Which descriptors are open at the end of a server's and of a client's life.
use rabin_fingerprinting.Base.{
  ℕ, ◌≡◌, refl, sym, ap, subst, ◌∙◌, Bool-cases, inl, inr, false, List, [], ◌∷◌, All, ◌||◌, ◌==◌,
  ==_refl,
}
use mathlib.Core.Bool.{true≢false}
use rabin_fingerprinting.Descriptors.{
  Table, is_open, without, close_descriptor, Descriptors, open_socket, accept_client,
  disconnect_from_client, disconnect_from_server, destroy, sessions,
}

-- A number that `socket` or `accept` may return.
abbrev pub IsFresh : Table → ℕ → Type 0
IsFresh table fd = is_open fd table ≡ false

without-IsFresh : (fd : ℕ) (table : Table) → IsFresh table fd → without fd table ≡ table
unfolding without is_open
without-IsFresh fd [] h = refl
without-IsFresh fd (x ∷ table) h = elim (Bool-cases (x == fd)) [
  | inl e ↦ absurd (true≢false (sym (ap (λ b. b || is_open fd table) e) ∙ h))
  | inr e ↦
      rw e (ap (◌∷◌ x) (without-IsFresh fd table (sym (ap (λ b. b || is_open fd table) e) ∙ h)))
]

without_new : (fd : ℕ) (table : Table) → IsFresh table fd → without fd (fd ∷ table) ≡ table
unfolding without
without_new fd table h = rw (==_refl fd) (without-IsFresh fd table h)

without_swap :
    (fd gd : ℕ) (table : Table) → without fd (without gd table) ≡ without gd (without fd table)
unfolding without
without_swap fd gd [] = refl
without_swap fd gd (x ∷ table) = elim (Bool-cases (x == fd)) [
  | inl e ↦ elim (Bool-cases (x == gd)) [
    | inl e' ↦ rw (e, e') (without_swap fd gd table)
    | inr e' ↦ rw (e, e') (rw e (without_swap fd gd table))
  ]
  | inr e ↦ elim (Bool-cases (x == gd)) [
    | inl e' ↦ rw (e, e') (without_swap fd gd table)
    | inr e' ↦ rw (e, e') (rw e (ap (◌∷◌ x) (without_swap fd gd table)))
  ]
]

-- Any close leaves what `without` leaves.
close-without : (fd : ℕ) (table : Table) → (close_descriptor fd table).1 ≡ without fd table
unfolding close_descriptor
close-without fd table = elim (Bool-cases (is_open fd table)) [
  | inl e ↦ rw e refl
  | inr e ↦ rw e (sym (without-IsFresh fd table e))
]

destroy-without :
    (r : Descriptors) (table : Table)
    → destroy r table ≡ without r.sockfd (without r.newsockfd table)
unfolding destroy
destroy-without r table =
    close-without r.sockfd (close_descriptor r.newsockfd table).1
    ∙ ap (without r.sockfd) (close-without r.newsockfd table)

-- A client whose constructor gets a new socket: its destructor, with or without
-- `disconnect_from_server` before it and nothing opened in between, closes that socket, and also the
-- descriptor whose number the field `newsockfd` happens to hold, which nothing sets.
pub client_lifetime :
    (socket unset : ℕ) (table : Table)
    → IsFresh table socket
    → (let made = open_socket socket unset table in
        (destroy made.0 made.1 ≡ without unset table)
        × (destroy made.0 (disconnect_from_server made.0 made.1).1 ≡ without unset table))
unfolding open_socket disconnect_from_server
client_lifetime socket unset table fresh =
    let made : Descriptors = record { sockfd = socket; newsockfd = unset } in
    (
      destroy-without made (socket ∷ table)
          ∙ (without_swap socket unset (socket ∷ table)
              ∙ ap (without unset) (without_new socket table fresh)),
      destroy-without made (close_descriptor socket (socket ∷ table)).1
          ∙ (ap (λ t. without socket (without unset t))
                (close-without socket (socket ∷ table) ∙ without_new socket table fresh)
              ∙ (without_swap socket unset table
                  ∙ ap (without unset) (without-IsFresh socket table fresh))),
    )

-- At the end of sessions from a state, the table is as it was and `newsockfd` is closed.
abbrev Ends : Table → ℕ → Descriptors × Table → Type 0
Ends table socket a = (a.1 ≡ table) × (a.0.sockfd ≡ socket) × IsFresh table a.0.newsockfd

sessions-IsFresh :
    (fds : List ℕ) (r : Descriptors) (table : Table)
    → All (IsFresh table) fds
    → IsFresh table r.newsockfd
    → Ends table r.sockfd (sessions fds r table)
unfolding sessions accept_client disconnect_from_client
sessions-IsFresh [] r table fresh h = (refl, refl, h)
sessions-IsFresh (fd ∷ fds) r table fresh h =
    let closed : (close_descriptor fd (fd ∷ table)).1 ≡ table =
      close-without fd (fd ∷ table) ∙ without_new fd table fresh.0 in
    subst (λ t. Ends table r.sockfd (sessions fds (record r { newsockfd = fd }) t)) (sym closed)
      (sessions-IsFresh fds (record r { newsockfd = fd }) table fresh.1 fresh.0)

sessions_some :
    (fd : ℕ) (fds : List ℕ) (r : Descriptors) (table : Table)
    → All (IsFresh table) (fd ∷ fds)
    → Ends table r.sockfd (sessions (fd ∷ fds) r table)
unfolding sessions accept_client
sessions_some fd fds r table fresh =
    sessions-IsFresh (fd ∷ fds) (record r { newsockfd = fd }) table fresh fresh.0

sessions_keep :
    (fds : List ℕ) (r : Descriptors) (table : Table)
    → All (IsFresh table) fds
    → ((sessions fds r table).1 ≡ table) × ((sessions fds r table).0.sockfd ≡ r.sockfd)
unfolding sessions
sessions_keep [] r table fresh = (refl, refl)
sessions_keep (fd ∷ fds) r table fresh =
    let (same, kept, _) = sessions_some fd fds r table fresh in (same, kept)

-- A server that ends with its listening socket and a closed or just accepted connection.
destroy_closed :
    (r : Descriptors) (socket : ℕ) (table : Table)
    → r.sockfd ≡ socket
    → IsFresh table socket
    → IsFresh (socket ∷ table) r.newsockfd
    → destroy r (socket ∷ table) ≡ table
destroy_closed r socket table e fresh closed =
    destroy-without r (socket ∷ table)
    ∙ (ap (without r.sockfd) (without-IsFresh r.newsockfd (socket ∷ table) closed)
        ∙ (ap (λ fd. without fd (socket ∷ table)) e ∙ without_new socket table fresh))

destroy_connected :
    (r : Descriptors) (socket : ℕ) (table : Table)
    → r.sockfd ≡ socket
    → IsFresh table socket
    → IsFresh (socket ∷ table) r.newsockfd
    → destroy r (r.newsockfd ∷ socket ∷ table) ≡ table
destroy_connected r socket table e fresh new =
    destroy-without r (r.newsockfd ∷ socket ∷ table)
    ∙ (ap (without r.sockfd) (without_new r.newsockfd (socket ∷ table) new)
        ∙ (ap (λ fd. without fd (socket ∷ table)) e ∙ without_new socket table fresh))

-- A server whose constructor gets a new socket, and whose sessions (`connect_to_client`, then
-- `disconnect_from_client`) get descriptors that are not open, nothing else being opened or closed:
-- the destructor after one or more sessions, and the destructor within a session after any number of
-- ended ones, leave exactly the descriptors that were open before the constructor.
pub server_lifetime :
    (socket unset fd last : ℕ) (fds : List ℕ) (table : Table)
    → IsFresh table socket
    → All (IsFresh (socket ∷ table)) (fd ∷ fds)
    → IsFresh (socket ∷ table) last
    → (let made = open_socket socket unset table in
        let ended = sessions (fd ∷ fds) made.0 made.1 in
        let before = sessions fds made.0 made.1 in
        let within = accept_client last before.0 before.1 in
        (destroy ended.0 ended.1 ≡ table) × (destroy within.0 within.1 ≡ table))
unfolding open_socket accept_client
server_lifetime socket unset fd last fds table fresh accepted new =
    let made : Descriptors = record { sockfd = socket; newsockfd = unset } in
    let opened : Table = socket ∷ table in
    let (same, kept, closed) = sessions_some fd fds made opened accepted in
    let (same', kept') = sessions_keep fds made opened accepted.1 in
    let ended = sessions (fd ∷ fds) made opened in
    let before = sessions fds made opened in
    let within : Descriptors = record before.0 { newsockfd = last } in
    (
      ap (destroy ended.0) same ∙ destroy_closed ended.0 socket table kept fresh closed,
      ap (λ t. destroy within (last ∷ t)) same'
          ∙ destroy_connected within socket table kept' fresh new,
    )
