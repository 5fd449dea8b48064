-- ===== src/Broker/Network.antt =====
-- One round trip from the client to the server, and how it may fail.
use mini_sidekiq.Prelude.{◌≡◌, refl, ◌⊎◌, inl, inr, List, [], ◌∷◌, ◌≢◌}
use mini_sidekiq.Exec.{Exec, Result, ok, err, network}

-- `lost_reply`: the server has run the request, and the client sees an error all the same.
pub data Fault : Type 0 where
  delivered lost_request lost_reply : Fault

-- `faults` is what will happen to the next round trips; all is well when the list has run out.
pub record World (Db : Type 0) : Type 0 where
  pub db : Db
  pub faults : List Fault

-- Nothing goes wrong.
abbrev pub calm : {Db : Type 0} → Db → World Db
calm db = record { db = db; faults = [] }

abbrev pub next_fault : List Fault → Fault
next_fault [] = delivered
next_fault (f ∷ fs) = f

abbrev pub later_faults : List Fault → List Fault
later_faults [] = []
later_faults (f ∷ fs) = fs

module _ {Db A : Type 0} where
  abbrev pub transmit : Fault → Exec Db A → Db → Result A × Db
  transmit delivered request db = request db
  transmit lost_request request db = (err network, db)
  transmit lost_reply request db = (err network, (request db).1)

  unfoldable pub send : Exec Db A → Exec (World Db) A
  send request w =
      let (r, db') = transmit (next_fault w.faults) request w.db in
      (r, record { db = db'; faults = later_faults w.faults })

abbrev pub first_error : Result (Unit {0}) → Result (Unit {0}) → Result (Unit {0})
first_error (ok _) later = later
first_error (err e) later = err e

-- A pipeline: the commands are written one after the other, and their replies are read afterwards.
-- Each runs whatever the others reply; a connection that breaks cuts the rest off, or only the
-- replies get lost, while the server may run the rest.
module _ {Db : Type 0} where
  abbrev pub pipelined :
      Fault → Exec Db (Unit {0}) → Exec (World Db) (Unit {0}) → Exec (World Db) (Unit {0})
  pipelined delivered command rest w =
      let (reply, db') = command w.db in
      let (later, w') = rest (record { db = db'; faults = later_faults w.faults }) in
      (first_error reply later, w')
  pipelined lost_request command rest w =
      (err network, record { db = w.db; faults = later_faults w.faults })
  pipelined lost_reply command rest w =
      let (reply, db') = command w.db in
      (err network, (rest (record { db = db'; faults = later_faults w.faults })).1)

  -- The result is the first error.
  unfoldable pub pipeline : List (Exec Db (Unit {0})) → Exec (World Db) (Unit {0})
  pipeline [] w = (ok tt, w)
  pipeline (command ∷ commands) w = pipelined (next_fault w.faults) command (pipeline commands) w

module _ {S A : Type 0} where
  -- `if err := f(); err != nil` with a branch of its own
  abbrev pub attempt : Exec S A → Exec S (Result A)
  attempt m s = let (r, s') = m s in (ok r, s')

-- A round trip is answered, or it fails before or after the server has run the request.
module _ {Db A : Type 0} (request : Exec Db A) (world : World Db) (a : A) (db' : Db) where
  abbrev after_send : Db → World Db
  after_send db = record { db = db; faults = later_faults world.faults }

  abbrev pub Sent : Type 0
  Sent =
      (send request world ≡ (ok a, after_send db'))
      ⊎ (send request world ≡ (err network, after_send world.db))
      ⊎ (send request world ≡ (err network, after_send db'))

  sent_by : (f : Fault) → next_fault world.faults ≡ f → request world.db ≡ (ok a, db') → Sent
  unfolding send
  sent_by delivered h e = inl (rw (h, e))
  sent_by lost_request h e = inr (inl (rw h))
  sent_by lost_reply h e = inr (inr (rw (h, e)))

  pub send_cases : request world.db ≡ (ok a, db') → Sent
  send_cases e = sent_by (next_fault world.faults) refl e

  -- A request that only reads is answered, or it fails, which takes a fault.
  abbrev pub Read : Type 0
  Read =
      (send request world ≡ (ok a, after_send world.db))
      ⊎ ((send request world ≡ (err network, after_send world.db)) × (world.faults ≢ []))

  read_by : (fs : List Fault) → world.faults ≡ fs → request world.db ≡ (ok a, world.db) → Read
  unfolding send
  read_by [] h e = inl (rw (h, e) refl)
  read_by (delivered ∷ fs) h e = inl (rw (h, e) refl)
  read_by (lost_request ∷ fs) h e = inr (rw h refl, λ n. cc)
  read_by (lost_reply ∷ fs) h e = inr (rw (h, e) refl, λ n. cc)

  pub read_cases : request world.db ≡ (ok a, world.db) → Read
  read_cases e = read_by world.faults refl e

pub later_faults-ne : (fs : List Fault) → later_faults fs ≢ [] → fs ≢ []
later_faults-ne [] h e = h refl
later_faults-ne (f ∷ fs) h e = cc

-- The same for a request that may fail on the server.
module _ {Db A : Type 0} (request : Exec Db A) (world : World Db) (r : Result A) (db' : Db) where
  abbrev later_world : Db → World Db
  later_world db = record { db = db; faults = later_faults world.faults }

  abbrev pub SentAny : Type 0
  SentAny =
      (send request world ≡ (r, later_world db'))
      ⊎ ((world.faults ≢ []) × (send request world ≡ (err network, later_world world.db)))
      ⊎ ((world.faults ≢ []) × (send request world ≡ (err network, later_world db')))

  sent_any_by : (fs : List Fault) → world.faults ≡ fs → request world.db ≡ (r, db') → SentAny
  unfolding send
  sent_any_by [] h e = inl (rw (h, e) refl)
  sent_any_by (delivered ∷ fs) h e = inl (rw (h, e) refl)
  sent_any_by (lost_request ∷ fs) h e = inr (inl (λ n. cc, rw h refl))
  sent_any_by (lost_reply ∷ fs) h e = inr (inr (λ n. cc, rw (h, e) refl))

  pub send_any_cases : request world.db ≡ (r, db') → SentAny
  send_any_cases e = sent_any_by world.faults refl e
