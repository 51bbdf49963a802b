-- ===== src/Telephony/Lifetime.antt =====
-- The life of the client object (tel_test/AppClient.cpp, tel_test/ls_telephony_util.cpp):
-- registrations, their ends and deaths of the service, in any order.
use multi_test.Prelude.{
  ℕ, ◌+◌, Bool, true, false, ◌&&◌, List, [], ◌∷◌, Option, none, some, ◌≡◌, refl, arith,
  if◌then◌else◌, Bool-cases,
}
use multi_test.Prelude.Fault.{◌>>=◌}
use multi_test.Telephony.Memory.{Statics}
use multi_test.Telephony.Client.{
  Phone, find_service, service_tries, add_client, app_client, get_instance,
  register_client_callback, register_client, de_register_client, reconnect_phone_service, unused,
}

module _ {S : Type 0} where
  -- `getInstance()->reconnectPhoneService()`; its value is not used.
  unfoldable pub reconnect_thread : (ℕ → Bool) → Phone S → Option (Phone S)
  unfolding get_instance reconnect_phone_service
  reconnect_thread answers w =
      reconnect_phone_service answers (get_instance answers w) >>= λ (w', found). some w'

  -- The death of the service, up to the end of the thread that `binderDied` starts. The binder tells it
  -- to a recipient that is linked and not deleted.
  unfoldable pub binder_died : (ℕ → Bool) → Phone S → Option (Phone S)
  unfolding reconnect_thread
  binder_died answers w = if w.live && w.is_serviceready then reconnect_thread answers w else some w

-- The flag of a registration is whether its table of callbacks is not NULL.
pub data ClientMove : Type 0 where
  registers : (ℕ → Bool) → Bool → ClientMove
  ends : ClientMove
  dies : (ℕ → Bool) → ClientMove

module _ {S : Type 0} where
  unfoldable pub client_move : ClientMove → Phone S → Option (Phone S)
  unfolding register_client de_register_client binder_died
  client_move (registers answers callbacks) w = register_client answers callbacks w
  client_move ends w = de_register_client w
  client_move (dies answers) w = binder_died answers w

  unfoldable pub client_moves : List ClientMove → Phone S → Option (Phone S)
  unfolding client_move
  client_moves [] w = some w
  client_moves (m ∷ ms) w = client_move m w >>= client_moves ms

-- The specification: no object, one that is ready or not, with its callbacks or without and with the
-- number of times that it was added to the service, or a deleted one.
pub data Life : Type 0 where
  unborn : Life
  alive : Bool → Bool → ℕ → Life
  deleted : Life

-- The object that a search for the service leaves.
abbrev pub searched : (ℕ → Bool) → Bool → ℕ → Life
searched answers callbacks n =
    if find_service answers service_tries
    then alive true callbacks (n + 1)
    else alive false callbacks n

-- None is the use of the deleted object.
abbrev pub live_on : ClientMove → Life → Option Life
live_on (registers answers callbacks) unborn = some (searched answers callbacks 0)
live_on (registers answers callbacks) (alive r c n) = some (alive r c n)
live_on (registers answers callbacks) deleted = none
live_on ends unborn = some unborn
live_on ends (alive r c n) = some deleted
live_on ends deleted = none
live_on (dies answers) unborn = some unborn
live_on (dies answers) (alive true c n) = some (searched answers c n)
live_on (dies answers) (alive false c n) = some (alive false c n)
live_on (dies answers) deleted = some deleted

abbrev pub live_through : List ClientMove → Life → Option Life
live_through [] l = some l
live_through (m ∷ ms) l = live_on m l >>= live_through ms

-- How the variables show it.
abbrev pub Shows : {S : Type 0} → Life → Phone S → Type 0
Shows unborn w =
    (w.m_instance ≡ false)
    × (w.m_client_instance ≡ false)
    × (w.live ≡ false)
    × (w.s_register_client ≡ false)
    × (w.s_client_reg_called ≡ false)
    × (w.has_callbacks ≡ false)
    × (w.clients_added ≡ 0)
Shows (alive ready callbacks added) w =
    (w.m_instance ≡ true)
    × (w.m_client_instance ≡ true)
    × (w.live ≡ true)
    × (w.s_register_client ≡ true)
    × (w.is_serviceready ≡ ready)
    × (w.has_callbacks ≡ callbacks)
    × (w.clients_added ≡ added)
Shows deleted w =
    (w.m_instance ≡ true)
    × (w.m_client_instance ≡ true)
    × (w.live ≡ false)
    × (w.s_register_client ≡ false)

-- Both use the deleted object, or neither does and the variables show the life.
abbrev pub Agrees : {S : Type 0} → Option Life → Option (Phone S) → Type 0
Agrees none none = Unit
Agrees none (some w) = ⊥
Agrees (some l) none = ⊥
Agrees (some l) (some w) = Shows l w

Agrees->>= :
    {S : Type 0} (f : Life → Option Life) (g : Phone S → Option (Phone S)) (o : Option Life)
    (p : Option (Phone S))
    → Agrees o p
    → ((l : Life) (w : Phone S) → Shows l w → Agrees (f l) (g w))
    → Agrees (o >>= f) (p >>= g)
Agrees->>= f g none none h k = tt
Agrees->>= f g none (some w) h k = elim h [ ]
Agrees->>= f g (some l) none h k = elim h [ ]
Agrees->>= f g (some l) (some w) h k = k l w h

module _ {S : Type 0} where
  register_client-Agrees :
      (answers : ℕ → Bool) (callbacks : Bool) (l : Life) (w : Phone S)
      → Shows l w
      → Agrees (live_on (registers answers callbacks) l) (register_client answers callbacks w)
  unfolding register_client get_instance register_client_callback app_client add_client
  register_client-Agrees answers callbacks unborn w h =
      ground (arith, Bool-cases (find_service answers service_tries), Bool-cases callbacks)
  register_client-Agrees answers callbacks (alive r c n) w h = ground arith
  register_client-Agrees answers callbacks deleted w h = ground arith

  de_register_client-Agrees :
      (l : Life) (w : Phone S) → Shows l w → Agrees (live_on ends l) (de_register_client w)
  unfolding de_register_client
  de_register_client-Agrees unborn w h = ground arith
  de_register_client-Agrees (alive r c n) w h = ground arith
  de_register_client-Agrees deleted w h = ground arith

  binder_died-Agrees :
      (answers : ℕ → Bool) (l : Life) (w : Phone S)
      → Shows l w
      → Agrees (live_on (dies answers) l) (binder_died answers w)
  unfolding binder_died reconnect_thread get_instance reconnect_phone_service add_client
  binder_died-Agrees answers unborn w h = ground arith
  binder_died-Agrees answers (alive true c n) w h =
      ground (arith, Bool-cases (find_service answers service_tries))
  binder_died-Agrees answers (alive false c n) w h = ground arith
  binder_died-Agrees answers deleted w h = ground arith

  client_move-Agrees :
      (m : ClientMove) (l : Life) (w : Phone S) → Shows l w → Agrees (live_on m l) (client_move m w)
  unfolding client_move
  client_move-Agrees (registers answers callbacks) l w h =
      register_client-Agrees answers callbacks l w h
  client_move-Agrees ends l w h = de_register_client-Agrees l w h
  client_move-Agrees (dies answers) l w h = binder_died-Agrees answers l w h

  live_through-Agrees :
      (ms : List ClientMove) (l : Life) (w : Phone S)
      → Shows l w
      → Agrees (live_through ms l) (client_moves ms w)
  unfolding client_moves
  live_through-Agrees [] l w h = h
  live_through-Agrees (m ∷ ms) l w h =
      Agrees->>= (live_through ms) (client_moves ms) (live_on m l) (client_move m w)
        (client_move-Agrees m l w h) (live_through-Agrees ms)

  -- In a new process, and whatever a search for the service finds, every sequence of registrations,
  -- their ends and deaths of the service uses the deleted object exactly if the life of the object says
  -- so, and else leaves the variables as that life has them.
  pub client_moves-Agrees :
      (ms : List ClientMove) (statics : Statics) (service : S)
      → Agrees (live_through ms unborn) (client_moves ms (unused statics service))
  client_moves-Agrees ms statics service =
      live_through-Agrees ms unborn (unused statics service)
        (refl, refl, refl, refl, refl, refl, refl)
